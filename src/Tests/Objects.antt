-- ===== src/Tests/Objects.antt =====
-- A deployment that is served, and what it needs.
use inferops.Base.{ℕ, [], ◌∷◌, true, false, none, some, Str, codes, pos, is_empty, not}
use inferops.Kube.{NameRules, ObjectRules, EndpointSlice, Service}
use inferops.Conditions.Defs.{Condition}
use inferops.Api.Spec.{
  desired_active, when_full_unset, route_unset, rollout_unset, no_capacity_unset,
}
use inferops.Api.Status.{phase_active, ModelDeployment}
use inferops.Api.Runtime.{ModelRuntime}

abbrev pub name_rules : NameRules
name_rules = record {
  is_qualified_name = λ s. not (is_empty s);
  is_valid_label_value = λ s. not (is_empty s);
}

abbrev pub object_rules : ObjectRules
object_rules = record {
  is_dns1035_label = λ s. not (is_empty s);
  is_dns1123_subdomain = λ s. not (is_empty s);
  is_env_var_name = λ s. not (is_empty s);
  parse_duration = λ s. some (pos 60);
}

abbrev condition_of : Str → Condition ℕ
condition_of type = record {
  type = type;
  status = codes "True";
  observed_generation = pos 1;
  last_transition_time = 5;
  reason = [];
  message = [];
}

abbrev pub deployment : ModelDeployment ℕ
deployment = record {
  namespace = codes "ns";
  name = codes "m";
  uid = codes "u";
  generation = pos 1;
  creation_timestamp = 1;
  deletion_timestamp = none;
  spec = record {
    model = record { name = []; source = []; repo = codes "r"; revision = [] };
    runtime = record {
      runtime_ref = codes "vllm";
      image = [];
      dtype = [];
      max_model_len = pos 0;
      tensor_parallel_size = pos 1;
      has_gpu_memory_utilization = false;
    };
    resources = record {
      cpu = [];
      memory = [];
      gpu = some (record { count = pos 1; vendor = []; type = [] });
    };
    activation = record {
      desired_state = desired_active;
      when_full = when_full_unset;
      priority = pos 0;
      drain_timeout = [];
    };
    scaling = record {
      min_replicas = pos 1;
      max_replicas = pos 2;
      target_pending_requests = pos 0;
      idle_timeout = [];
    };
    routing = record {
      enabled = true;
      path = codes "/m";
      openai_compatible = true;
      policy = record {
        routing_strategy = route_unset;
        weight = none;
        rate_limit = none;
        request_logging = none;
      };
    };
    cache = record { enabled = false; type = []; size = []; path = [] };
    secret_name = [];
    scheduling = record { node_selector = []; tolerations = []; topology_spread_constraints = [] };
    availability = record { enabled = none; min_available = none };
    rollout = record {
      strategy = rollout_unset;
      when_capacity_unavailable = no_capacity_unset;
      canary_weight_percent = none;
    };
  };
  status = record {
    observed_generation = pos 1;
    phase = phase_active;
    endpoint = [];
    service_name = [];
    assigned_node = codes "n";
    assigned_gpus = [];
    drain_started_at = none;
    replacement = none;
    cache = record { state = []; node_name = codes "n"; path = [] };
    replicas = record { desired = pos 1; ready = pos 1 };
    scaling = record {
      desired_replicas = pos 0;
      pending_requests = pos 0;
      running_requests = pos 0;
      last_activity_time = none;
      capacity_limited = false;
      reason = [];
      message = [];
    };
    model = record { loaded = true; repo = [] };
    conditions =
        condition_of (codes "RuntimeReady")
        ∷ condition_of (codes "ModelLoaded")
        ∷ condition_of (codes "RoutingReady")
        ∷ condition_of (codes "Ready")
        ∷ [];
  };
}

abbrev pub service : Service
service = record {
  namespace = codes "ns";
  name = codes "m-runtime";
  is_deleting = false;
  labels = (codes "inferops.dev/modeldeployment", codes "m") ∷ [];
  owner_references =
      record {
        api_version = codes "inference.inferops.dev/v1alpha1";
        kind = codes "ModelDeployment";
        name = codes "m";
        uid = codes "u";
        controller = some true;
      }
      ∷ [];
  selector = (codes "inferops.dev/modeldeployment", codes "m") ∷ [];
  type = codes "ClusterIP";
  cluster_ip = codes "10.0.0.1";
  ports =
      record {
        name = codes "http";
        protocol = codes "TCP";
        port = pos 8000;
        target_port = some (codes "http");
      }
      ∷ [];
}

abbrev pub slice : EndpointSlice
slice = record {
  service_label = codes "m-runtime";
  is_deleting = false;
  ports = record { name = some (codes "http"); protocol = none; port = some (pos 8000) } ∷ [];
  endpoints = record { addresses = codes "10.0.0.2" ∷ []; ready = none; terminating = none } ∷ [];
}

abbrev pub runtime : ModelRuntime
runtime = record {
  name = codes "vllm";
  spec = record {
    engine = codes "vllm";
    protocol = codes "openai";
    default_image = codes "vllm:v1";
    port = pos 8000;
    health_path = codes "/health";
    readiness_path = [];
    metrics_path = [];
    command = [];
    args = [];
    env = [];
  };
}
