-- ===== src/Discovery/Gates.antt =====
-- `backendFor` (gateway/internal/discovery/discovery.go): the backend that a ModelDeployment is
-- published as. It is ready only past all its gates; an early return is an `err` here, with the
-- state and the message that the backend then has.
use inferops.Base.{
  List, [], ◌∷◌, ◌++◌, Bool, false, not, ◌&&◌, ◌||◌, if◌then◌else◌, Option, none, some, Str, ◌==◌,
  str_eq, is_empty, codes, ℤ, pos, ltb_ℤ, or_zero, lookup, itoa, join_host_port, Result, ok, err,
  ◌>>=◌, ◌>>◌, fail_if,
}
use inferops.RoutingPath.Defs.{default_model_route}
use inferops.Kube.{Service, condition_true, condition_false}
use inferops.Conditions.Defs.{Condition}
use inferops.Api.Spec.{
  RouteStrategy, route_least_loaded, route_weighted, RateLimitSpec, RoutingPolicySpec,
  is_active_desired,
}
use inferops.Api.Status.{
  Phase, phase_pending, phase_downloading, phase_cached, phase_waiting_for_capacity,
  phase_waiting_for_gpu, phase_activating, phase_active, phase_deactivating, phase_failed,
  ModelDeployment, is_draining_phase, is_active_phase, runtime_ready, model_loaded, routing_ready,
  rollout_condition, ready_condition, waiting_for_capacity_reason, rollout_rejected_reason,
}
use inferops.Api.Runtime.{service_name_of}
use inferops.Routing.Types.{
  State, inactive, activating, ready, unavailable, draining, Url, RoutingStrategy, unset,
  least_loaded, weighted, RateLimitPolicy, TrafficPolicy, Backend,
}
use inferops.Discovery.Endpoints.{owned_by, runtime_http_port_of, deployment_label}

gateway_strategy : RouteStrategy → RoutingStrategy
gateway_strategy route_weighted = weighted
gateway_strategy route_least_loaded = least_loaded
gateway_strategy _ = unset

gateway_rate_limit : Option RateLimitSpec → Option RateLimitPolicy
gateway_rate_limit none = none
gateway_rate_limit (some limit) =
    some (record { requests_per_minute = limit.requests_per_minute; burst = limit.burst })

gateway_logging : Option Bool → Option (Option Bool)
gateway_logging none = none
gateway_logging (some enabled) = some (some enabled)

-- `routingPolicy`.
unfoldable pub routing_policy : RoutingPolicySpec → TrafficPolicy
unfolding gateway_strategy gateway_rate_limit gateway_logging
routing_policy policy = record {
  routing_strategy = gateway_strategy policy.routing_strategy;
  weight = policy.weight;
  rate_limit = gateway_rate_limit policy.rate_limit;
  request_logging = gateway_logging policy.request_logging;
}

abbrev pub Withdrawn : Type 0
Withdrawn = State × Str

abbrev Gate : Type 0
Gate = Result Withdrawn (Unit {0})

-- The early return with the state unavailable.
abbrev close_if : Bool → Str → Gate
close_if bad message = fail_if bad (unavailable, message)

-- The switch over the phase of an active deployment.
unfoldable pub phase_gate : Phase → Gate
phase_gate phase_active = ok tt
phase_gate phase_deactivating = err (inactive, codes "model is inactive")
phase_gate phase_cached = err (inactive, codes "model is inactive")
phase_gate phase_pending = err (activating, codes "model is activating")
phase_gate phase_downloading = err (activating, codes "model is activating")
phase_gate phase_waiting_for_capacity = err (activating, codes "model is activating")
phase_gate phase_waiting_for_gpu = err (activating, codes "model is activating")
phase_gate phase_activating = err (activating, codes "model is activating")
phase_gate phase_failed = err (unavailable, codes "model deployment failed")
phase_gate _ = err (activating, codes "model state has not been observed yet")

unfoldable pub some_or : {A : Type 0} → Option A → Str → Result Withdrawn A
some_or none message = err (unavailable, message)
some_or (some a) message = ok a

module _ {T : Type 0} where
  -- The loop of `conditionTrue`.
  unfoldable pub has_true : List (Condition T) → Str → Bool
  has_true [] type = false
  has_true (c ∷ cs) type = if c.type == type then c.status == condition_true else has_true cs type

  -- The loop of `conditionTrueForGeneration`.
  unfoldable pub has_true_since : List (Condition T) → Str → ℤ → Bool
  has_true_since [] type generation = false
  has_true_since (c ∷ cs) type generation =
      if c.type == type
      then c.status == condition_true && not (ltb_ℤ c.observed_generation generation)
      else has_true_since cs type generation

  -- The loop of `rolloutBlockedWithStableRuntime`.
  blocked_from : List (Condition T) → ℤ → Bool
  blocked_from [] generation = false
  blocked_from (c ∷ cs) generation =
      if not (c.type == rollout_condition)
        || not (c.status == condition_false)
        || ltb_ℤ c.observed_generation generation
      then blocked_from cs generation
      else c.reason == waiting_for_capacity_reason || c.reason == rollout_rejected_reason

  unfoldable pub rollout_blocked : ModelDeployment T → Bool
  unfolding blocked_from
  rollout_blocked d =
      if not (is_active_phase d.status.phase)
      then false
      else blocked_from d.status.conditions d.generation

  -- The gates on the state of the runtime.
  unfoldable pub conditions_gate : ModelDeployment T → Gate
  unfolding rollout_blocked has_true has_true_since
  conditions_gate d =
      let cs = d.status.conditions in
      if rollout_blocked d
      then close_if
          (not (has_true cs runtime_ready)
            || not (has_true cs model_loaded)
            || not (has_true cs routing_ready)
            || not d.status.model.loaded)
          (codes "previous runtime is not ready while rollout is blocked")
      else close_if
          (not (has_true_since cs runtime_ready d.generation)
            || not (has_true_since cs model_loaded d.generation)
            || not (has_true_since cs routing_ready d.generation)
            || not (has_true_since cs ready_condition d.generation)
            || not d.status.model.loaded)
          (codes "model runtime is not ready for routing")

  unfoldable pub deployment_gate : ModelDeployment T → Gate
  unfolding phase_gate conditions_gate
  deployment_gate d =
      let replicas = d.status.replicas in
      do
        fail_if (is_draining_phase d.status.phase)
            (draining, codes "model is draining and is not accepting new requests")
        fail_if (not (is_active_desired d.spec.activation.desired_state))
            (inactive, codes "model is inactive")
        phase_gate d.status.phase
        close_if (not d.spec.routing.enabled || not d.spec.routing.openai_compatible)
            (codes "OpenAI-compatible gateway routing is disabled")
        close_if (ltb_ℤ d.status.observed_generation d.generation) (codes "model status is stale")
        conditions_gate d
        close_if (ltb_ℤ replicas.desired (pos 1) || ltb_ℤ replicas.ready replicas.desired)
            (codes "model runtime has no ready replicas")

  -- The gates on the Service, up to its endpoint.
  unfoldable pub service_gate :
      ModelDeployment T → List (Str × Bool) → Service → Result Withdrawn Url
  unfolding some_or
  service_gate d ready_services service = do
    close_if service.is_deleting (codes "model runtime Service is terminating")
    close_if (not (deployment_label service.labels == d.name))
        (codes "model runtime Service ownership does not match")
    close_if (not (owned_by service.owner_references d.name d.uid))
        (codes "model runtime Service owner reference does not match")
    close_if
        (not (service.namespace == d.namespace)
          || not (deployment_label service.selector == d.name))
        (codes "model runtime Service selector does not match")
    port ←
        some_or (runtime_http_port_of service.ports) (codes "model runtime Service has no TCP port")
    close_if (not (service.type == codes "ClusterIP"))
        (codes "model runtime Service must be a ClusterIP Service")
    close_if (is_empty service.cluster_ip || service.cluster_ip == codes "None")
        (codes "model runtime Service is not allocated")
    close_if (not (or_zero false (lookup service.name ready_services)))
        (codes "model runtime Service has no ready endpoints")
    ok (record {
      scheme = codes "http";
      host = join_host_port (service.name ++ codes "." ++ d.namespace ++ codes ".svc") (itoa port);
      path = [];
    })

  abbrev pub runtime_service_name : ModelDeployment T → Str
  runtime_service_name d =
      if is_empty d.status.service_name then service_name_of d.name else d.status.service_name

  -- All the gates.
  unfoldable pub endpoint_for :
      ModelDeployment T → List (Str × Service) → List (Str × Bool) → Result Withdrawn Url
  unfolding deployment_gate service_gate
  endpoint_for d services ready_services = do
    deployment_gate d
    service ←
        some_or (lookup (runtime_service_name d) services)
          (codes "model runtime Service was not found")
    service_gate d ready_services service

  -- `backendFor`.
  unfoldable pub backend_for :
      ModelDeployment T → List (Str × Service) → List (Str × Bool) → Backend
  unfolding endpoint_for routing_policy
  backend_for d services ready_services =
      let path = d.spec.routing.path in
      let backend : Backend = record {
        name = d.name;
        namespace = d.namespace;
        route_prefix = if is_empty path then default_model_route d.name else path;
        endpoint = none;
        state = unavailable;
        message = codes "model runtime is unavailable";
        policy = routing_policy d.spec.routing.policy;
      } in
      elim (endpoint_for d services ready_services) [
        | err withdrawn ↦ record backend { state = withdrawn.0; message = withdrawn.1 }
        | ok url ↦ record backend { endpoint = some url; state = ready; message = [] }
      ]
