-- ===== src/Tests/Validation.antt =====
-- The validators and the resolver at work.
use inferops.Tests.Fixtures.{parse_decimal}
use inferops.Base.{has_prefix}
use inferops.Base.{trim_suffix_byte}
use inferops.Paths.Defs.{under_root}
use inferops.RoutingPath.Clean.{clean}
use inferops.Paths.Defs.{clean_absolute_path}
use inferops.Validation.Scheduling.{validate_node_scheduling}
use inferops.RoutingPath.Clean.{clean}
use inferops.Paths.Defs.{clean_absolute_path}
use inferops.Tests.Fixtures.{parse_decimal}
use inferops.Image.{after_last}
use inferops.Base.{contains_any}
use inferops.Base.{trim_space}
use inferops.Validation.Deployment.{image_checked}
use inferops.Validation.Deployment.{validate_rollout}
use inferops.Validation.Deployment.{validate_availability}
use inferops.Validation.Scheduling.{validate_scheduling}
use inferops.RoutingPath.Defs.{reserved_by}
use inferops.RoutingPath.Clean.{clean}
use inferops.Base.{trim_suffix_byte}
use inferops.Base.{has_prefix}
use inferops.RoutingPath.Defs.{normalize}
use inferops.Validation.Deployment.{validate_scaling}
use inferops.Validation.Deployment.{check_duration}
use inferops.Validation.Deployment.{check_gpu}
use inferops.Validation.Deployment.{validate_positive_quantity}
use inferops.Image.{after_last}
use inferops.Base.{contains_any}
use inferops.Base.{trim_space}
use inferops.Base.{[], ◌≡◌, refl, ◌⊎◌, some, codes, ok, err, str_eq}
use inferops.Image.{validate_pinned_image}
use inferops.Image.Laws.{HasDigest, HasTag, validate_pinned_image-IsPinned}
use inferops.Scheduler.Cache.Types.{PlannerConfig, pending, no_eligible_node}
use inferops.Scheduler.Cache.Defs.{plan_cache}
use inferops.Validation.Deployment.{validate_model_deployment}
use inferops.Validation.Resources.{validate_model_runtime, NamedCache, validate_model_cache}
use inferops.Validation.Caches.{IsClusterLimit, validated-IsClusterLimit}
use inferops.Resolver.{ResolvedSpec, fetched, resolve}
use inferops.Resolver.Laws.{IsResolved}
use inferops.Resolver.Valid.{validated-resolves}
use inferops.Tests.Fixtures.{decimal_quantities}
use inferops.Tests.Objects.{name_rules, object_rules, deployment, runtime}

image_test : validate_pinned_image (codes "vllm:v1") ≡ ok tt
unfolding validate_pinned_image trim_space contains_any after_last
image_test = refl

validate_pinned_image-IsPinned_example : HasDigest (codes "vllm:v1") ⊎ HasTag (codes "vllm:v1")
validate_pinned_image-IsPinned_example = validate_pinned_image-IsPinned (codes "vllm:v1") image_test

deployment_test :
    validate_model_deployment decimal_quantities name_rules object_rules deployment ≡ ok tt
unfolding validate_model_deployment validate_positive_quantity check_gpu check_duration
    validate_scaling normalize has_prefix trim_suffix_byte clean reserved_by validate_scheduling
    validate_availability validate_rollout
deployment_test = refl

runtime_test : validate_model_runtime object_rules runtime ≡ ok tt
unfolding validate_model_runtime image_checked validate_pinned_image trim_space contains_any
    after_last
runtime_test = refl

validated-resolves_example :
    (spec : ResolvedSpec) × (resolve (λ namespace name. fetched (some runtime)) (some deployment)
      ≡ ok spec)
    × IsResolved deployment runtime spec
validated-resolves_example =
    validated-resolves decimal_quantities name_rules object_rules deployment runtime
      (λ namespace name. fetched (some runtime)) deployment_test runtime_test refl

abbrev named : NamedCache
named = record {
  name = codes "c";
  secret_ref = [];
  cache = record {
    uid = codes "w";
    spec = record {
      model_repo = codes "r";
      revision = [];
      storage = record {
        type = codes "nodeLocal";
        size = codes "600";
        node_name = [];
        node_selector = [];
        tolerations = [];
        path = codes "/c/w";
      };
    };
    status = record {
      phase = pending;
      revision = [];
      node_name = [];
      path = [];
      reserved_size = [];
      conditions = [];
    };
  };
}

abbrev config : PlannerConfig
config = record {
  cache_root = codes "/c";
  node_selector = [];
  capacity_annotation = codes "a";
  required_resources = [];
}

cache_test : validate_model_cache decimal_quantities name_rules object_rules named ≡ ok tt
unfolding validate_model_cache parse_decimal clean_absolute_path clean validate_node_scheduling
cache_test = refl

no_nodes_test : plan_cache decimal_quantities config (some named.cache) [] [] ≡ err no_eligible_node
unfolding plan_cache clean_absolute_path clean under_root trim_suffix_byte has_prefix parse_decimal
no_nodes_test = refl

validated-IsClusterLimit_example : IsClusterLimit no_eligible_node
validated-IsClusterLimit_example =
    validated-IsClusterLimit decimal_quantities name_rules object_rules named config [] []
      no_eligible_node cache_test no_nodes_test
