-- ===== src/Api/Spec.antt =====
-- `ModelDeploymentSpec` (operator/api/v1alpha1/modeldeployment_types.go). A string type with
-- constants is a data type with a constructor for any other string; `unset` is the empty string.
use inferops.Base.{List, Bool, true, false, Option, Str, ℤ}
use inferops.Scheduler.Nodes.{Toleration}

pub record ModelSpec : Type 0 where
  pub name : Str
  pub source : Str
  pub repo : Str
  pub revision : Str

-- Of `GPUMemoryUtilization`, a float64, only whether it is not 0.
pub record RuntimeOverrides : Type 0 where
  pub runtime_ref : Str
  pub image : Str
  pub dtype : Str
  pub max_model_len : ℤ
  pub tensor_parallel_size : ℤ
  pub has_gpu_memory_utilization : Bool

pub record GpuResourceRequest : Type 0 where
  pub count : ℤ
  pub vendor : Str
  pub type : Str

pub record ResourceRequirements : Type 0 where
  pub cpu : Str
  pub memory : Str
  pub gpu : Option GpuResourceRequest

pub data DesiredState : Type 0 where
  desired_unset desired_inactive desired_active : DesiredState
  other_desired : Str → DesiredState

pub data WhenFull : Type 0 where
  when_full_unset queue reject replace_oldest replace_lowest_priority : WhenFull
  other_when_full : Str → WhenFull

pub record ActivationSpec : Type 0 where
  pub desired_state : DesiredState
  pub when_full : WhenFull
  pub priority : ℤ
  pub drain_timeout : Str

pub record ScalingSpec : Type 0 where
  pub min_replicas : ℤ
  pub max_replicas : ℤ
  pub target_pending_requests : ℤ
  pub idle_timeout : Str

-- The strategy of a deployment's route.
pub data RouteStrategy : Type 0 where
  route_unset route_least_loaded route_weighted : RouteStrategy
  other_route : Str → RouteStrategy

pub record RateLimitSpec : Type 0 where
  pub requests_per_minute : ℤ
  pub burst : ℤ

-- `request_logging` is `RequestLogging.Enabled`.
pub record RoutingPolicySpec : Type 0 where
  pub routing_strategy : RouteStrategy
  pub weight : Option ℤ
  pub rate_limit : Option RateLimitSpec
  pub request_logging : Option Bool

pub record RoutingSpec : Type 0 where
  pub enabled : Bool
  pub path : Str
  pub openai_compatible : Bool
  pub policy : RoutingPolicySpec

-- `CacheSpec`.
pub record CacheRequest : Type 0 where
  pub enabled : Bool
  pub type : Str
  pub size : Str
  pub path : Str

pub record TopologySpreadConstraint : Type 0 where
  pub max_skew : ℤ
  pub topology_key : Str
  pub when_unsatisfiable : Str

pub record SchedulingSpec : Type 0 where
  pub node_selector : List (Str × Str)
  pub tolerations : List Toleration
  pub topology_spread_constraints : List TopologySpreadConstraint

-- `PodDisruptionBudgetSpec`, the one field of `AvailabilitySpec`.
pub record DisruptionBudget : Type 0 where
  pub enabled : Option Bool
  pub min_available : Option ℤ

pub data RolloutStrategy : Type 0 where
  rollout_unset recreate rolling blue_green canary : RolloutStrategy
  other_rollout : Str → RolloutStrategy

pub data WhenNoCapacity : Type 0 where
  no_capacity_unset no_capacity_queue no_capacity_reject : WhenNoCapacity
  other_no_capacity : Str → WhenNoCapacity

pub record RolloutSpec : Type 0 where
  pub strategy : RolloutStrategy
  pub when_capacity_unavailable : WhenNoCapacity
  pub canary_weight_percent : Option ℤ

-- `secret_name` is `Secrets.HuggingFaceTokenSecretName`.
pub record DeploymentSpec : Type 0 where
  pub model : ModelSpec
  pub runtime : RuntimeOverrides
  pub resources : ResourceRequirements
  pub activation : ActivationSpec
  pub scaling : ScalingSpec
  pub routing : RoutingSpec
  pub cache : CacheRequest
  pub secret_name : Str
  pub scheduling : SchedulingSpec
  pub availability : DisruptionBudget
  pub rollout : RolloutSpec

abbrev pub is_active_desired : DesiredState → Bool
is_active_desired desired_active = true
is_active_desired _ = false

abbrev pub is_canary : RolloutStrategy → Bool
is_canary canary = true
is_canary _ = false
