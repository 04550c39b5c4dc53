-- ===== src/Api/Status.antt =====
-- `ModelDeployment` and its status (operator/api/v1alpha1/modeldeployment_types.go). `T` is
-- `metav1.Time`; a pointer that may be nil is an `Option`.
use inferops.Base.{List, Bool, true, false, Option, Str, codes, ℤ}
use inferops.Conditions.Defs.{Condition}
use inferops.Api.Spec.{DeploymentSpec}

pub data Phase : Type 0 where
  phase_pending phase_downloading phase_cached phase_waiting_for_capacity : Phase
  phase_waiting_for_gpu phase_activating phase_active phase_draining : Phase
  phase_deactivating phase_failed : Phase
  other_phase : Str → Phase

pub record ReplacementReference : Type 0 where
  pub namespace : Str
  pub name : Str
  pub uid : Str

pub data ReplacementPhase : Type 0 where
  replacement_draining replacement_activating succeeded displaced : ReplacementPhase
  rolling_back rolled_back rollback_failed : ReplacementPhase
  other_replacement : Str → ReplacementPhase

pub record ReplacementStatus (T : Type 0) : Type 0 where
  pub phase : ReplacementPhase
  pub request_generation : ℤ
  pub target : Option ReplacementReference
  pub requested_by : Option ReplacementReference
  pub started_at : Option T
  pub message : Str

-- `ModelCacheSummary`.
pub record CacheSummary : Type 0 where
  pub state : Str
  pub node_name : Str
  pub path : Str

pub record ReplicaStatus : Type 0 where
  pub desired : ℤ
  pub ready : ℤ

pub record ScalingStatus (T : Type 0) : Type 0 where
  pub desired_replicas : ℤ
  pub pending_requests : ℤ
  pub running_requests : ℤ
  pub last_activity_time : Option T
  pub capacity_limited : Bool
  pub reason : Str
  pub message : Str

pub record ModelStatus : Type 0 where
  pub loaded : Bool
  pub repo : Str

pub record DeploymentStatus (T : Type 0) : Type 0 where
  pub observed_generation : ℤ
  pub phase : Phase
  pub endpoint : Str
  pub service_name : Str
  pub assigned_node : Str
  pub assigned_gpus : List Str
  pub drain_started_at : Option T
  pub replacement : Option (ReplacementStatus T)
  pub cache : CacheSummary
  pub replicas : ReplicaStatus
  pub scaling : ScalingStatus T
  pub model : ModelStatus
  pub conditions : List (Condition T)

-- Of the object's metadata, what the program reads.
pub record ModelDeployment (T : Type 0) : Type 0 where
  pub namespace : Str
  pub name : Str
  pub uid : Str
  pub generation : ℤ
  pub creation_timestamp : T
  pub deletion_timestamp : Option T
  pub spec : DeploymentSpec
  pub status : DeploymentStatus T

abbrev pub is_draining_phase : Phase → Bool
is_draining_phase phase_draining = true
is_draining_phase _ = false

abbrev pub is_active_phase : Phase → Bool
is_active_phase phase_active = true
is_active_phase _ = false

abbrev pub runtime_ready : Str
runtime_ready = codes "RuntimeReady"

abbrev pub model_loaded : Str
model_loaded = codes "ModelLoaded"

abbrev pub routing_ready : Str
routing_ready = codes "RoutingReady"

abbrev pub rollout_condition : Str
rollout_condition = codes "Rollout"

abbrev pub ready_condition : Str
ready_condition = codes "Ready"

abbrev pub waiting_for_capacity_reason : Str
waiting_for_capacity_reason = codes "RolloutWaitingForCapacity"

abbrev pub rollout_rejected_reason : Str
rollout_rejected_reason = codes "RolloutRejected"
