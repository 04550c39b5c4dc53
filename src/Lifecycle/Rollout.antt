-- ===== src/Lifecycle/Rollout.antt =====
-- The GPU slots that a rollout takes beside those in use
-- (operator/controllers/modeldeployment_lifecycle_controller.go).
use inferops.Base.{
  List, [], ◌∷◌, Bool, true, false, not, ◌&&◌, if◌then◌else◌, Option, none, some, Str, ◌==◌, str_eq,
  codes, ℤ, pos, ltb_ℤ, ◌+64◌, ◌*64◌, lookup,
}
use inferops.Kube.{Quantities, condition_true}
use inferops.Conditions.Defs.{Condition, find_condition}
use inferops.Api.Spec.{
  GpuResourceRequest, RolloutStrategy, rollout_unset, recreate, rolling, blue_green, canary,
  WhenNoCapacity, no_capacity_unset, no_capacity_queue,
}
use inferops.Api.Status.{ModelDeployment, rollout_condition}
use inferops.Lifecycle.Effective.{effective_gpu_reservation, gpu_resource_name}

abbrev strategy_of : RolloutStrategy → RolloutStrategy
strategy_of rollout_unset = recreate
strategy_of strategy = strategy

abbrev pub needs_spare : RolloutStrategy → Bool
needs_spare rolling = true
needs_spare blue_green = true
needs_spare canary = true
needs_spare _ = false

abbrev when_no_capacity : WhenNoCapacity → WhenNoCapacity
when_no_capacity no_capacity_unset = no_capacity_queue
when_no_capacity action = action

-- The GPUs of one replica, one at least. The callers have checked that there is a GPU request.
abbrev count_of : Option GpuResourceRequest → ℤ
count_of none = pos 0
count_of (some gpu) = gpu.count

abbrev pub per_replica : Option GpuResourceRequest → ℤ
per_replica gpu = if ltb_ℤ (count_of gpu) (pos 1) then pos 1 else count_of gpu

-- Of an `appsv1.Deployment`, its replicas and the requests of its containers.
pub record RuntimeDeployment (Q : Type 0) : Type 0 where
  pub replicas : Option ℤ
  pub requests : List (List (Str × Q))

-- `deploymentReplicas`.
unfoldable pub deployment_replicas : {Q : Type 0} → Option (RuntimeDeployment Q) → ℤ
deployment_replicas none = pos 1
deployment_replicas (some r) = elim r.replicas [ none ↦ pos 1 | some n ↦ n ]

module _ (q : Quantities) where
  -- The loop over the containers, from a sum.
  unfoldable pub gpus_per_pod : Str → ℤ → List (List (Str × q.Quantity)) → ℤ
  gpus_per_pod name sum [] = sum
  gpus_per_pod name sum (requests ∷ more) =
      let next : ℤ = elim (lookup name requests) [
        | none ↦ sum
        | some quantity ↦ if ltb_ℤ (pos 0) (q.sign quantity) then sum +64 q.value quantity else sum
      ] in
      gpus_per_pod name next more

  -- `runtimeDeploymentGPUReservation`.
  unfoldable pub runtime_deployment_gpu_reservation :
      Option (RuntimeDeployment q.Quantity) → Str → ℤ
  unfolding deployment_replicas gpus_per_pod
  runtime_deployment_gpu_reservation none name = pos 0
  runtime_deployment_gpu_reservation (some r) name =
      let replicas = deployment_replicas (some r) in
      if not (ltb_ℤ (pos 0) replicas)
      then pos 0
      else gpus_per_pod name (pos 0) r.requests *64 replicas

module _ {T : Type 0} where
  -- `effectiveRolloutStrategy`.
  unfoldable pub effective_rollout_strategy : ModelDeployment T → RolloutStrategy
  effective_rollout_strategy d = strategy_of d.spec.rollout.strategy

  -- `effectiveRolloutWhenCapacityUnavailable`.
  unfoldable pub effective_when_no_capacity : ModelDeployment T → WhenNoCapacity
  effective_when_no_capacity d = when_no_capacity d.spec.rollout.when_capacity_unavailable

  -- `rolloutRequiresSpareCapacity`.
  unfoldable pub rollout_requires_spare_capacity : ModelDeployment T → Bool
  unfolding effective_rollout_strategy
  rollout_requires_spare_capacity d = needs_spare (effective_rollout_strategy d)

  abbrev is_reserved_since : ℤ → Option (Condition T) → Bool
  is_reserved_since generation none = false
  is_reserved_since generation (some c) =
      c.status == condition_true
      && not (ltb_ℤ c.observed_generation generation)
      && c.reason == codes "RolloutCapacityReserved"

  -- `rolloutSurgeReservationActive`.
  unfoldable pub rollout_surge_reservation_active : ModelDeployment T → Bool
  unfolding rollout_requires_spare_capacity
  rollout_surge_reservation_active d =
      if not (rollout_requires_spare_capacity d)
      then false
      else is_reserved_since d.generation (find_condition d.status.conditions rollout_condition)

  -- `rolloutSurgeGPUReservation`.
  unfoldable pub rollout_surge_gpu_reservation : ModelDeployment T → ℤ
  unfolding effective_rollout_strategy
  rollout_surge_gpu_reservation d =
      let steady = effective_gpu_reservation d in
      let surged = steady +64 per_replica d.spec.resources.gpu in
      if not (ltb_ℤ (pos 0) steady) then steady else elim (effective_rollout_strategy d) [
        | blue_green ↦ steady *64 pos 2
        | rolling ↦ surged
        | canary ↦ surged
        | _ ↦ steady
      ]

  -- `rolloutRequiredGPUSlots`.
  unfoldable pub rollout_required_gpu_slots :
      (q : Quantities) → ModelDeployment T → Option (RuntimeDeployment q.Quantity) → ℤ
  unfolding effective_rollout_strategy
  rollout_required_gpu_slots q d existing =
      let old_slots = runtime_deployment_gpu_reservation q existing (gpu_resource_name d) in
      let surged = old_slots +64 per_replica d.spec.resources.gpu in
      if not (ltb_ℤ (pos 0) old_slots)
      then effective_gpu_reservation d
      else elim (effective_rollout_strategy d) [
        | blue_green ↦ old_slots +64 effective_gpu_reservation d
        | rolling ↦ surged
        | canary ↦ surged
        | _ ↦ effective_gpu_reservation d
      ]
