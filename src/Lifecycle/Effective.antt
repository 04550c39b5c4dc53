-- ===== src/Lifecycle/Effective.antt =====
-- The effective values of a deployment's spec
-- (operator/controllers/modeldeployment_lifecycle_controller.go and _transitions.go). An `int32` is
-- an integer: only the product of two is widened to 64 bits in the source.
use inferops.Base.{
  ℕ, Bool, true, false, not, ◌||◌, if◌then◌else◌, Option, none, some, Str, ◌==◌, str_eq, is_empty,
  codes, ◌++◌, ℤ, pos, ltb_ℤ, eqb_ℤ, Result, ok, err, ◌*64◌, ◌*◌,
}
use inferops.Kube.{ObjectRules}
use inferops.Conditions.Defs.{Condition, find_condition}
use inferops.Api.Spec.{
  DesiredState, desired_unset, desired_inactive, WhenFull, when_full_unset, queue, replace_oldest,
  replace_lowest_priority, GpuResourceRequest, is_active_desired,
}
use inferops.Api.Status.{
  Phase, phase_pending, phase_downloading, phase_waiting_for_capacity, phase_waiting_for_gpu,
  phase_activating, phase_draining, phase_deactivating, phase_failed, ReplacementPhase,
  replacement_draining, replacement_activating, rolling_back, ReplacementStatus, ModelDeployment,
  ready_condition,
}
use inferops.Api.Runtime.{default_gpu_vendor}

-- Seconds, of the nanoseconds that a `time.Duration` counts.
abbrev pub seconds : ℕ → ℤ
seconds n = pos (n * 1000000000)

abbrev pub deployment_requeue_after : ℤ
deployment_requeue_after = seconds 10

abbrev pub waiting_requeue_after : ℤ
waiting_requeue_after = seconds 30

abbrev pub default_drain_timeout : ℤ
default_drain_timeout = seconds 300

abbrev pub is_inactive : DesiredState → Bool
is_inactive desired_inactive = true
is_inactive _ = false

abbrev effective_state : DesiredState → DesiredState
effective_state desired_unset = desired_inactive
effective_state state = state

abbrev effective_policy : WhenFull → WhenFull
effective_policy when_full_unset = queue
effective_policy policy = policy

abbrev pub is_lowest_priority : WhenFull → Bool
is_lowest_priority replace_lowest_priority = true
is_lowest_priority _ = false

-- `isReplacementPolicy`.
unfoldable pub is_replacement_policy : WhenFull → Bool
is_replacement_policy replace_oldest = true
is_replacement_policy replace_lowest_priority = true
is_replacement_policy _ = false

-- `replacementReservesGPUHandoff`, of the phase of a replacement with a target.
abbrev reserves_in : ReplacementPhase → Bool
reserves_in replacement_draining = true
reserves_in replacement_activating = true
reserves_in rolling_back = true
reserves_in _ = false

abbrev is_rolling_back : ReplacementPhase → Bool
is_rolling_back rolling_back = true
is_rolling_back _ = false

-- `deploymentRequeueResult`.
unfoldable pub requeue_result : Phase → ℤ
requeue_result phase_pending = waiting_requeue_after
requeue_result phase_waiting_for_capacity = waiting_requeue_after
requeue_result phase_waiting_for_gpu = waiting_requeue_after
requeue_result phase_downloading = deployment_requeue_after
requeue_result phase_activating = deployment_requeue_after
requeue_result phase_draining = deployment_requeue_after
requeue_result phase_deactivating = deployment_requeue_after
requeue_result _ = pos 0

-- What stops a reconciliation: a timeout that does not parse or is not positive, or a call.
pub data TimeoutError : Type 0 where
  not_a_duration not_positive : TimeoutError

abbrev checked_timeout : Option ℤ → Result TimeoutError ℤ
checked_timeout none = err not_a_duration
checked_timeout (some timeout) = if ltb_ℤ (pos 0) timeout then ok timeout else err not_positive

-- `effectiveDrainTimeout`.
unfoldable pub effective_drain_timeout : ObjectRules → Str → Result TimeoutError ℤ
effective_drain_timeout objects text =
    if is_empty text
    then ok default_drain_timeout
    else checked_timeout (objects.parse_duration text)

abbrev vendor_of : Option GpuResourceRequest → Str
vendor_of none = default_gpu_vendor
vendor_of (some gpu) = if is_empty gpu.vendor then default_gpu_vendor else gpu.vendor

module _ {T : Type 0} where
  -- `effectiveDesiredState`.
  unfoldable pub effective_desired_state : ModelDeployment T → DesiredState
  effective_desired_state d = effective_state d.spec.activation.desired_state

  -- `effectiveWhenFull`.
  unfoldable pub effective_when_full : ModelDeployment T → WhenFull
  effective_when_full d = effective_policy d.spec.activation.when_full

  -- `effectiveMaxReplicas`.
  unfoldable pub effective_max_replicas : ModelDeployment T → ℤ
  effective_max_replicas d =
      if ltb_ℤ d.spec.scaling.max_replicas (pos 1) then pos 1 else d.spec.scaling.max_replicas

  -- `baseRuntimeReplicas`.
  unfoldable pub base_runtime_replicas : ModelDeployment T → ℤ
  unfolding effective_max_replicas
  base_runtime_replicas d =
      let replicas =
        if ltb_ℤ d.spec.scaling.min_replicas (pos 1) then pos 1 else d.spec.scaling.min_replicas in
      let max_replicas = effective_max_replicas d in
      if ltb_ℤ max_replicas replicas then max_replicas else replicas

  -- `effectiveRuntimeReplicas`.
  unfoldable pub effective_runtime_replicas : ModelDeployment T → ℤ
  unfolding base_runtime_replicas
  effective_runtime_replicas d =
      let desired = d.status.scaling.desired_replicas in
      let max_replicas = effective_max_replicas d in
      if ltb_ℤ (pos 0) desired
      then (if ltb_ℤ max_replicas desired then max_replicas else desired)
      else base_runtime_replicas d

  -- `autoscalingEnabled`.
  unfoldable pub autoscaling_enabled : ModelDeployment T → Bool
  autoscaling_enabled d =
      ltb_ℤ (pos 0) d.spec.scaling.target_pending_requests
      || not (is_empty d.spec.scaling.idle_timeout)

  abbrev has_reason : Str → Option (Condition T) → Bool
  has_reason reason none = false
  has_reason reason (some c) = c.reason == reason

  -- `shouldHoldIdleScaleToZero`.
  unfoldable pub should_hold_idle_scale_to_zero : ModelDeployment T → Bool
  should_hold_idle_scale_to_zero d =
      if not (eqb_ℤ d.spec.scaling.min_replicas (pos 0))
        || is_empty d.spec.scaling.idle_timeout
        || ltb_ℤ d.status.observed_generation d.generation
      then false
      else has_reason (codes "IdleScaledToZero")
          (find_condition d.status.conditions ready_condition)

  -- `retryableOperationalFailure`.
  unfoldable pub retryable_operational_failure : ModelDeployment T → Bool
  retryable_operational_failure d =
      has_reason (codes "CacheFailed") (find_condition d.status.conditions ready_condition)

  -- `effectiveIdleTimeout`, `none` for its false.
  unfoldable pub effective_idle_timeout : ObjectRules → ModelDeployment T → Option ℤ
  effective_idle_timeout objects d =
      if is_empty d.spec.scaling.idle_timeout
      then none
      else elim (objects.parse_duration d.spec.scaling.idle_timeout) [
        | none ↦ none
        | some timeout ↦ if ltb_ℤ (pos 0) timeout then some timeout else none
      ]

  -- `scalingRequeueAfter`.
  unfoldable pub scaling_requeue_after : ObjectRules → ModelDeployment T → ℤ
  unfolding autoscaling_enabled effective_idle_timeout
  scaling_requeue_after objects d =
      if not (autoscaling_enabled d) then pos 0 else elim (effective_idle_timeout objects d) [
        | none ↦ waiting_requeue_after
        | some timeout ↦
            if ltb_ℤ timeout waiting_requeue_after then timeout else waiting_requeue_after
      ]

  unfoldable pub reserves_gpu_handoff : Option (ReplacementStatus T) → Bool
  reserves_gpu_handoff none = false
  reserves_gpu_handoff (some r) = elim r.target [ none ↦ false | some _ ↦ reserves_in r.phase ]

  abbrev displaced_by : Option (ReplacementStatus T) → Bool
  displaced_by none = false
  displaced_by (some r) = elim r.requested_by [
    | none ↦ false
    | some _ ↦ not (is_rolling_back r.phase)
  ]

  -- `runtimeServiceShouldDetach`.
  unfoldable pub runtime_service_should_detach : ModelDeployment T → Bool
  unfolding effective_desired_state
  runtime_service_should_detach d =
      let bound = displaced_by d.status.replacement in
      if not (is_active_desired (effective_desired_state d)) then true else elim d.status.phase [
        | phase_draining ↦ true
        | phase_deactivating ↦ true
        | phase_failed ↦ true
        | _ ↦ bound
      ]

  -- `gpuResourceName`.
  unfoldable pub gpu_resource_name : ModelDeployment T → Str
  gpu_resource_name d = vendor_of d.spec.resources.gpu ++ codes ".com/gpu"

  -- `effectiveGPUReservation`.
  unfoldable pub effective_gpu_reservation : ModelDeployment T → ℤ
  unfolding effective_runtime_replicas
  effective_gpu_reservation d = elim d.spec.resources.gpu [
    | none ↦ pos 0
    | some gpu ↦ gpu.count *64 effective_runtime_replicas d
  ]
