-- ===== src/Lifecycle/Status.antt =====
-- The conditions that the lifecycle sets, and the write of the status
-- (operator/controllers/modeldeployment_lifecycle_controller.go and _transitions.go).
use inferops.Base.{List, Bool, true, false, Option, none, some, Str, codes, ℤ, pos}
use inferops.Kube.{condition_false}
use inferops.Conditions.Defs.{Times, Condition, remove_condition, set_condition}
use inferops.Api.Status.{
  Phase, ModelDeployment, runtime_ready, model_loaded, routing_ready, ready_condition,
}
use inferops.Lifecycle.Effective.{requeue_result}

-- `time.Time` further: `since now start` is `now.Sub(start)` in nanoseconds.
pub record Clock : Type 1 where
  pub times : Times
  pub since : times.Time → times.Time → ℤ
  pub before : times.Time → times.Time → Bool
  pub zero_time : times.Time

abbrev pub gpu_assigned : Str
gpu_assigned = codes "GPUAssigned"

-- `ctrl.Result`.
pub record Requeue : Type 0 where
  pub immediately : Bool
  pub after : ℤ

-- What becomes of a write of the status: `stored` also stands for a status that has not changed,
-- `failed` for an error of the write or of the queue metric behind it.
pub data PatchOutcome : Type 0 where
  stored conflict failed : PatchOutcome

-- What `patchDeploymentStatus` returns, without its events and metrics.
unfoldable pub patch_result : PatchOutcome → Phase → Option Requeue
patch_result stored phase = some (record { immediately = false; after = requeue_result phase })
patch_result conflict phase = some (record { immediately = true; after = pos 0 })
patch_result failed phase = none

module _ (clock : Clock) (now : clock.times.Time) where
  abbrev pub Deployment : Type 0
  Deployment = ModelDeployment clock.times.Time

  abbrev with_conditions : Deployment → List (Condition clock.times.Time) → Deployment
  with_conditions d conditions = record d { status = record d.status { conditions = conditions } }

  -- `setDeploymentCondition`, at a generation.
  unfoldable pub set_at : ℤ → Str → Str → Str → Str → Deployment → Deployment
  set_at generation type status reason message d = with_conditions d (
      (set_condition clock.times now d.status.conditions generation (record {
        type = type;
        status = status;
        observed_generation = pos 0;
        last_transition_time = clock.zero_time;
        reason = reason;
        message = message;
      })).0)

  unfoldable pub set_deployment_condition : Str → Str → Str → Str → Deployment → Deployment
  unfolding set_at
  set_deployment_condition type status reason message d =
      set_at d.generation type status reason message d

  -- `setReadyFalse`.
  unfoldable pub set_ready_false : Str → Str → Deployment → Deployment
  unfolding set_at
  set_ready_false reason message d =
      set_at d.status.observed_generation ready_condition condition_false reason message d

  unfoldable pub remove_deployment_condition : Str → Deployment → Deployment
  remove_deployment_condition type d = with_conditions d (remove_condition d.status.conditions type)

  -- The condition on the GPU, if the deployment asks for one.
  unfoldable pub set_gpu_assigned : Str → Str → Deployment → Deployment
  unfolding set_deployment_condition remove_deployment_condition
  set_gpu_assigned reason message d = elim d.spec.resources.gpu [
    | none ↦ remove_deployment_condition gpu_assigned d
    | some _ ↦ set_deployment_condition gpu_assigned condition_false reason message d
  ]

  abbrev pub route_disabled : Str
  route_disabled = codes "RouteDisabled"

  -- `setRuntimeWaitingConditions`.
  unfoldable pub set_runtime_waiting_conditions : Str → Str → Deployment → Deployment
  unfolding set_gpu_assigned set_ready_false
  set_runtime_waiting_conditions reason message d = set_ready_false reason message (
      set_deployment_condition routing_ready condition_false route_disabled message (
        set_deployment_condition model_loaded condition_false reason message (
          set_deployment_condition runtime_ready condition_false reason message
            (set_gpu_assigned reason message d))))

  -- `setDrainingConditions`.
  unfoldable pub set_draining_conditions : Deployment → Deployment
  unfolding set_deployment_condition
  set_draining_conditions d =
      let reason = codes "DrainStarted" in
      let message =
        codes
          "Gateway routing is disabled while in-flight requests receive their drain grace period" in
      set_deployment_condition ready_condition condition_false reason message
        (set_deployment_condition routing_ready condition_false reason message d)
