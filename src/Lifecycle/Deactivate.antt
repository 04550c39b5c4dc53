-- ===== src/Lifecycle/Deactivate.antt =====
-- `reconcileDeactivation` (operator/controllers/modeldeployment_lifecycle_transitions.go): one
-- reconciliation of a deployment that gives its runtime up. What the API server and the gateways
-- answer is an argument; the result is the status that is written, and the calls that were made.
pub mod Writes
pub mod Laws
pub mod Progress
use inferops.Base.{
  ℕ, List, [], ◌∷◌, Bool, true, false, not, ◌&&◌, ◌||◌, if◌then◌else◌, Option, none, some, Str,
  ◌==◌, str_eq, codes, ℤ, pos, ltb_ℤ, ◌-64◌, Result, ok, err, ◌>>=◌, ◌>>◌, fail_if, is_empty,
}
use inferops.Kube.{ObjectRules, condition_false}
use inferops.Api.Status.{
  Phase, phase_cached, phase_activating, phase_active, phase_draining, phase_deactivating,
  ModelDeployment, runtime_ready, model_loaded, routing_ready,
}
use inferops.Lifecycle.Effective.{
  TimeoutError, seconds, deployment_requeue_after, effective_drain_timeout,
}
use inferops.Lifecycle.Status.{
  Clock, Requeue, PatchOutcome, patch_result, Deployment, set_deployment_condition, set_ready_false,
  set_gpu_assigned, set_runtime_waiting_conditions, set_draining_conditions, route_disabled,
}

abbrev pub drain_poll_interval : ℤ
drain_poll_interval = seconds 2

-- What `gatewayDrainComplete` meets: no checker, an error, or an answer.
pub data DrainAnswer : Type 0 where
  no_checker check_failed : DrainAnswer
  drain_answered : Bool → DrainAnswer

pub data DeactivationError : Type 0 where
  workload_unknown delete_failed drain_unknown touch_failed patch_failed : DeactivationError
  bad_timeout : TimeoutError → DeactivationError

-- What the calls of one reconciliation return: whether the runtime workload exists (`none`: an
-- error), and whether its deletion and the write of the cache's last use succeed.
pub record Answers : Type 0 where
  pub runtime_exists : Option Bool
  pub deletes : Bool
  pub drain : DrainAnswer
  pub touches : Bool
  pub patch : PatchOutcome

-- What has been done: the deployment with its new status, when to come again, and whether the
-- workload was deleted and the last use of the cache written.
pub record Outcome (D : Type 0) : Type 0 where
  pub deployment : D
  pub requeue : Requeue
  pub deleted : Bool
  pub touched : Bool

has_checker : DrainAnswer → Bool
has_checker no_checker = false
has_checker _ = true

-- `gatewayDrainComplete`.
unfoldable pub gateway_drain_complete : DrainAnswer → Result DeactivationError Bool
gateway_drain_complete no_checker = ok false
gateway_drain_complete check_failed = err drain_unknown
gateway_drain_complete (drain_answered complete) = ok complete

unfoldable pub timeout_or : Result TimeoutError ℤ → Result DeactivationError ℤ
timeout_or (ok timeout) = ok timeout
timeout_or (err e) = err (bad_timeout e)

unfoldable pub known : Option Bool → Result DeactivationError Bool
known none = err workload_unknown
known (some exists) = ok exists

unfoldable pub patched : Option Requeue → Result DeactivationError Requeue
patched none = err patch_failed
patched (some requeue) = ok requeue

-- Polls at most this often while there is a checker.
unfoldable pub poll_after : DrainAnswer → ℤ → ℤ
unfolding has_checker
poll_after answer remaining =
    if has_checker answer && ltb_ℤ drain_poll_interval remaining
    then drain_poll_interval
    else remaining

module _ (clock : Clock) (objects : ObjectRules) (now : clock.times.Time) (answers : Answers) where
  abbrev with_phase : Phase → Deployment clock now → Deployment clock now
  with_phase phase d = record d { status = record d.status { phase = phase } }

  -- A write of the status that comes again after a given time.
  unfoldable pub written :
      Deployment clock now
      → ℤ
      → Bool
      → Bool
      → Result DeactivationError (Outcome (Deployment clock now))
  unfolding patched
  written d after deleted touched = do
    requeue ← patched (patch_result answers.patch d.status.phase)
    ok (record {
      deployment = record d { status = record d.status { observed_generation = d.generation } };
      requeue = record requeue { after = after };
      deleted = deleted;
      touched = touched;
    })

  -- The time since the drain began, from 0 on.
  unfoldable pub elapsed_since : clock.times.Time → ℤ
  elapsed_since started =
      let elapsed = clock.since now started in if ltb_ℤ elapsed (pos 0) then pos 0 else elapsed

  abbrev pub drain_start : Option clock.times.Time → clock.times.Time
  drain_start none = now
  drain_start (some started) = started

  -- What is left of the grace period: nothing once the gateways say that the drain is complete.
  unfoldable pub remaining_grace : ℤ → clock.times.Time → Result DeactivationError ℤ
  unfolding elapsed_since
  remaining_grace timeout started =
      let remaining = timeout -64 elapsed_since started in
      if ltb_ℤ (pos 0) remaining
      then (do
        complete ← gateway_drain_complete answers.drain
        ok (if complete then pos 0 else remaining))
      else ok remaining

  abbrev waiting_text : Str
  waiting_text = codes "Drain grace period ended; the runtime workload is terminating"

  -- The end of the grace period.
  unfoldable pub end_drain : Deployment clock now → Deployment clock now
  unfolding set_runtime_waiting_conditions
  end_drain d =
      set_runtime_waiting_conditions clock now (codes "DeactivationStarted") waiting_text
        (record d {
          status = record d.status {
            phase = phase_deactivating;
            model = record d.status.model { loaded = false };
          };
        })

  -- The case `Draining`.
  unfoldable pub reconcile_draining :
      Bool → Deployment clock now → Result DeactivationError (Outcome (Deployment clock now))
  unfolding timeout_or written set_draining_conditions
  reconcile_draining exists d =
      let started = drain_start d.status.drain_started_at in
      let kept : Deployment clock now = record d {
        status = record d.status { drain_started_at = some started };
      } in
      do
        timeout ← timeout_or (effective_drain_timeout objects d.spec.activation.drain_timeout)
        fail_if (exists && not answers.deletes) delete_failed
        remaining ← remaining_grace timeout started
        (if ltb_ℤ (pos 0) remaining
            then written (set_draining_conditions clock now kept)
                (poll_after answers.drain remaining) exists false
            else written (end_drain kept) deployment_requeue_after exists false)

  -- The case `Deactivating`, while the workload exists.
  unfoldable pub await_termination :
      Deployment clock now → Result DeactivationError (Outcome (Deployment clock now))
  unfolding written set_runtime_waiting_conditions
  await_termination d = fail_if (not answers.deletes) delete_failed >>= λ _.
      written
        (set_runtime_waiting_conditions clock now (codes "DeactivationStarted")
          (codes "Runtime workload termination is still in progress") d)
        deployment_requeue_after true false

  abbrev pub was_serving : Phase → Bool
  was_serving phase_active = true
  was_serving phase_activating = true
  was_serving _ = false

  abbrev pub draining_from_now : Deployment clock now → Deployment clock now
  draining_from_now d = record d {
    status = record d.status { phase = phase_draining; drain_started_at = some now };
  }

  -- The start of a drain. The phase is still the one that was read.
  unfoldable pub poll_drain :
      Deployment clock now → Result DeactivationError (Outcome (Deployment clock now))
  unfolding written timeout_or set_draining_conditions
  poll_drain d =
      timeout_or (effective_drain_timeout objects d.spec.activation.drain_timeout) >>= λ timeout.
      written (set_draining_conditions clock now (draining_from_now d))
        (poll_after answers.drain timeout) false (was_serving d.status.phase)

  unfoldable pub begin_drain :
      Deployment clock now → Result DeactivationError (Outcome (Deployment clock now))
  unfolding poll_drain
  begin_drain d = patched (patch_result answers.patch phase_draining) >>= λ _. poll_drain d

  unfoldable pub start_drain :
      Deployment clock now → Result DeactivationError (Outcome (Deployment clock now))
  unfolding begin_drain
  start_drain d = fail_if (was_serving d.status.phase && not answers.touches) touch_failed >>= λ _.
      begin_drain d

  -- Everything that the runtime held is reset.
  unfoldable pub cleared : Deployment clock now → Deployment clock now
  cleared d = record d {
    status = record d.status {
      drain_started_at = none;
      phase = phase_cached;
      assigned_node = [];
      assigned_gpus = [];
      replicas = record { desired = pos 0; ready = pos 0 };
      scaling = record {
        desired_replicas = pos 0;
        pending_requests = pos 0;
        running_requests = pos 0;
        last_activity_time = none;
        capacity_limited = false;
        reason = [];
        message = [];
      };
      model = record d.status.model { loaded = false };
    };
  }

  -- The status of a deployment that has given its runtime up.
  unfoldable pub release_with : Str → Str → Str → Str → Deployment clock now → Deployment clock now
  unfolding set_ready_false
  release_with final_reason state_message runtime_message gpu_message d =
      set_ready_false clock now final_reason state_message (
        set_deployment_condition clock now routing_ready condition_false (route_disabled clock now)
          (codes "Gateway routing remains disabled while inactive")
          (set_deployment_condition clock now model_loaded condition_false final_reason
            state_message
            (set_deployment_condition clock now runtime_ready condition_false final_reason
              runtime_message (set_gpu_assigned clock now final_reason gpu_message (cleared d)))))

  unfoldable pub release : Str → Deployment clock now → Deployment clock now
  unfolding release_with
  release final_reason d =
      if final_reason == codes "ReplacedByWorkload"
      then release_with final_reason
          (codes "Model is cached while the replacement transaction owns the GPU slot")
          (codes "Runtime was removed for an explicitly requested replacement")
          (codes "Displaced deployment does not reserve GPU capacity") d
      else release_with final_reason (codes "Model is cached and inactive")
          (codes "Runtime is not created while the deployment is inactive")
          (codes "Inactive deployment does not reserve GPU capacity") d

  -- Behind the switch, without a workload. The requeue is that of the phase.
  unfoldable pub finish_deactivation :
      Str → Deployment clock now → Result DeactivationError (Outcome (Deployment clock now))
  unfolding written
  finish_deactivation final_reason d = fail_if (not answers.deletes) delete_failed >>= λ _.
      written (release final_reason d) (pos 0) true false

  unfoldable pub reconcile_in :
      Phase
      → Str
      → Bool
      → Deployment clock now
      → Result DeactivationError (Outcome (Deployment clock now))
  unfolding finish_deactivation
  reconcile_in phase_draining _ exists d = reconcile_draining exists d
  reconcile_in phase_deactivating final_reason exists d =
      if exists then await_termination d else finish_deactivation final_reason d
  reconcile_in _ final_reason exists d =
      if exists then start_drain d else finish_deactivation final_reason d

  -- `reconcileDeactivation`.
  unfoldable pub reconcile_deactivation :
      Str → Deployment clock now → Result DeactivationError (Outcome (Deployment clock now))
  unfolding known
  reconcile_deactivation final_reason d =
      known answers.runtime_exists >>= λ exists. reconcile_in d.status.phase final_reason exists d
