-- ===== src/Lifecycle/Deactivate/Progress.antt =====
-- A runtime that is given up comes to an end
-- (operator/controllers/modeldeployment_lifecycle_transitions.go).
use inferops.Base.{
  ◌≡◌, refl, fail_if, ◌&&◌, inl, inr, Bool, true, false, some, Str, ℤ, pos, ltb_ℤ, ◌-64◌, arith,
  Bool-cases, ok, if◌then◌else◌, Result,
}
use inferops.Kube.{ObjectRules}
use inferops.Api.Status.{
  Phase, phase_pending, phase_downloading, phase_cached, phase_waiting_for_capacity,
  phase_waiting_for_gpu, phase_activating, phase_active, phase_draining, phase_deactivating,
  phase_failed, other_phase,
}
use inferops.Lifecycle.Effective.{effective_drain_timeout, deployment_requeue_after}
use inferops.Lifecycle.Status.{Clock, Deployment, stored, patch_result, set_draining_conditions}
use inferops.Lifecycle.Deactivate.{
  Answers, Outcome, DeactivationError, drain_answered, delete_failed, touch_failed,
  gateway_drain_complete, drain_start, elapsed_since, remaining_grace, end_drain,
  reconcile_draining, await_termination, start_drain, begin_drain, poll_drain, finish_deactivation,
  release, reconcile_in, reconcile_deactivation, written, known, timeout_or, patched, poll_after,
  draining_from_now, was_serving,
}
use inferops.Lifecycle.Deactivate.Writes.{
  draining-phase, end_drain-phase, release-IsReleased, await_termination-phase,
}
use inferops.Lifecycle.Deactivate.Laws.{started}

-- All calls succeed, and the gateways report the drain as complete.
abbrev pub succeeding : Bool → Answers
succeeding exists = record {
  runtime_exists = some exists;
  deletes = true;
  drain = drain_answered true;
  touches = true;
  patch = stored;
}

-- The phase that follows, with or without a workload.
abbrev pub next_phase : Phase → Bool → Phase
next_phase phase_draining exists = phase_deactivating
next_phase phase_deactivating exists = if exists then phase_deactivating else phase_cached
next_phase _ exists = if exists then phase_draining else phase_cached

no_failure :
    (b : Bool) (e : DeactivationError) → fail_if {E = DeactivationError} (b && false) e ≡ ok tt
no_failure true e = refl
no_failure false e = refl

module _ (clock : Clock) (objects : ObjectRules) (now : clock.times.Time) (exists : Bool) where
  abbrev pub Progress : Result DeactivationError (Outcome (Deployment clock now)) → Phase → Type 0
  Progress r phase =
      (o : Outcome (Deployment clock now)) × (r ≡ ok o) × (o.deployment.status.phase ≡ phase)

  written-Progress :
      (d : Deployment clock now) (after : ℤ) (deleted touched : Bool) (phase : Phase)
      → d.status.phase ≡ phase
      → Progress (written clock objects now (succeeding exists) d after deleted touched) phase
  unfolding written patched patch_result
  written-Progress d after deleted touched phase same = (_, refl, same)

  no_grace :
      (timeout : ℤ) (start : clock.times.Time)
      → (remaining : ℤ) × (remaining_grace clock objects now (succeeding exists) timeout start
          ≡ ok remaining)
        × (ltb_ℤ (pos 0) remaining ≡ false)
  unfolding remaining_grace gateway_drain_complete
  no_grace timeout start =
      let left = timeout -64 elapsed_since clock objects now (succeeding exists) start in
      elim (Bool-cases (ltb_ℤ (pos 0) left)) [
        | inl e ↦ (pos 0, ground (arith, e), refl)
        | inr e ↦ (left, ground (arith, e), e)
      ]

  reconcile_draining-Progress :
      (d : Deployment clock now) (timeout : ℤ)
      → effective_drain_timeout objects d.spec.activation.drain_timeout ≡ ok timeout
      → Progress
          (reconcile_draining clock objects now (succeeding exists) exists d)
          phase_deactivating
  unfolding reconcile_draining timeout_or
  reconcile_draining-Progress d timeout limit =
      let same = succeeding exists in
      let (remaining, left, over) =
        no_grace timeout (drain_start clock objects now same d.status.drain_started_at) in
      let kept : Deployment clock now = started clock objects now same d in
      let (o, wrote, phase) =
        written-Progress (end_drain clock objects now same kept) deployment_requeue_after exists
          false phase_deactivating (end_drain-phase clock objects now same kept) in
      (o, rw (limit, no_failure exists delete_failed, left, over) wrote, phase)

  start_drain-Progress :
      (d : Deployment clock now) (timeout : ℤ)
      → effective_drain_timeout objects d.spec.activation.drain_timeout ≡ ok timeout
      → Progress (start_drain clock objects now (succeeding exists) d) phase_draining
  unfolding start_drain begin_drain poll_drain timeout_or patch_result patched
  start_drain-Progress d timeout limit =
      let same = succeeding exists in
      let draining : Deployment clock now = draining_from_now clock objects now same d in
      let (o, wrote, phase) =
        written-Progress (set_draining_conditions clock now draining)
          (poll_after same.drain timeout) false (was_serving clock objects now same d.status.phase)
          phase_draining (draining-phase clock objects now same draining) in
      (
        o,
        rw (limit, no_failure (was_serving clock objects now same d.status.phase) touch_failed)
            wrote,
        phase,
      )

  await_termination-Progress :
      (d : Deployment clock now)
      → d.status.phase ≡ phase_deactivating
      → Progress (await_termination clock objects now (succeeding exists) d) phase_deactivating
  unfolding await_termination written patched patch_result
  await_termination-Progress d same =
      (_, refl, await_termination-phase clock objects now (succeeding exists) d _ same refl)

  finish_deactivation-Progress :
      (final_reason : Str) (d : Deployment clock now)
      → Progress
          (finish_deactivation clock objects now (succeeding exists) final_reason d)
          phase_cached
  unfolding finish_deactivation
  finish_deactivation-Progress final_reason d =
      written-Progress (release clock objects now (succeeding exists) final_reason d) (pos 0) true
        false phase_cached
        (release-IsReleased clock objects now (succeeding exists) final_reason d).0

  either :
      {r other : Result DeactivationError (Outcome (Deployment clock now))} {p q : Phase} (b : Bool)
      → Progress r p
      → Progress other q
      → Progress (if b then r else other) (if b then p else q)
  either true first second = first
  either false first second = second

  -- A phase that is neither draining nor deactivating.
  idle-Progress :
      (final_reason : Str) (d : Deployment clock now) (timeout : ℤ)
      → effective_drain_timeout objects d.spec.activation.drain_timeout ≡ ok timeout
      → Progress
          (if exists
            then start_drain clock objects now (succeeding exists) d
            else finish_deactivation clock objects now (succeeding exists) final_reason d)
          (if exists then phase_draining else phase_cached)
  idle-Progress final_reason d timeout limit =
      either exists (start_drain-Progress d timeout limit)
        (finish_deactivation-Progress final_reason d)

  reconcile_in-Progress :
      (phase : Phase) (final_reason : Str) (d : Deployment clock now) (timeout : ℤ)
      → d.status.phase ≡ phase
      → effective_drain_timeout objects d.spec.activation.drain_timeout ≡ ok timeout
      → Progress
          (reconcile_in clock objects now (succeeding exists) phase final_reason exists d)
          (next_phase phase exists)
  unfolding reconcile_in
  reconcile_in-Progress phase_draining final_reason d timeout same limit =
      reconcile_draining-Progress d timeout limit
  reconcile_in-Progress phase_deactivating final_reason d timeout same limit =
      either exists (await_termination-Progress d same)
        (finish_deactivation-Progress final_reason d)
  reconcile_in-Progress phase_pending final_reason d timeout same limit =
      idle-Progress final_reason d timeout limit
  reconcile_in-Progress phase_downloading final_reason d timeout same limit =
      idle-Progress final_reason d timeout limit
  reconcile_in-Progress phase_cached final_reason d timeout same limit =
      idle-Progress final_reason d timeout limit
  reconcile_in-Progress phase_waiting_for_capacity final_reason d timeout same limit =
      idle-Progress final_reason d timeout limit
  reconcile_in-Progress phase_waiting_for_gpu final_reason d timeout same limit =
      idle-Progress final_reason d timeout limit
  reconcile_in-Progress phase_activating final_reason d timeout same limit =
      idle-Progress final_reason d timeout limit
  reconcile_in-Progress phase_active final_reason d timeout same limit =
      idle-Progress final_reason d timeout limit
  reconcile_in-Progress phase_failed final_reason d timeout same limit =
      idle-Progress final_reason d timeout limit
  reconcile_in-Progress (other_phase s) final_reason d timeout same limit =
      idle-Progress final_reason d timeout limit

  -- While all calls succeed, the gateways report the drain as complete and the drain timeout is
  -- valid, a reconciliation returns, and with it the phase goes on: a deployment with a workload is
  -- put to draining, from draining to deactivating, and stays there until the workload has gone;
  -- without a workload it is cached, except that draining is followed by deactivating first.
  pub reconcile_deactivation-progresses :
      (final_reason : Str) (d : Deployment clock now) (timeout : ℤ)
      → effective_drain_timeout objects d.spec.activation.drain_timeout ≡ ok timeout
      → Progress
          (reconcile_deactivation clock objects now (succeeding exists) final_reason d)
          (next_phase d.status.phase exists)
  unfolding reconcile_deactivation known
  reconcile_deactivation-progresses final_reason d timeout limit =
      reconcile_in-Progress d.status.phase final_reason d timeout refl limit
