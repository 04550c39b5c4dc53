-- ===== src/Lifecycle/Deactivate/Laws.antt =====
-- When a runtime is given up (operator/controllers/modeldeployment_lifecycle_transitions.go).
use inferops.Base.{
  ◌≡◌, ◌≢◌, refl, ◌∙◌, ◌&&◌, not, if◌then◌else◌, str_eq, ◌⊎◌, inl, inr, Bool, true, false, Option,
  none, some, Str, ℤ, pos, ◌≤ℤ◌, ◌<ℤ◌, ltb_ℤ, ◌-64◌, arith, Bool-cases, Result-cases, Result, ok,
  err, >>=-eq-ok,
}
use inferops.Kube.{ObjectRules}
use inferops.Api.Status.{
  Phase, phase_pending, phase_downloading, phase_waiting_for_capacity, phase_waiting_for_gpu,
  phase_activating, phase_active, phase_failed, other_phase, phase_cached, phase_draining,
  phase_deactivating,
}
use inferops.Lifecycle.Effective.{TimeoutError, deployment_requeue_after, effective_drain_timeout}
use inferops.Lifecycle.Status.{Clock, Deployment, set_draining_conditions}
use inferops.Lifecycle.Deactivate.{
  poll_after, Answers, Outcome, drain_answered, gateway_drain_complete, elapsed_since, drain_start,
  remaining_grace, end_drain, reconcile_draining, start_drain, finish_deactivation, reconcile_in,
  reconcile_deactivation, written, known, timeout_or,
}
use inferops.Lifecycle.Deactivate.Writes.{
  written-phase, draining-phase, end_drain-phase, await_termination-phase, start_drain-phase,
  finish_deactivation-IsReleased, IsReleased,
}

module _ (clock : Clock) (objects : ObjectRules) (now : clock.times.Time) (answers : Answers) where
  -- Whether the time or the gateways end a drain.
  abbrev pub IsOver : Deployment clock now → ℤ → Type 0
  IsOver d timeout =
      (answers.drain ≡ drain_answered true)
      ⊎ (timeout
            -64 elapsed_since clock objects now answers
                (drain_start clock objects now answers d.status.drain_started_at)
          ≤ℤ pos 0)

  -- A grace period that is not over leaves time.
  remaining_grace-IsOver :
      (d : Deployment clock now) (timeout remaining : ℤ)
      → remaining_grace clock objects now answers timeout
          (drain_start clock objects now answers d.status.drain_started_at)
        ≡ ok remaining
      → (pos 0 <ℤ remaining) ⊎ IsOver d timeout
  unfolding remaining_grace gateway_drain_complete
  remaining_grace-IsOver d timeout remaining h = ground (arith, h)

  -- What a deployment that is drained may become.
  abbrev pub EndsDrain : Deployment clock now → Type 0
  EndsDrain d =
      (timeout : ℤ) × (effective_drain_timeout objects d.spec.activation.drain_timeout ≡ ok timeout)
      × IsOver d timeout

  -- What one reconciliation makes of a deployment.
  abbrev pub IsStep : Deployment clock now → Deployment clock now → Type 0
  IsStep d next =
      (next.status.phase ≡ phase_draining)
      ⊎ ((next.status.phase ≡ phase_deactivating) × (d.status.phase ≡ phase_draining) × EndsDrain d)
      ⊎ ((next.status.phase ≡ phase_deactivating)
          × (d.status.phase ≡ phase_deactivating)
          × (answers.runtime_exists ≡ some true))
      ⊎ (IsReleased clock objects now answers next
          × (d.status.phase ≢ phase_draining)
          × (answers.runtime_exists ≡ some false))

  timeout_or-ok :
      (r : Result TimeoutError ℤ) (timeout : ℤ) → timeout_or r ≡ ok timeout → r ≡ ok timeout
  unfolding timeout_or
  timeout_or-ok (ok x) timeout h = ground (arith, h)
  timeout_or-ok (err e) timeout h = absurd (ground (arith, h))

  abbrev pub started : Deployment clock now → Deployment clock now
  started d = record d {
    status = record d.status {
      drain_started_at = some (drain_start clock objects now answers d.status.drain_started_at);
    };
  }

  end_or_continue :
      (exists : Bool) (d : Deployment clock now) (timeout remaining : ℤ)
      (o : Outcome (Deployment clock now))
      → d.status.phase ≡ phase_draining
      → effective_drain_timeout objects d.spec.activation.drain_timeout ≡ ok timeout
      → remaining_grace clock objects now answers timeout
          (drain_start clock objects now answers d.status.drain_started_at)
        ≡ ok remaining
      → (if ltb_ℤ (pos 0) remaining
          then written clock objects now answers
              (set_draining_conditions clock now (started d))
              (poll_after answers.drain remaining)
              exists
              false
          else written clock objects now answers
              (end_drain clock objects now answers (started d))
              deployment_requeue_after
              exists
              false)
        ≡ ok o
      → IsStep d o.deployment
  end_or_continue exists d timeout remaining o same limit left h =
      elim (Bool-cases (ltb_ℤ (pos 0) remaining)) [
        | inl e ↦ inl (
            written-phase clock objects now answers _ _ _ _ o phase_draining
              (draining-phase clock objects now answers (started d) ∙ same) (rw e at h))
        | inr e ↦ inr (
            inl (
              written-phase clock objects now answers _ _ _ _ o phase_deactivating
                  (end_drain-phase clock objects now answers (started d)) (rw e at h),
              same,
              (
                timeout,
                limit,
                elim (remaining_grace-IsOver d timeout remaining left) [
                  | inl more ↦ absurd (ground (arith, e, more))
                  | inr over ↦ over
                ],
              ),
            ))
      ]

  reconcile_draining-steps :
      (exists : Bool) (d : Deployment clock now) (o : Outcome (Deployment clock now))
      → d.status.phase ≡ phase_draining
      → reconcile_draining clock objects now answers exists d ≡ ok o
      → IsStep d o.deployment
  unfolding reconcile_draining
  reconcile_draining-steps exists d o same h =
      elim (Result-cases
        (timeout_or (effective_drain_timeout objects d.spec.activation.drain_timeout))) [
          | inr (x, e) ↦ absurd (ground (arith, e, h))
          | inl (timeout, e) ↦ elim (Bool-cases (exists && not answers.deletes)) [
            | inl f ↦ absurd (ground (arith, e, f, h))
            | inr f ↦
                elim (Result-cases (
                  remaining_grace clock objects now answers timeout
                    (drain_start clock objects now answers d.status.drain_started_at))) [
                      | inr (x, g) ↦ absurd (ground (arith, e, f, g, h))
                      | inl (remaining, g) ↦
                          end_or_continue exists d timeout remaining o same
                            (timeout_or-ok _ timeout e) g (ground (arith, e, f, g, h))
                    ]
          ]
        ]

  -- A phase that is neither draining nor deactivating.
  idle-steps :
      (final_reason : Str) (exists : Bool) (d : Deployment clock now)
      (o : Outcome (Deployment clock now))
      → answers.runtime_exists ≡ some exists
      → d.status.phase ≢ phase_draining
      → (if exists
          then start_drain clock objects now answers d
          else finish_deactivation clock objects now answers final_reason d)
        ≡ ok o
      → IsStep d o.deployment
  idle-steps final_reason true d o found other h =
      inl (start_drain-phase clock objects now answers d o h)
  idle-steps final_reason false d o found other h = inr (
      inr (
        inr (
          finish_deactivation-IsReleased clock objects now answers final_reason d o h,
          other,
          found,
        )))

  reconcile_in-steps :
      (phase : Phase) (final_reason : Str) (exists : Bool) (d : Deployment clock now)
      (o : Outcome (Deployment clock now))
      → d.status.phase ≡ phase
      → answers.runtime_exists ≡ some exists
      → reconcile_in clock objects now answers phase final_reason exists d ≡ ok o
      → IsStep d o.deployment
  unfolding reconcile_in
  reconcile_in-steps phase_draining final_reason exists d o same found h =
      reconcile_draining-steps exists d o same h
  reconcile_in-steps phase_deactivating final_reason true d o same found h =
      inr (inr (inl (await_termination-phase clock objects now answers d o same h, same, found)))
  reconcile_in-steps phase_deactivating final_reason false d o same found h =
      idle-steps final_reason false d o found (λ e. ground (arith, same, e)) h
  reconcile_in-steps phase_pending final_reason exists d o same found h =
      idle-steps final_reason exists d o found (λ e. ground (arith, same, e)) h
  reconcile_in-steps phase_downloading final_reason exists d o same found h =
      idle-steps final_reason exists d o found (λ e. ground (arith, same, e)) h
  reconcile_in-steps phase_cached final_reason exists d o same found h =
      idle-steps final_reason exists d o found (λ e. ground (arith, same, e)) h
  reconcile_in-steps phase_waiting_for_capacity final_reason exists d o same found h =
      idle-steps final_reason exists d o found (λ e. ground (arith, same, e)) h
  reconcile_in-steps phase_waiting_for_gpu final_reason exists d o same found h =
      idle-steps final_reason exists d o found (λ e. ground (arith, same, e)) h
  reconcile_in-steps phase_activating final_reason exists d o same found h =
      idle-steps final_reason exists d o found (λ e. ground (arith, same, e)) h
  reconcile_in-steps phase_active final_reason exists d o same found h =
      idle-steps final_reason exists d o found (λ e. ground (arith, same, e)) h
  reconcile_in-steps phase_failed final_reason exists d o same found h =
      idle-steps final_reason exists d o found (λ e. ground (arith, same, e)) h
  reconcile_in-steps (other_phase s) final_reason exists d o same found h =
      idle-steps final_reason exists d o found (λ e. ground (arith, same, e)) h

  known-ok : (r : Option Bool) (exists : Bool) → known r ≡ ok exists → r ≡ some exists
  unfolding known
  known-ok none exists h = absurd (ground (arith, h))
  known-ok (some b) exists h = ground (arith, h)

  -- After a reconciliation that succeeds, the status that it hands to the API server is draining; or
  -- it is deactivating, from draining only once the grace period has passed or the gateways say that
  -- the drain is complete, and otherwise from deactivating while the workload exists; or it is
  -- cached, without a node, GPUs, replicas, a drain or a loaded model, which happens only when the
  -- workload does not exist and never from draining.
  pub reconcile_deactivation-IsStep :
      (final_reason : Str) (d : Deployment clock now) (o : Outcome (Deployment clock now))
      → reconcile_deactivation clock objects now answers final_reason d ≡ ok o
      → IsStep d o.deployment
  unfolding reconcile_deactivation known
  reconcile_deactivation-IsStep final_reason d o h =
      let (exists, found, step) =
        >>=-eq-ok (known answers.runtime_exists)
          (λ exists. reconcile_in clock objects now answers d.status.phase final_reason exists d)
          h in
      reconcile_in-steps d.status.phase final_reason exists d o refl (known-ok _ exists found) step
