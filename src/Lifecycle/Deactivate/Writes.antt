-- ===== src/Lifecycle/Deactivate/Writes.antt =====
-- What the steps of a deactivation write (operator/controllers/modeldeployment_lifecycle_transitions.go).
use inferops.Base.{
  List, [], ◌≡◌, refl, ap, ◌∙◌, ◌&&◌, not, ◌==◌, str_eq, codes, inl, inr, Bool, true, false, none,
  Str, ℤ, pos, arith, Bool-cases, Option-cases, ok, >>=-eq-ok, fail_if,
}
use inferops.Kube.{ObjectRules, condition_false}
use inferops.Conditions.Defs.{Condition, remove_condition}
use inferops.Api.Status.{Phase, phase_cached, phase_draining, phase_deactivating}
use inferops.Lifecycle.Effective.{deployment_requeue_after, effective_drain_timeout}
use inferops.Lifecycle.Status.{
  Clock, gpu_assigned, Deployment, set_deployment_condition, set_ready_false, set_gpu_assigned,
  remove_deployment_condition, set_at, set_runtime_waiting_conditions, set_draining_conditions,
  patch_result,
}
use inferops.Lifecycle.Deactivate.{
  poll_after, was_serving, draining_from_now, Answers, Outcome, end_drain, await_termination,
  start_drain, release, release_with, cleared, finish_deactivation, begin_drain, poll_drain,
  delete_failed, touch_failed, written, timeout_or, patched,
}

module _ (clock : Clock) (objects : ObjectRules) (now : clock.times.Time) (answers : Answers) where
  -- What a write of the status stores.
  abbrev pub observed : Deployment clock now → Deployment clock now
  observed d = record d { status = record d.status { observed_generation = d.generation } }

  written-stores :
      (d : Deployment clock now) (after : ℤ) (deleted touched : Bool)
      (o : Outcome (Deployment clock now))
      → written clock objects now answers d after deleted touched ≡ ok o
      → o.deployment ≡ observed d
  unfolding written patched
  written-stores d after deleted touched o h =
      elim (Option-cases (patch_result answers.patch d.status.phase)) [
        | inl e ↦ absurd (ground (arith, h, e))
        | inr (r, e) ↦ ground (arith, h, e)
      ]

  -- A setter of conditions changes nothing else.
  abbrev ConditionsOf : Deployment clock now → Deployment clock now → Type 0
  ConditionsOf d changed =
      (cs : List (Condition clock.times.Time)) × (changed
        ≡ record d { status = record d.status { conditions = cs } })

  set_gpu_assigned-ConditionsOf :
      (reason message : Str) (d : Deployment clock now)
      → ConditionsOf d (set_gpu_assigned clock now reason message d)
  unfolding set_gpu_assigned set_deployment_condition remove_deployment_condition set_at
  set_gpu_assigned-ConditionsOf reason message d = elim (Option-cases d.spec.resources.gpu) [
    | inl e ↦ (remove_condition d.status.conditions gpu_assigned, ground (arith, e))
    | inr (gpu, e) ↦ (
      (set_deployment_condition clock now gpu_assigned condition_false reason message
          d).status.conditions,
      ground (arith, e),
    )
  ]

  -- A deployment that holds nothing of the cluster.
  abbrev pub IsReleased : Deployment clock now → Type 0
  IsReleased d =
      (d.status.phase ≡ phase_cached)
      × (d.status.assigned_node ≡ [])
      × (d.status.assigned_gpus ≡ [])
      × (d.status.drain_started_at ≡ none)
      × (d.status.replicas.desired ≡ pos 0)
      × (d.status.model.loaded ≡ false)

  release_with-IsReleased :
      (final_reason state_message runtime_message gpu_message : Str) (d : Deployment clock now)
      → IsReleased (
          observed (
            release_with clock objects now answers final_reason state_message runtime_message
              gpu_message d))
  unfolding release_with set_ready_false set_deployment_condition set_at cleared
  release_with-IsReleased final_reason state_message runtime_message gpu_message d =
      let (cs, e) =
        set_gpu_assigned-ConditionsOf final_reason gpu_message
          (cleared clock objects now answers d) in
      (
        ap (λ x. x.status.phase) e,
        ap (λ x. x.status.assigned_node) e,
        ap (λ x. x.status.assigned_gpus) e,
        ap (λ x. x.status.drain_started_at) e,
        ap (λ x. x.status.replicas.desired) e,
        ap (λ x. x.status.model.loaded) e,
      )

  pub release-IsReleased :
      (final_reason : Str) (d : Deployment clock now)
      → IsReleased (observed (release clock objects now answers final_reason d))
  unfolding release
  release-IsReleased final_reason d =
      elim (Bool-cases (final_reason == codes "ReplacedByWorkload")) [
        | inl e ↦ rw e (release_with-IsReleased final_reason _ _ _ d)
        | inr e ↦ rw e (release_with-IsReleased final_reason _ _ _ d)
      ]

  pub draining-phase :
      (d : Deployment clock now)
      → (set_draining_conditions clock now d).status.phase ≡ d.status.phase
  unfolding set_draining_conditions set_deployment_condition set_at
  draining-phase d = refl

  waiting-phase :
      (reason message : Str) (d : Deployment clock now)
      → (set_runtime_waiting_conditions clock now reason message d).status.phase ≡ d.status.phase
  unfolding set_runtime_waiting_conditions set_ready_false set_deployment_condition set_at
  waiting-phase reason message d =
      let (_, e) = set_gpu_assigned-ConditionsOf reason message d in ap (λ x. x.status.phase) e

  pub end_drain-phase :
      (d : Deployment clock now)
      → (end_drain clock objects now answers d).status.phase ≡ phase_deactivating
  unfolding end_drain
  end_drain-phase d = waiting-phase _ _ _

  -- The phase that a write of the status stores.
  pub written-phase :
      (d : Deployment clock now) (after : ℤ) (deleted touched : Bool)
      (o : Outcome (Deployment clock now)) (phase : Phase)
      → d.status.phase ≡ phase
      → written clock objects now answers d after deleted touched ≡ ok o
      → o.deployment.status.phase ≡ phase
  written-phase d after deleted touched o phase same h =
      ap (λ x. x.status.phase) (written-stores d after deleted touched o h) ∙ same

  pub await_termination-phase :
      (d : Deployment clock now) (o : Outcome (Deployment clock now))
      → d.status.phase ≡ phase_deactivating
      → await_termination clock objects now answers d ≡ ok o
      → o.deployment.status.phase ≡ phase_deactivating
  unfolding await_termination
  await_termination-phase d o same h =
      let waiting : Deployment clock now =
        set_runtime_waiting_conditions clock now (codes "DeactivationStarted")
          (codes "Runtime workload termination is still in progress") d in
      let (_, _, wrote) =
        >>=-eq-ok (fail_if (not answers.deletes) delete_failed)
          (λ _. written clock objects now answers waiting deployment_requeue_after true false) h in
      written-phase waiting deployment_requeue_after true false o phase_deactivating
        (waiting-phase _ _ d ∙ same) wrote

  pub start_drain-phase :
      (d : Deployment clock now) (o : Outcome (Deployment clock now))
      → start_drain clock objects now answers d ≡ ok o
      → o.deployment.status.phase ≡ phase_draining
  unfolding start_drain begin_drain poll_drain
  start_drain-phase d o h =
      let used = was_serving clock objects now answers d.status.phase in
      let draining : Deployment clock now = draining_from_now clock objects now answers d in
      let (_, _, began) =
        >>=-eq-ok (fail_if (used && not answers.touches) touch_failed)
          (λ _. begin_drain clock objects now answers d) h in
      let (_, _, polled) =
        >>=-eq-ok (patched (patch_result answers.patch phase_draining))
          (λ _. poll_drain clock objects now answers d) began in
      let (timeout, _, wrote) =
        >>=-eq-ok (timeout_or (effective_drain_timeout objects d.spec.activation.drain_timeout))
          (λ timeout.
            written clock objects now answers (set_draining_conditions clock now draining)
              (poll_after answers.drain timeout) false used)
          polled in
      written-phase (set_draining_conditions clock now draining) (poll_after answers.drain timeout)
        false used o phase_draining (draining-phase draining) wrote

  pub finish_deactivation-IsReleased :
      (final_reason : Str) (d : Deployment clock now) (o : Outcome (Deployment clock now))
      → finish_deactivation clock objects now answers final_reason d ≡ ok o
      → IsReleased o.deployment
  unfolding finish_deactivation
  finish_deactivation-IsReleased final_reason d o h =
      let (_, _, wrote) =
        >>=-eq-ok (fail_if (not answers.deletes) delete_failed)
          (λ _.
            written clock objects now answers (release clock objects now answers final_reason d)
              (pos 0) true false)
          h in
      rw
        (written-stores (release clock objects now answers final_reason d) (pos 0) true false o
          wrote)
        (release-IsReleased final_reason d)
