-- ===== src/Tests/Lifecycle.antt =====
-- Runs of the lifecycle's functions.
use inferops.Lifecycle.Effective.{
  effective_drain_timeout, default_drain_timeout, requeue_result, effective_when_full,
}
use inferops.Lifecycle.Target.{replacement_candidate_available}
use inferops.Base.{◌*64◌}
use inferops.Lifecycle.Effective.{gpu_resource_name}
use inferops.Lifecycle.Effective.{effective_desired_state}
use inferops.Lifecycle.Deactivate.{
  cleared, known, reconcile_in, reconcile_draining, written, patched, timeout_or, remaining_grace,
  end_drain, gateway_drain_complete, elapsed_since, finish_deactivation, release, release_with,
}
use inferops.Lifecycle.Deactivate.{release}
use inferops.Lifecycle.Deactivate.{end_drain}
use inferops.Lifecycle.Status.{patch_result}
use inferops.Lifecycle.Deactivate.{gateway_drain_complete}
use inferops.Base.{◌-64◌}
use inferops.Lifecycle.Deactivate.{remaining_grace}
use inferops.Lifecycle.Effective.{effective_drain_timeout}
use inferops.Lifecycle.Deactivate.{reconcile_draining}
use inferops.Lifecycle.Deactivate.{reconcile_in}
use inferops.Base.{
  ℕ, List, [], ◌∷◌, ◌≡◌, refl, inl, pos, ◌≤ℤ◌, ◌*ℤ◌, ◌+ℤ◌, true, false, ltb, nat_beq, some, In,
  Result, ok, err, codes, arith,
}
use inferops.Api.Spec.{GpuResourceRequest}
use inferops.Api.Status.{phase_draining, phase_deactivating, phase_cached, ModelDeployment}
use inferops.Lifecycle.Effective.{
  effective_max_replicas, effective_runtime_replicas, effective_gpu_reservation,
}
use inferops.Lifecycle.Rollout.{effective_rollout_strategy, rollout_surge_gpu_reservation}
use inferops.Lifecycle.Status.{
  Clock, stored, set_at, set_deployment_condition, set_ready_false, set_gpu_assigned,
  set_runtime_waiting_conditions, patch_result,
}
use inferops.Lifecycle.Deactivate.{
  known, Answers, Outcome, DeactivationError, drain_answered, reconcile_deactivation,
}
use inferops.Lifecycle.Deactivate.Progress.{reconcile_deactivation-progresses, succeeding}
use inferops.Lifecycle.Deactivate.Laws.{reconcile_deactivation-IsStep, IsStep}
use inferops.Lifecycle.Target.{select_replacement_target, is_candidate}
use inferops.Lifecycle.Target.Laws.{
  ClockOrder, IsEligible, IsAhead, select_replacement_target-IsAhead,
}
use inferops.Lifecycle.Replicas.{extra_replicas, reservation-IsExact}
use inferops.Tests.Objects.{deployment, object_rules}

nat_beq_refl : (t : ℕ) → nat_beq t t ≡ true
nat_beq_refl t = ground arith

abbrev clock : Clock
clock = record {
  times = record {
    Time = ℕ;
    is_zero = λ t. nat_beq t 0;
    equal = nat_beq;
    equal_refl = nat_beq_refl;
  };
  since = λ now start. pos now;
  before = ltb;
  zero_time = 0;
}

order : ClockOrder clock
order = record {
  before_asym = λ a b h. ground (arith, h);
  before_neg_trans = λ a b c h k. ground (arith, h, k);
  equal_tie = λ a b. ground arith;
}

abbrev one_gpu : GpuResourceRequest
one_gpu = record { count = pos 1; vendor = []; type = [] }

reservation-IsExact_example :
    (pos 1 ≤ℤ effective_runtime_replicas deployment)
    × (effective_runtime_replicas deployment ≤ℤ effective_max_replicas deployment)
    × (effective_gpu_reservation deployment ≡ pos 1 *ℤ effective_runtime_replicas deployment)
    × (effective_gpu_reservation deployment ≤ℤ rollout_surge_gpu_reservation deployment)
    × (rollout_surge_gpu_reservation deployment
        ≡ pos 1
          *ℤ (effective_runtime_replicas deployment
              +ℤ extra_replicas
                  (effective_rollout_strategy deployment)
                  (effective_runtime_replicas deployment)))
reservation-IsExact_example =
    reservation-IsExact deployment one_gpu refl (ground arith, ground arith) (ground arith)

-- All calls succeed; the gateways report the drain as complete.
abbrev answers : Answers
answers = record {
  runtime_exists = some true;
  deletes = true;
  drain = drain_answered true;
  touches = true;
  patch = stored;
}

abbrev gone : Answers
gone = record answers { runtime_exists = some false }

abbrev reason : List ℕ
reason = codes "Inactive"

abbrev draining : ModelDeployment ℕ
draining = record deployment {
  status = record deployment.status { phase = phase_draining; drain_started_at = some 5 };
}

abbrev no_outcome : Outcome (ModelDeployment ℕ)
no_outcome = record {
  deployment = deployment;
  requeue = record { immediately = false; after = pos 0 };
  deleted = false;
  touched = false;
}

abbrev outcome_of :
    Result DeactivationError (Outcome (ModelDeployment ℕ)) → Outcome (ModelDeployment ℕ)
outcome_of (ok o) = o
outcome_of (err _) = no_outcome

abbrev drained : Outcome (ModelDeployment ℕ)
drained = outcome_of (reconcile_deactivation clock object_rules 9 answers reason draining)

drains : reconcile_deactivation clock object_rules 9 answers reason draining ≡ ok drained
unfolding reconcile_deactivation known reconcile_in reconcile_draining written patched timeout_or
    remaining_grace end_drain gateway_drain_complete elapsed_since set_at set_deployment_condition
    set_ready_false set_gpu_assigned set_runtime_waiting_conditions patch_result
    effective_drain_timeout requeue_result ◌-64◌
drains = refl

drained_phase : drained.deployment.status.phase ≡ phase_deactivating
unfolding reconcile_deactivation known reconcile_in reconcile_draining written patched timeout_or
    remaining_grace end_drain gateway_drain_complete elapsed_since set_at set_deployment_condition
    set_ready_false set_gpu_assigned set_runtime_waiting_conditions patch_result
    effective_drain_timeout requeue_result ◌-64◌
drained_phase = refl

abbrev released : ModelDeployment ℕ
released =
    (outcome_of
      (reconcile_deactivation clock object_rules 9 gone reason drained.deployment)).deployment

released_phase : released.status.phase ≡ phase_cached
unfolding reconcile_deactivation known reconcile_in reconcile_draining written patched timeout_or
    remaining_grace end_drain gateway_drain_complete elapsed_since set_at set_deployment_condition
    set_ready_false set_gpu_assigned set_runtime_waiting_conditions patch_result
    effective_drain_timeout requeue_result ◌-64◌ release cleared release_with finish_deactivation
released_phase = refl

reconcile_deactivation-IsStep_example :
    IsStep clock object_rules 9 answers draining drained.deployment
reconcile_deactivation-IsStep_example =
    reconcile_deactivation-IsStep clock object_rules 9 answers reason draining drained drains

abbrev requester : ModelDeployment ℕ
requester = record deployment { name = codes "other" }

is_one : is_candidate clock requester deployment ≡ true
unfolding is_candidate effective_desired_state gpu_resource_name effective_gpu_reservation ◌*64◌
    replacement_candidate_available effective_when_full
is_one = refl

select_replacement_target-IsAhead_example :
    (target : ModelDeployment ℕ) × (select_replacement_target clock requester (deployment ∷ [])
      ≡ some target)
    × In target (deployment ∷ [])
    × IsEligible clock order requester target
    × IsAhead clock order requester target deployment
select_replacement_target-IsAhead_example =
    select_replacement_target-IsAhead clock order requester deployment (deployment ∷ []) (inl refl)
      is_one

five_minutes : effective_drain_timeout object_rules [] ≡ ok default_drain_timeout
unfolding effective_drain_timeout
five_minutes = refl

reconcile_deactivation-progresses_example :
    (o : Outcome (ModelDeployment ℕ)) × (reconcile_deactivation clock object_rules 9
        (succeeding true)
        reason
        deployment
      ≡ ok o)
    × (o.deployment.status.phase ≡ phase_draining)
reconcile_deactivation-progresses_example =
    reconcile_deactivation-progresses clock object_rules 9 true reason deployment
      default_drain_timeout five_minutes
