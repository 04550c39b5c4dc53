-- ===== src/Lifecycle/Target.antt =====
-- The choice of the deployment that makes room
-- (operator/controllers/modeldeployment_lifecycle_transitions.go).
pub mod Laws
use inferops.Base.{
  List, [], ◌∷◌, Bool, true, false, not, ◌&&◌, ◌||◌, if◌then◌else◌, Option, none, some, Str, ◌==◌,
  str_eq, str_lt, is_empty, keep, sort_by, lex, ℤ, pos, ltb_ℤ, eqb_ℤ,
}
use inferops.Kube.{condition_true}
use inferops.Conditions.Defs.{find_condition, Condition}
use inferops.Api.Spec.{WhenFull, DesiredState, desired_active}
use inferops.Api.Status.{
  ReplacementStatus, ReplacementPhase, succeeded, is_active_phase, ready_condition, ModelDeployment,
}
use inferops.Lifecycle.Effective.{
  effective_desired_state, effective_when_full, is_lowest_priority, gpu_resource_name,
  effective_gpu_reservation,
}
use inferops.Lifecycle.Status.{Clock}

abbrev pub is_succeeded : ReplacementPhase → Bool
is_succeeded succeeded = true
is_succeeded _ = false

abbrev pub is_none {ℓ} : {A : Type ℓ} → Option A → Bool
is_none none = true
is_none (some _) = false

abbrev pub first_of {ℓ} : {A : Type ℓ} → List A → Option A
first_of [] = none
first_of (x ∷ _) = some x

abbrev pub is_desired : DesiredState → Bool
is_desired desired_active = true
is_desired _ = false

-- `replacementCandidateAvailable`.
unfoldable pub replacement_candidate_available : {T : Type 0} → Option (ReplacementStatus T) → Bool
replacement_candidate_available none = true
replacement_candidate_available (some r) =
    is_none r.requested_by && not (is_none r.target) && is_succeeded r.phase

module _ (clock : Clock) where
  open clock.times use {Time, is_zero, equal}

  abbrev pub Deployment : Type 0
  Deployment = ModelDeployment Time

  -- A time that is missing or zero.
  unfoldable pub unset : Option Time → Bool
  unset none = true
  unset (some t) = is_zero t

  -- `activeSince`.
  unfoldable pub active_since : Deployment → Time
  active_since d = elim (find_condition d.status.conditions ready_condition) [
    | none ↦ d.creation_timestamp
    | some ready ↦
        if ready.status == condition_true
          && not (ltb_ℤ ready.observed_generation d.generation)
          && not (is_zero ready.last_transition_time)
        then ready.last_transition_time
        else d.creation_timestamp
  ]

  abbrev pub has_gpu : Deployment → Bool
  has_gpu d = not (is_none d.spec.resources.gpu)

  -- The tests of the loop of `selectReplacementTarget`.
  unfoldable pub is_candidate : Deployment → Deployment → Bool
  unfolding unset
  is_candidate requester d =
      d.namespace == requester.namespace
      && not (d.name == requester.name)
      && unset d.deletion_timestamp
      && is_desired (effective_desired_state d)
      && not (ltb_ℤ d.status.observed_generation d.generation)
      && is_active_phase d.status.phase
      && not (is_empty d.status.assigned_node)
      && d.status.assigned_node == requester.status.cache.node_name
      && has_gpu d
      && gpu_resource_name d == gpu_resource_name requester
      && eqb_ℤ (effective_gpu_reservation d) (pos 1)
      && replacement_candidate_available d.status.replacement
      && not (
          is_lowest_priority (effective_when_full requester)
          && not (ltb_ℤ d.spec.activation.priority requester.spec.activation.priority))

  abbrev pub same_priority : Deployment → Deployment → Bool
  same_priority a b = eqb_ℤ a.spec.activation.priority b.spec.activation.priority

  abbrev pub less_priority : Deployment → Deployment → Bool
  less_priority a b = ltb_ℤ a.spec.activation.priority b.spec.activation.priority

  unfoldable pub same_age : Deployment → Deployment → Bool
  unfolding active_since
  same_age a b = equal (active_since a) (active_since b)

  unfoldable pub less_age : Deployment → Deployment → Bool
  unfolding active_since
  less_age a b = clock.before (active_since a) (active_since b)

  abbrev pub same_namespace : Deployment → Deployment → Bool
  same_namespace a b = a.namespace == b.namespace

  abbrev pub less_namespace : Deployment → Deployment → Bool
  less_namespace a b = str_lt a.namespace b.namespace

  abbrev pub less_name : Deployment → Deployment → Bool
  less_name a b = str_lt a.name b.name

  -- The comparison of `sort.Slice`.
  unfoldable pub older : Deployment → Deployment → Bool
  unfolding same_age less_age
  older = lex same_age less_age (lex same_namespace less_namespace less_name)

  unfoldable pub comes_first : WhenFull → Deployment → Deployment → Bool
  unfolding older
  comes_first policy =
      if is_lowest_priority policy then lex same_priority less_priority older else older

  -- `selectReplacementTarget`, from the listed deployments.
  unfoldable pub select_replacement_target : Deployment → List Deployment → Option Deployment
  unfolding is_candidate comes_first
  select_replacement_target requester items =
      first_of (
        sort_by (comes_first (effective_when_full requester)) (keep (is_candidate requester) items))
