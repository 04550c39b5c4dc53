-- ===== src/Scheduler/Nodes.antt =====
-- Which nodes may be used: readiness, selectors, taints and tolerations
-- (operator/internal/scheduler/planner.go and preflight.go).
use inferops.Base.{
  List, [], ◌∷◌, Bool, true, false, not, ◌&&◌, ◌||◌, if◌then◌else◌, Str, ◌==◌, is_empty, str_eq,
  lookup, or_zero, codes, Option, ℤ,
}
use inferops.Kube.{
  Node, NodeCondition, Taint, node_ready, condition_true, effect_no_schedule, effect_no_execute,
}

-- The loop of `IsNodeEligibleForCache`: the first condition of type Ready decides.
ready_condition : List NodeCondition → Bool
ready_condition [] = false
ready_condition (c ∷ cs) =
    if c.type == node_ready then c.status == condition_true else ready_condition cs

unfoldable pub is_node_eligible_for_cache : {Q : Type 0} → Node Q → Bool
unfolding ready_condition
is_node_eligible_for_cache node =
    if node.unschedulable then false else ready_condition node.conditions

unfoldable pub labels_match : List (Str × Str) → List (Str × Str) → Bool
unfolding lookup
labels_match labels [] = true
labels_match labels ((key, value) ∷ selector) =
    if not (or_zero [] (lookup key labels) == value) then false else labels_match labels selector

unfoldable pub node_matches_selector : {Q : Type 0} → Node Q → List (Str × Str) → Bool
unfolding labels_match
node_matches_selector node selector = labels_match node.labels selector

pub record Toleration : Type 0 where
  pub key : Str
  pub operator : Str
  pub value : Str
  pub effect : Str
  pub toleration_seconds : Option ℤ

abbrev pub toleration_exists : Str
toleration_exists = codes "Exists"

abbrev pub toleration_equal : Str
toleration_equal = codes "Equal"

abbrev pub effective_operator : Toleration → Str
effective_operator t = if is_empty t.operator then toleration_equal else t.operator

-- One round of the loop of `isTaintTolerated`: whether it returns true.
unfoldable pub tolerates : Taint → Toleration → Bool
tolerates taint t =
    if not (is_empty t.effect) && not (t.effect == taint.effect)
    then false
    else if effective_operator t == toleration_exists
    then is_empty t.key || t.key == taint.key
    else if effective_operator t == toleration_equal
    then t.key == taint.key && t.value == taint.value
    else false

unfoldable pub is_taint_tolerated : Taint → List Toleration → Bool
unfolding tolerates
is_taint_tolerated taint [] = false
is_taint_tolerated taint (t ∷ ts) = if tolerates taint t then true else is_taint_tolerated taint ts

abbrev pub keeps_pods_out : Taint → Bool
keeps_pods_out taint = taint.effect == effect_no_schedule || taint.effect == effect_no_execute

-- The loop of `hasUntoleratedSchedulingTaint`.
unfoldable pub untolerated_taint : List Taint → List Toleration → Bool
unfolding is_taint_tolerated
untolerated_taint [] ts = false
untolerated_taint (taint ∷ taints) ts =
    if not (keeps_pods_out taint)
    then untolerated_taint taints ts
    else if not (is_taint_tolerated taint ts)
    then true
    else untolerated_taint taints ts

unfoldable pub has_untolerated_scheduling_taint : {Q : Type 0} → Node Q → List Toleration → Bool
unfolding untolerated_taint
has_untolerated_scheduling_taint node ts = untolerated_taint node.taints ts
