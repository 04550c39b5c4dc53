-- ===== src/Scheduler/Preflight/Laws.antt =====
-- When a node passes the preflight checks (operator/internal/scheduler/preflight.go).
use inferops.Base.{
  List, [], ◌∷◌, ◌≡◌, ◌≢◌, refl, ◌⊎◌, ◌↔◌, inl, inr, true, false, some, Str, str_eq, is_empty,
  codes, lookup, or_zero, ℤ, pos, ◌≤ℤ◌, arith, Result, ok, err, ◌>>◌, fail_if, Option-cases,
}
use inferops.Kube.{Quantities, Node, Taint}
use inferops.Scheduler.Nodes.{
  Toleration, labels_match, node_matches_selector, untolerated_taint,
  has_untolerated_scheduling_taint,
}
use inferops.Scheduler.Preflight.{
  RuntimeSpec, PreflightError, node_required, runtime_replica_count, check_labels, check_taints,
  check_resource, validate_runtime_node,
}

check_labels_iff :
    (labels selector : List (Str × Str))
    → (check_labels labels selector ≡ ok tt) ↔ (labels_match labels selector ≡ true)
unfolding check_labels labels_match
check_labels_iff labels [] = ground arith
check_labels_iff labels ((key, value) ∷ selector) = ground (arith, check_labels_iff labels selector)

check_taints_iff :
    (taints : List Taint) (tolerations : List Toleration)
    → (check_taints taints tolerations ≡ ok tt) ↔ (untolerated_taint taints tolerations ≡ false)
unfolding check_taints untolerated_taint
check_taints_iff [] tolerations = ground arith
check_taints_iff (taint ∷ taints) tolerations = ground (arith, check_taints_iff taints tolerations)

seq_iff : (m k : Result PreflightError (Unit {0})) → (m >> k ≡ ok tt) ↔ ((m ≡ ok tt) × (k ≡ ok tt))
seq_iff (ok tt) k = ground arith
seq_iff (err e) k = ground arith

named : (name : Str) → fail_if (is_empty name) node_required ≡ ok tt → name ≢ []
named [] h = cc
named (c ∷ name) h = λ e. cc

named_back : (name : Str) → name ≢ [] → fail_if (is_empty name) node_required ≡ ok tt
named_back [] n = absurd (n refl)
named_back (c ∷ name) n = refl

module _ (q : Quantities) where
  open q use {Quantity, parse, mul, cmp_lt, zero_quantity}

  -- The request, for all replicas, is not more than what the node has in total.
  abbrev pub Affords : ℤ → List (Str × Quantity) → Str → Str → Type 0
  Affords replicas allocatable name value =
      (value ≡ [])
      ⊎ ((one : Quantity) × (all : Quantity) × (parse value ≡ some one)
          × (mul one replicas ≡ some all)
          × (cmp_lt (or_zero zero_quantity (lookup name allocatable)) all ≡ false))

  check_resource_iff :
      (replicas : ℤ) (allocatable : List (Str × Quantity)) (name value : Str)
      → (check_resource q replicas allocatable name value ≡ ok tt)
        ↔ Affords replicas allocatable name value
  unfolding check_resource
  check_resource_iff replicas allocatable name [] = ground arith
  check_resource_iff replicas allocatable name (c ∷ value) =
      elim (Option-cases (parse (c ∷ value))) [
        | inl e ↦ ground (arith, e)
        | inr (one, e) ↦ elim (Option-cases (mul one replicas)) [
          | inl f ↦ ground (arith, e, f)
          | inr (all, f) ↦
              (λ h. inr (one, all, e, f, ground (arith, e, f)), λ a. ground (arith, e, f))
        ]
      ]

  -- A node passes exactly when it has a name, the selector of the planner matches it, no taint of it
  -- is left untolerated, and it affords the CPU and the memory of all replicas.
  pub validate_runtime_node_iff :
      (deployment : RuntimeSpec) (node : Node Quantity)
      → (validate_runtime_node q (some deployment) (some node) ≡ ok tt) ↔ (
          (node.name ≢ [])
          × (node_matches_selector node deployment.node_selector ≡ true)
          × (has_untolerated_scheduling_taint node deployment.tolerations ≡ false)
          × Affords (runtime_replica_count deployment) node.allocatable (codes "cpu") deployment.cpu
          × Affords
              (runtime_replica_count deployment)
              node.allocatable
              (codes "memory")
              deployment.memory)
  unfolding validate_runtime_node node_matches_selector has_untolerated_scheduling_taint
  validate_runtime_node_iff deployment node =
      let replicas = runtime_replica_count deployment in
      let labels = check_labels_iff node.labels deployment.node_selector in
      let taints = check_taints_iff node.taints deployment.tolerations in
      let cpu = check_resource_iff replicas node.allocatable (codes "cpu") deployment.cpu in
      let memory =
        check_resource_iff replicas node.allocatable (codes "memory") deployment.memory in
      let both =
        seq_iff (check_resource q replicas node.allocatable (codes "cpu") deployment.cpu)
          (check_resource q replicas node.allocatable (codes "memory") deployment.memory) in
      let behind = seq_iff (check_taints node.taints deployment.tolerations) _ in
      let after = seq_iff (check_labels node.labels deployment.node_selector) _ in
      let all = seq_iff (fail_if (is_empty node.name) node_required) _ in
      (
        λ h.
            let (n, h1) = all.0 h in
            let (l, h2) = after.0 h1 in
            let (t, h3) = behind.0 h2 in
            let (c, m) = both.0 h3 in
            (named node.name n, labels.0 l, taints.0 t, cpu.0 c, memory.0 m),
        λ (n, l, t, c, m). all.1 (
          named_back node.name n,
          after.1 (labels.1 l, behind.1 (taints.1 t, both.1 (cpu.1 c, memory.1 m))),
        ),
      )

-- The number of replicas that is checked is one at least, and the desired number if that is.
runtime_replica_count_positive :
    (deployment : RuntimeSpec)
    → (pos 1 ≤ℤ runtime_replica_count deployment)
      × (pos 1 ≤ℤ deployment.desired_replicas
          → runtime_replica_count deployment ≡ deployment.desired_replicas)
unfolding runtime_replica_count
runtime_replica_count_positive deployment = ground arith
