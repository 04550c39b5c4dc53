-- ===== src/Scheduler/Preflight.antt =====
-- `ValidateRuntimeNode` and `runtimeReplicaCount` (operator/internal/scheduler/preflight.go).
pub mod Laws
use inferops.Base.{
  List, [], ◌∷◌, Bool, true, false, not, ◌||◌, if◌then◌else◌, Option, none, some, Str, ◌==◌, str_eq,
  is_empty, codes, lookup, or_zero, ℤ, pos, ltb_ℤ, Result, ok, err, ◌>>=◌, ◌>>◌, fail_if,
}
use inferops.Kube.{Quantities, Node, Taint}
use inferops.Scheduler.Nodes.{Toleration, keeps_pods_out, is_taint_tolerated}

-- What is read of a `ModelDeployment` (operator/api/v1alpha1/modeldeployment_types.go).
pub record RuntimeSpec : Type 0 where
  pub node_selector : List (Str × Str)
  pub tolerations : List Toleration
  pub cpu : Str
  pub memory : Str
  pub desired_replicas : ℤ
  pub min_replicas : ℤ

pub data PreflightError : Type 0 where
  deployment_required node_required : PreflightError
  label_mismatch untolerated : PreflightError
  unparsable overflow insufficient_compute : PreflightError

unfoldable pub runtime_replica_count : RuntimeSpec → ℤ
runtime_replica_count deployment =
    let replicas =
      if ltb_ℤ deployment.desired_replicas (pos 1)
      then deployment.min_replicas
      else deployment.desired_replicas in
    if ltb_ℤ replicas (pos 1) then pos 1 else replicas

unfoldable pub check_labels : List (Str × Str) → List (Str × Str) → Result PreflightError (Unit {0})
check_labels labels [] = ok tt
check_labels labels ((key, value) ∷ selector) =
    fail_if (not (or_zero [] (lookup key labels) == value)) label_mismatch
    >> check_labels labels selector

unfoldable pub check_taints : List Taint → List Toleration → Result PreflightError (Unit {0})
check_taints [] tolerations = ok tt
check_taints (taint ∷ taints) tolerations =
    let rest = check_taints taints tolerations in
    if not (keeps_pods_out taint)
    then rest
    else if not (is_taint_tolerated taint tolerations)
    then err untolerated
    else rest

module _ (q : Quantities) where
  open q use {Quantity, parse, mul, cmp_lt}

  -- One round of the loop over CPU and memory.
  unfoldable pub check_resource :
      ℤ → List (Str × Quantity) → Str → Str → Result PreflightError (Unit {0})
  check_resource replicas allocatable name value =
      if is_empty value then ok tt else elim (parse value) [
        | none ↦ err unparsable
        | some one ↦ elim (mul one replicas) [
          | none ↦ err overflow
          | some all ↦
              fail_if (cmp_lt (or_zero q.zero_quantity (lookup name allocatable)) all)
                insufficient_compute
        ]
      ]

  -- `none` is a nil pointer.
  unfoldable pub validate_runtime_node :
      Option RuntimeSpec → Option (Node Quantity) → Result PreflightError (Unit {0})
  validate_runtime_node none _ = err deployment_required
  validate_runtime_node (some deployment) none = err node_required
  validate_runtime_node (some deployment) (some node) = do
    fail_if (is_empty node.name) node_required
    check_labels node.labels deployment.node_selector
    check_taints node.taints deployment.tolerations
    let replicas = runtime_replica_count deployment
    check_resource replicas node.allocatable (codes "cpu") deployment.cpu
    check_resource replicas node.allocatable (codes "memory") deployment.memory
