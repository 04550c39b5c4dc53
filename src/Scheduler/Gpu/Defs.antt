-- ===== src/Scheduler/Gpu/Defs.antt =====
-- `GPUPlanner`, `Plan` and `Snapshot` (operator/internal/scheduler/gpu.go).
use inferops.Base.{
  List, [], ◌∷◌, Bool, true, false, not, ◌&&◌, ◌||◌, if◌then◌else◌, Option, none, some, Str, ◌==◌,
  is_empty, str_eq, str_lt, lookup, insert, or_zero, codes, ℤ, pos, ltb_ℤ, eqb_ℤ, ◌+64◌, ◌-64◌,
  Result, ok, err, ◌>>◌, fail_if, for_each, sort_by,
}
use inferops.Kube.{Quantities, NameRules, Node}
use inferops.Scheduler.Nodes.{is_node_eligible_for_cache, node_matches_selector}

pub record GpuRequest : Type 0 where
  pub resource_name : Str
  pub count : ℤ
  pub type : Str
  pub preferred_node : Str

pub record GpuAllocation : Type 0 where
  pub node_name : Str
  pub resource_name : Str
  pub count : ℤ

pub record GpuPlacement : Type 0 where
  pub node_name : Str
  pub total : ℤ
  pub occupied : ℤ
  pub available : ℤ

-- `GPUPlannerConfig` and the planner that `NewGPUPlanner` makes of it have the same two fields.
pub record GpuPlanner : Type 0 where
  pub node_selector : List (Str × Str)
  pub gpu_type_label : Str

pub data GpuError : Type 0 where
  invalid_type_label invalid_selector_key invalid_selector_value : GpuError
  planner_required resource_name_required count_not_positive : GpuError
  no_compatible_gpu_node insufficient_gpu_capacity : GpuError

abbrev default_gpu_type_label : Str
default_gpu_type_label = codes "inferops.dev/gpu-type"

unfoldable pub new_gpu_planner : NameRules → GpuPlanner → Result GpuError GpuPlanner
new_gpu_planner rules config = do
  let label =
      if is_empty config.gpu_type_label then default_gpu_type_label else config.gpu_type_label
  fail_if (not (rules.is_qualified_name label)) invalid_type_label
  for_each
      (λ entry.
        fail_if (not (rules.is_qualified_name entry.0)) invalid_selector_key
        >> fail_if (not (rules.is_valid_label_value entry.1)) invalid_selector_value)
      config.node_selector
  ok (record { node_selector = config.node_selector; gpu_type_label = label })

-- One round of the loop that fills `occupied`.
unfoldable pub occupy : Str → List (Str × ℤ) → GpuAllocation → List (Str × ℤ)
unfolding lookup insert ◌+64◌
occupy resource occupied a =
    if a.resource_name == resource && ltb_ℤ (pos 0) a.count
    then insert a.node_name (or_zero (pos 0) (lookup a.node_name occupied) +64 a.count) occupied
    else occupied

unfoldable pub occupied_from : Str → List (Str × ℤ) → List GpuAllocation → List (Str × ℤ)
occupied_from resource occupied [] = occupied
occupied_from resource occupied (a ∷ allocations) =
    occupied_from resource (occupy resource occupied a) allocations

pub record Candidate : Type 0 where
  pub placement : GpuPlacement
  pub preferred : Bool

-- What the loop over the nodes does with one node: skip it as incompatible, note that it is
-- compatible but has too few free slots, or add it to the candidates.
pub data Verdict : Type 0 where
  incompatible full : Verdict
  fits : Candidate → Verdict

unfoldable pub candidate_less : Candidate → Candidate → Bool
candidate_less a b =
    if a.preferred && not b.preferred || not a.preferred && b.preferred
    then a.preferred
    else if not (eqb_ℤ a.placement.available b.placement.available)
    then ltb_ℤ b.placement.available a.placement.available
    else str_lt a.placement.node_name b.placement.node_name

module _ (q : Quantities) where
  open q use {Quantity, sign, value}

  unfoldable pub verdict_with : GpuRequest → ℤ → Node Quantity → Quantity → Verdict
  unfolding ◌-64◌
  verdict_with request used node quantity =
      if not (ltb_ℤ (pos 0) (sign quantity))
      then incompatible
      else if ltb_ℤ (value quantity -64 used) request.count
      then full
      else fits (record {
        placement = record {
          node_name = node.name;
          total = value quantity;
          occupied = used;
          available = value quantity -64 used;
        };
        preferred = node.name == request.preferred_node;
      })

  -- The body of the loop over the nodes.
  unfoldable pub verdict : GpuPlanner → GpuRequest → List (Str × ℤ) → Node Quantity → Verdict
  unfolding verdict_with lookup node_matches_selector is_node_eligible_for_cache
  verdict p request occupied node =
      if not (is_node_eligible_for_cache node) || not (node_matches_selector node p.node_selector)
      then incompatible
      else if not (is_empty request.type)
          && not (or_zero [] (lookup p.gpu_type_label node.labels) == request.type)
      then incompatible
      else elim (lookup request.resource_name node.allocatable) [
        | none ↦ incompatible
        | some quantity ↦
            verdict_with request (or_zero (pos 0) (lookup node.name occupied)) node quantity
      ]

  -- The loop over the nodes: `compatible` and `candidates`.
  unfoldable pub scan :
      GpuPlanner → GpuRequest → List (Str × ℤ) → List (Node Quantity) → Bool × List Candidate
  unfolding verdict
  scan p request occupied [] = (false, [])
  scan p request occupied (node ∷ nodes) =
      let (compatible, candidates) = scan p request occupied nodes in
      elim (verdict p request occupied node) [
        | incompatible ↦ (compatible, candidates)
        | full ↦ (true, candidates)
        | fits c ↦ (true, c ∷ candidates)
      ]

  unfoldable pub first_placement : Bool → List Candidate → Result GpuError GpuPlacement
  first_placement compatible [] =
      if compatible then err insufficient_gpu_capacity else err no_compatible_gpu_node
  first_placement compatible (c ∷ _) = ok c.placement

  -- `none` for the planner is a nil receiver.
  unfoldable pub plan :
      Option GpuPlanner
      → GpuRequest
      → List (Node Quantity)
      → List GpuAllocation
      → Result GpuError GpuPlacement
  unfolding scan verdict occupied_from occupy first_placement sort_by candidate_less
  plan none request nodes allocations = err planner_required
  plan (some p) request nodes allocations = do
    fail_if (is_empty request.resource_name) resource_name_required
    fail_if (not (ltb_ℤ (pos 0) request.count)) count_not_positive
    let found = scan p request (occupied_from request.resource_name [] allocations) nodes
    first_placement found.0 (sort_by candidate_less found.1)

  unfoldable pub snapshot_total : Str → ℤ → List (Node Quantity) → ℤ
  unfolding lookup ◌+64◌
  snapshot_total resource total [] = total
  snapshot_total resource total (node ∷ nodes) =
      snapshot_total resource
        (total +64 value (or_zero q.zero_quantity (lookup resource node.allocatable))) nodes

unfoldable pub snapshot_occupied : Str → ℤ → List GpuAllocation → ℤ
unfolding ◌+64◌
snapshot_occupied resource occupied [] = occupied
snapshot_occupied resource occupied (a ∷ allocations) =
    snapshot_occupied resource
      (if a.resource_name == resource && ltb_ℤ (pos 0) a.count
        then occupied +64 a.count
        else occupied)
      allocations

-- `Snapshot`: total, occupied and available.
unfoldable pub snapshot :
    (q : Quantities) → Str → List (Node q.Quantity) → List GpuAllocation → ℤ × ℤ × ℤ
unfolding snapshot_total snapshot_occupied ◌-64◌
snapshot q resource nodes allocations =
    let total = snapshot_total q resource (pos 0) nodes in
    let occupied = snapshot_occupied resource (pos 0) allocations in
    let available = total -64 occupied in
    (total, occupied, if ltb_ℤ available (pos 0) then pos 0 else available)
