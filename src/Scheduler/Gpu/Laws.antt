-- ===== src/Scheduler/Gpu/Laws.antt =====
-- What `GPUPlanner.Plan` promises (operator/internal/scheduler/gpu.go).
use inferops.Base.{
  List, [], ◌∷◌, ◌≡◌, ◌≢◌, refl, sym, ap, Bool, ◌⊎◌, inl, inr, ◌↔◌, some, Str, ◌==◌, str_eq,
  str_beq_iff, lookup, or_zero, arith, In, ℤ, pos, ◌-64◌, ◌+ℤ◌, ◌≤ℤ◌, ◌<ℤ◌, if◌then◌else◌, ◌∙◌, ok,
  err, sort_by, sort_by-head, sort_by-nil, List-cases, int64_max, InRange, int_laws, -64_exact,
  ◌-ℤ◌,
}
use inferops.Kube.{Quantities, Node}
use inferops.Scheduler.Gpu.Defs.{
  GpuRequest, GpuPlanner, GpuPlacement, GpuAllocation, Candidate, scan, plan, occupied_from,
  candidate_less, first_placement, no_compatible_gpu_node, insufficient_gpu_capacity,
}
use inferops.Scheduler.Gpu.Order.{candidate_less-StrictWeak, not_ahead}
use inferops.Scheduler.Gpu.Scan.{
  IsCompatible, HasRoom, candidate_of, used, In-scan, scan-In, scan-compatible, incompatible_nodes,
  IsCompatible-node,
}
use inferops.Scheduler.Gpu.Occupied.{reserved_on, occupied_from-sum, reserved_on_nonneg}

abbrev pub IsValid : GpuRequest → Type 0
IsValid request = (request.resource_name ≢ []) × (pos 0 <ℤ request.count)

slots_suffice :
    (total count sum used' : ℤ)
    → InRange total
    → pos 0 <ℤ total
    → pos 0 ≤ℤ sum
    → sum ≤ℤ int64_max
    → used' ≡ sum
    → count ≤ℤ total -64 used'
    → sum +ℤ count ≤ℤ total
slots_suffice total count sum used' range positive nonneg small same room =
    let exact : total -64 sum ≡ total -ℤ sum = -64_exact total sum (omega int_laws) in
    let room' : count ≤ℤ total -ℤ sum = rw (same, exact) at room in omega int_laws

module _ (q : Quantities) (p : GpuPlanner) (request : GpuRequest) (nodes : List (Node q.Quantity))
    (allocations : List GpuAllocation) where
  abbrev pub occupied : List (Str × ℤ)
  occupied = occupied_from request.resource_name [] allocations

  abbrev found : Bool × List Candidate
  found = scan q p request occupied nodes

  -- The slots that the planner sees as free on a node.
  abbrev pub free : Node q.Quantity → q.Quantity → ℤ
  free node quantity = q.value quantity -64 used q p request occupied node

  -- The placement names a listed compatible node with room, no feasible node is preferred over it,
  -- and among the equally preferred none has more free slots.
  pub record IsBest (placement : GpuPlacement) : Type 0 where
    pub node : Node q.Quantity
    pub quantity : q.Quantity
    pub listed : In node nodes
    pub compatible : IsCompatible q p request node quantity
    pub room : HasRoom q p request occupied node quantity
    pub placed : placement ≡ (candidate_of q p request occupied node quantity).placement
    pub best :
        (n : Node q.Quantity) (k : q.Quantity)
        → In n nodes
        → IsCompatible q p request n k
        → HasRoom q p request occupied n k
        → (n.name ≡ request.preferred_node → node.name ≡ request.preferred_node)
          × ((n.name == request.preferred_node) ≡ (node.name == request.preferred_node)
              → free n k ≤ℤ free node quantity)

  IsBest-of_head :
      (c : Candidate) (rest : List Candidate)
      → sort_by candidate_less found.1 ≡ c ∷ rest
      → IsBest c.placement
  IsBest-of_head c rest e =
      let (listed, first) =
        sort_by-head candidate_less candidate_less-StrictWeak c rest found.1 e in
      let (node, quantity, m, ok', room, same) = In-scan q p request occupied c nodes listed in
      record {
        node = node;
        quantity = quantity;
        listed = m;
        compatible = ok';
        room = room;
        placed = ap (λ (d : Candidate). d.placement) same;
        best = λ n k mn okn roomn.
            let d = candidate_of q p request occupied n k in
            let behind = first d (scan-In q p request occupied n k nodes mn okn roomn) in
            let (pref, more) =
              not_ahead (candidate_of q p request occupied node quantity) d (rw same at behind) in
            (
              λ en.
                  (str_beq_iff node.name request.preferred_node).0
                    (pref ((str_beq_iff n.name request.preferred_node).1 en)),
              more,
            );
      }

  plan_valid :
      IsValid request
      → plan q (some p) request nodes allocations
        ≡ first_placement q found.0 (sort_by candidate_less found.1)
  unfolding plan
  plan_valid v = ground (arith)

  plan_nil :
      IsValid request
      → found.1 ≡ []
      → plan q (some p) request nodes allocations
        ≡ (if found.0 then err insufficient_gpu_capacity else err no_compatible_gpu_node)
  unfolding first_placement sort_by
  plan_nil v e = plan_valid v ∙ (rw e refl)

  plan_cons :
      IsValid request
      → (c : Candidate) (rest : List Candidate) → sort_by candidate_less found.1 ≡ c ∷ rest
      → plan q (some p) request nodes allocations ≡ ok c.placement
  unfolding first_placement
  plan_cons v c rest e = plan_valid v ∙ (rw e refl)

  plan_cases :
      IsValid request
      → (found.1 ≡ [])
        ⊎ ((c : Candidate) × (rest : List Candidate) × (sort_by candidate_less found.1 ≡ c ∷ rest))
  plan_cases v = elim (List-cases (sort_by candidate_less found.1)) [
    | inl empty ↦ inl (sort_by-nil candidate_less found.1 empty)
    | inr (c, rest, e) ↦ inr (c, rest, e)
  ]

  -- For a valid request, a placement that `Plan` returns is the best of the feasible ones.
  pub plan-IsBest :
      (placement : GpuPlacement)
      → IsValid request
      → plan q (some p) request nodes allocations ≡ ok placement
      → IsBest placement
  plan-IsBest placement v e = elim (plan_cases v) [
    | inl empty ↦ absurd (ground (arith, plan_nil v empty))
    | inr (c, rest, s) ↦
        let same : c.placement ≡ placement = ground (arith, plan_cons v c rest s) in
        rw (← same) (IsBest-of_head c rest s)
  ]

  -- For a valid request, `Plan` fails with `ErrNoCompatibleGPUNode` exactly when no node is
  -- compatible, and with `ErrInsufficientGPUCapacity` exactly when some node is compatible and none
  -- of the compatible ones has room.
  pub plan_outcome :
      IsValid request
      → ((plan q (some p) request nodes allocations ≡ err no_compatible_gpu_node) ↔ (
          (node : Node q.Quantity) (k : q.Quantity)
          → In node nodes
          → ¬ IsCompatible q p request node k))
        × ((plan q (some p) request nodes allocations ≡ err insufficient_gpu_capacity) ↔ (
            ((node : Node q.Quantity) × (k : q.Quantity) × In node nodes
              × IsCompatible q p request node k)
            × ((node : Node q.Quantity) (k : q.Quantity)
                → In node nodes
                → IsCompatible q p request node k
                → ¬ HasRoom q p request occupied node k)))
  plan_outcome v = elim (plan_cases v) [
    | inl empty ↦ (
      (
        λ e node k m c.
            ground (arith, plan_nil v empty, scan-compatible q p request occupied node k nodes m c),
        λ h. ground (arith, plan_nil v empty, incompatible_nodes q p request occupied nodes h),
      ),
      (
        λ e. (
          IsCompatible-node q p request occupied nodes (ground (arith, plan_nil v empty)),
          λ node k m c r. rw empty at (scan-In q p request occupied node k nodes m c r),
        ),
        λ ((node, k, m, c), h).
            plan_nil v empty ∙ (rw (scan-compatible q p request occupied node k nodes m c) refl),
      ),
    )
    | inr (c, rest, s) ↦
        let e = plan_cons v c rest s in
        let b = IsBest-of_head c rest s in
        (
          (
            λ x. absurd (ground (arith, e)),
            λ h. absurd (h b.node b.quantity b.listed b.compatible),
          ),
          (
            λ x. absurd (ground (arith, e)),
            λ (x, h). absurd (h b.node b.quantity b.listed b.compatible b.room),
          ),
        )
  ]

  -- For a valid request, `Plan` returns a placement as soon as one listed compatible node has room.
  pub plan_total :
      (node : Node q.Quantity) (k : q.Quantity)
      → IsValid request
      → In node nodes
      → IsCompatible q p request node k
      → HasRoom q p request occupied node k
      → (placement : GpuPlacement) × (plan q (some p) request nodes allocations ≡ ok placement)
  plan_total node k v m c r = elim (plan_cases v) [
    | inl empty ↦ absurd (rw empty at (scan-In q p request occupied node k nodes m c r))
    | inr (best, rest, s) ↦ (best.placement, plan_cons v best rest s)
  ]

  used_is_sum :
      (name : Str)
      → reserved_on request.resource_name name allocations ≤ℤ int64_max
      → or_zero (pos 0) (lookup name occupied) ≡ reserved_on request.resource_name name allocations
  unfolding lookup
  used_is_sum name h =
      occupied_from-sum request.resource_name name [] allocations (omega arith) (omega int_laws)
      ∙ omega int_laws

  -- For a valid request and a placement that `Plan` returns, if the exact sum of what is reserved
  -- on its node fits in 64 bits, then that sum and the request together are at most the quantity
  -- that the node advertises: the reservation oversubscribes no node.
  pub plan-no_oversubscription :
      (placement : GpuPlacement)
      → IsValid request
      → plan q (some p) request nodes allocations ≡ ok placement
      → reserved_on request.resource_name placement.node_name allocations ≤ℤ int64_max
      → (node : Node q.Quantity) × (k : q.Quantity) × In node nodes
        × (node.name ≡ placement.node_name)
        × (lookup request.resource_name node.allocatable ≡ some k)
        × (reserved_on request.resource_name placement.node_name allocations +ℤ request.count
            ≤ℤ q.value k)
  plan-no_oversubscription placement v e fits' =
      let b = plan-IsBest placement v e in
      let same : b.node.name ≡ placement.node_name =
        ap (λ (x : GpuPlacement). x.node_name) (sym b.placed) in
      (
        b.node,
        b.quantity,
        b.listed,
        same,
        b.compatible.advertised,
        slots_suffice (q.value b.quantity) request.count
            (reserved_on request.resource_name placement.node_name allocations)
            (used q p request occupied b.node) (q.value-InRange b.quantity)
            (q.value_positive b.quantity b.compatible.positive)
            (reserved_on_nonneg request.resource_name placement.node_name allocations) fits'
            (rw same (used_is_sum placement.node_name fits')) b.room,
      )
