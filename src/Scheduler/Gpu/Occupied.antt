-- ===== src/Scheduler/Gpu/Occupied.antt =====
-- The map `occupied` of `Plan` holds, for each node, the reservations of the requested resource
-- (operator/internal/scheduler/gpu.go).
use inferops.Base.{
  List, [], ◌∷◌, ◌≡◌, refl, ◌∙◌, inl, inr, Bool, ◌&&◌, if◌then◌else◌, Str, ◌==◌, str_eq,
  str_beq_iff, lookup, lookup-insert, or_zero, arith, ℤ, pos, ltb_ℤ, ◌+ℤ◌, ◌+64◌, ◌≤ℤ◌, ◌<ℤ◌,
  int64_max, +64_exact, int_laws, Bool-cases,
}
use inferops.Scheduler.Gpu.Defs.{GpuAllocation, occupy, occupied_from}

abbrev counts_for : Str → Str → GpuAllocation → Bool
counts_for resource node a =
    (a.resource_name == resource && ltb_ℤ (pos 0) a.count) && a.node_name == node

-- The exact sum of the positive reservations of a resource on a node.
abbrev pub reserved_on : Str → Str → List GpuAllocation → ℤ
reserved_on resource node [] = pos 0
reserved_on resource node (a ∷ allocations) =
    let rest = reserved_on resource node allocations in
    if counts_for resource node a then a.count +ℤ rest else rest

pub reserved_on_nonneg :
    (resource node : Str) (allocations : List GpuAllocation)
    → pos 0 ≤ℤ reserved_on resource node allocations
unfolding ◌+ℤ◌
reserved_on_nonneg resource node [] = omega arith
reserved_on_nonneg resource node (a ∷ allocations) =
    ground (arith, reserved_on_nonneg resource node allocations)

-- One round adds the allocation's count to its node, if it counts for the resource.
occupied-step :
    (resource node : Str) (occupied : List (Str × ℤ)) (a : GpuAllocation)
    → or_zero (pos 0) (lookup node (occupy resource occupied a)) ≡ (
        if counts_for resource node a
        then or_zero (pos 0) (lookup node occupied) +64 a.count
        else or_zero (pos 0) (lookup node occupied))
unfolding occupy
occupied-step resource node occupied a = ground (
  arith,
  str_beq_iff a.node_name node,
  lookup-insert a.node_name node (or_zero (pos 0) (lookup a.node_name occupied) +64 a.count)
      occupied,
)

sum-step :
    (old n rest : ℤ)
    → pos 0 ≤ℤ old
    → pos 0 <ℤ n
    → pos 0 ≤ℤ rest
    → old +ℤ (n +ℤ rest) ≤ℤ int64_max
    → (old +64 n ≡ old +ℤ n) × (pos 0 ≤ℤ old +ℤ n) × (old +ℤ n +ℤ rest ≡ old +ℤ (n +ℤ rest))
sum-step old n rest a b c h = (+64_exact old n (omega int_laws), omega int_laws, omega int_laws)

-- `+=` is exact as long as the sum fits in 64 bits.
pub occupied_from-sum :
    (resource node : Str) (occupied : List (Str × ℤ)) (allocations : List GpuAllocation)
    → pos 0 ≤ℤ or_zero (pos 0) (lookup node occupied)
    → or_zero (pos 0) (lookup node occupied) +ℤ reserved_on resource node allocations ≤ℤ int64_max
    → or_zero (pos 0) (lookup node (occupied_from resource occupied allocations))
      ≡ or_zero (pos 0) (lookup node occupied) +ℤ reserved_on resource node allocations
unfolding occupied_from
occupied_from-sum resource node occupied [] z h = omega int_laws
occupied_from-sum resource node occupied (a ∷ allocations) z h =
    let old = or_zero (pos 0) (lookup node occupied) in
    let rest = reserved_on resource node allocations in
    let step = occupied-step resource node occupied a in
    elim (Bool-cases (counts_for resource node a)) [
      | inl t ↦
          let h' : old +ℤ (a.count +ℤ rest) ≤ℤ int64_max = rw t at h in
          let (exact, nonneg, regroup) =
            sum-step old a.count rest z (ground arith)
              (reserved_on_nonneg resource node allocations) h' in
          let here : or_zero (pos 0) (lookup node (occupy resource occupied a)) ≡ old +ℤ a.count =
            (rw t at step) ∙ exact in
          rw t (
            occupied_from-sum resource node (occupy resource occupied a) allocations
              (rw here nonneg) (rw (here, regroup) h')
            ∙ (rw here regroup))
      | inr f ↦
          let here : or_zero (pos 0) (lookup node (occupy resource occupied a)) ≡ old =
            rw f at step in
          rw f (
            occupied_from-sum resource node (occupy resource occupied a) allocations (rw here z)
              (rw here (rw f at h))
            ∙ (rw here refl))
    ]
