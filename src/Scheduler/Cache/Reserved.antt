-- ===== src/Scheduler/Cache/Reserved.antt =====
-- The reservations that the planner adds up (operator/internal/scheduler/planner.go,
-- `reservedBytesByNode` and `conflictingNodesForPath`).
use inferops.Base.{
  List, [], ◌∷◌, ◌≡◌, sym, ◌∙◌, inl, inr, if◌then◌else◌, Str, ◌==◌, str_eq, str_beq_iff, lookup,
  lookup-insert, or_zero, All, arith, ℤ, pos, ltb_ℤ, ◌+ℤ◌, ◌-ℤ◌, ◌-64◌, ◌+64◌, ◌≤ℤ◌, int64_max,
  +64_exact, -64_exact, +ℤ_parts, -ℤ_parts, int_laws, Bool-cases, Option-cases,
}
use inferops.Kube.{Quantities}
use inferops.Scheduler.Cache.Types.{ModelCache}
use inferops.Scheduler.Cache.Reserve.{add_saturating, held, held_size, reserve, reserved_from}

-- A sum, cut off at the largest `int64`.
abbrev pub capped : ℤ → ℤ
capped n = if ltb_ℤ int64_max n then int64_max else n

add_saturating_exact :
    (a b : ℤ)
    → pos 0 ≤ℤ a
    → a ≤ℤ int64_max
    → pos 0 ≤ℤ b
    → b ≤ℤ int64_max
    → add_saturating a b ≡ capped (a +ℤ b)
unfolding add_saturating
add_saturating_exact a b h k m n =
    let exact : int64_max -64 a ≡ int64_max -ℤ a = -64_exact int64_max a (omega int_laws) in
    elim (Bool-cases (ltb_ℤ int64_max (a +ℤ b))) [
      | inl t ↦ ground (arith, exact, t, +ℤ_parts a b, -ℤ_parts int64_max a)
      | inr f ↦
          let sum : a +64 b ≡ a +ℤ b =
            +64_exact a b (ground (arith, f, +ℤ_parts a b, -ℤ_parts int64_max a)) in
          ground (arith, exact, sum, f, +ℤ_parts a b, -ℤ_parts int64_max a)
    ]

capped_zero : (a : ℤ) → pos 0 ≤ℤ a → a ≤ℤ int64_max → capped (a +ℤ pos 0) ≡ a
unfolding ◌+ℤ◌
capped_zero a l u = ground arith

sum_nonneg : (a b : ℤ) → pos 0 ≤ℤ a → pos 0 ≤ℤ b → pos 0 ≤ℤ a +ℤ b
unfolding ◌+ℤ◌
sum_nonneg a b h k = ground arith

module _ (q : Quantities) (self_uid : Str) where
  held-le-max : (cache : ModelCache) → or_zero (pos 0) (held q self_uid cache) ≤ℤ int64_max
  unfolding held
  held-le-max cache = elim (Option-cases (held_size q cache)) [
    | inl e ↦ ground (arith, e)
    | inr (size, e) ↦ ground (arith, e, q.value-InRange size)
  ]

  -- The bytes that a cache holds are not negative.
  abbrev pub IsSized : ModelCache → Type 0
  IsSized cache = pos 0 ≤ℤ or_zero (pos 0) (held q self_uid cache)

module _ (q : Quantities) (self_uid node : Str) where
  -- What a cache holds on the node.
  abbrev pub held_here : ModelCache → ℤ
  held_here cache =
      if cache.status.node_name == node then or_zero (pos 0) (held q self_uid cache) else pos 0

  -- The exact sum of what the other caches hold on the node.
  abbrev pub held_on : List ModelCache → ℤ
  held_on [] = pos 0
  held_on (cache ∷ caches) = held_here cache +ℤ held_on caches

  reserve-step :
      (reserved : List (Str × ℤ)) (cache : ModelCache)
      → IsSized q self_uid cache
      → pos 0 ≤ℤ or_zero (pos 0) (lookup node reserved)
      → or_zero (pos 0) (lookup node reserved) ≤ℤ int64_max
      → or_zero (pos 0) (lookup node (reserve q self_uid reserved cache))
        ≡ capped (or_zero (pos 0) (lookup node reserved) +ℤ held_here cache)
  unfolding reserve
  reserve-step reserved cache s l u =
      let old = or_zero (pos 0) (lookup node reserved) in
      let max = held-le-max q self_uid cache in
      elim (Option-cases (held q self_uid cache)) [
        | inl e ↦ ground (arith, e, capped_zero old l u)
        | inr (bytes, e) ↦
            let exact : add_saturating old bytes ≡ capped (old +ℤ bytes) =
              add_saturating_exact old bytes l u (rw e at s) (rw e at max) in
            ground (
              arith,
              e,
              exact,
              capped_zero old l u,
              str_beq_iff cache.status.node_name node,
              lookup-insert cache.status.node_name node
                  (add_saturating (or_zero (pos 0) (lookup cache.status.node_name reserved)) bytes)
                  reserved,
            )
      ]

  capped-capped :
      (a b c : ℤ)
      → pos 0 ≤ℤ a
      → pos 0 ≤ℤ b
      → pos 0 ≤ℤ c
      → capped (capped (a +ℤ b) +ℤ c) ≡ capped (a +ℤ (b +ℤ c))
  unfolding ◌+ℤ◌
  capped-capped a b c h k m = ground arith

  capped-bounds : (a : ℤ) → pos 0 ≤ℤ a → (pos 0 ≤ℤ capped a) × (capped a ≤ℤ int64_max)
  capped-bounds a h = ground arith

  held_here_nonneg : (cache : ModelCache) → IsSized q self_uid cache → pos 0 ≤ℤ held_here cache
  held_here_nonneg cache s = ground arith

  pub held_on_nonneg :
      (caches : List ModelCache) → All (IsSized q self_uid) caches → pos 0 ≤ℤ held_on caches
  held_on_nonneg [] s = omega arith
  held_on_nonneg (cache ∷ caches) (s, ss) =
      sum_nonneg (held_here cache) (held_on caches) (held_here_nonneg cache s)
        (held_on_nonneg caches ss)

  -- The map of reservations has the exact sum for the node, cut off at the largest `int64`.
  pub reserved_from-capped :
      (reserved : List (Str × ℤ)) (caches : List ModelCache)
      → All (IsSized q self_uid) caches
      → pos 0 ≤ℤ or_zero (pos 0) (lookup node reserved)
      → or_zero (pos 0) (lookup node reserved) ≤ℤ int64_max
      → or_zero (pos 0) (lookup node (reserved_from q self_uid reserved caches))
        ≡ capped (or_zero (pos 0) (lookup node reserved) +ℤ held_on caches)
  unfolding reserved_from
  reserved_from-capped reserved [] s l u =
      sym (capped_zero (or_zero (pos 0) (lookup node reserved)) l u)
  reserved_from-capped reserved (cache ∷ caches) (s, ss) l u =
      let old = or_zero (pos 0) (lookup node reserved) in
      let step = reserve-step reserved cache s l u in
      let here = held_here_nonneg cache s in
      let (low, high) =
        capped-bounds (old +ℤ held_here cache) (sum_nonneg old (held_here cache) l here) in
      reserved_from-capped (reserve q self_uid reserved cache) caches ss (rw step low)
        (rw step high)
      ∙ (rw step
          (capped-capped old (held_here cache) (held_on caches) l here (held_on_nonneg caches ss)))
