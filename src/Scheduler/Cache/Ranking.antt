-- ===== src/Scheduler/Cache/Ranking.antt =====
-- Which nodes `rankNodes` lists, and with what (operator/internal/scheduler/planner.go).
use inferops.Base.{
  List, [], ◌∷◌, ◌≡◌, refl, ◌∙◌, ◌⊎◌, inl, inr, Bool, true, false, ◌||◌, ◌&&◌, some, Str, ◌==◌,
  str_eq, lookup, lookup-insert, insert, or_zero, In, any, arith, ℤ, pos, ◌-64◌, ◌≤ℤ◌, Bool-cases,
  Option-cases,
}
use inferops.Kube.{Quantities, Node}
use inferops.Scheduler.Cache.Types.{ModelCache}
use inferops.Scheduler.Cache.Reserve.{owns_path, conflicts_from}
use inferops.Scheduler.Cache.Rank.{
  RankedNode, has_existing_placement, node_cache_capacity, rank_one, rank_all,
}

-- Whether a cache other than the one with this identity owns the path on the node.
abbrev pub owned_on : Str → Str → Str → List ModelCache → Bool
owned_on self_uid path node caches =
    any (λ cache. owns_path self_uid path cache && cache.status.node_name == node) caches

pub conflicts_from-owned_on :
    (self_uid path node : Str) (conflicts : List (Str × Bool)) (caches : List ModelCache)
    → or_zero false (lookup node (conflicts_from self_uid path conflicts caches))
      ≡ (or_zero false (lookup node conflicts) || owned_on self_uid path node caches)
unfolding conflicts_from
conflicts_from-owned_on self_uid path node conflicts [] = ground arith
conflicts_from-owned_on self_uid path node conflicts (cache ∷ caches) =
    elim (Bool-cases (owns_path self_uid path cache)) [
      | inl t ↦
          rw
            (
              t,
              conflicts_from-owned_on self_uid path node
                  (insert cache.status.node_name true conflicts) caches,
            )
            (ground (arith, lookup-insert cache.status.node_name node true conflicts))
      | inr f ↦ rw (f, conflicts_from-owned_on self_uid path node conflicts caches) refl
    ]

module _ (q : Quantities) (cache : ModelCache) (reserved : List (Str × ℤ))
    (conflicts : List (Str × Bool)) (ready_copies : List (Str × Bool)) (annotation : Str) where
  open q use {Quantity}

  -- The entry for a node with this capacity.
  abbrev pub entry : Node Quantity → ℤ → RankedNode Quantity
  entry node capacity = record {
    node = node;
    capacity = capacity;
    reserved = or_zero (pos 0) (lookup node.name reserved);
    has_existing_placement = has_existing_placement cache ready_copies node;
    free_capacity = capacity -64 or_zero (pos 0) (lookup node.name reserved);
  }

  -- A node without a conflict that advertises a capacity, with room for the bytes.
  pub record IsOpen (bytes : ℤ) (node : Node Quantity) (capacity : ℤ) : Type 0 where
    pub unowned : or_zero false (lookup node.name conflicts) ≡ false
    pub advertised : node_cache_capacity q node annotation ≡ some capacity
    pub room : bytes ≤ℤ capacity -64 or_zero (pos 0) (lookup node.name reserved)

  rank_one-IsOpen :
      (bytes : ℤ) (node : Node Quantity) (r : RankedNode Quantity)
      → rank_one q cache reserved conflicts ready_copies annotation bytes node ≡ some r
      → (capacity : ℤ) × IsOpen bytes node capacity × (r ≡ entry node capacity)
  unfolding rank_one
  rank_one-IsOpen bytes node r h = elim (Option-cases (node_cache_capacity q node annotation)) [
    | inl e ↦ absurd (ground (arith, e))
    | inr (capacity, e) ↦ (
      capacity,
      record { unowned = ground (arith, e); advertised = e; room = ground (arith, e) },
      ground (arith, e),
    )
  ]

  rank_one-some :
      (bytes : ℤ) (node : Node Quantity) (capacity : ℤ)
      → IsOpen bytes node capacity
      → rank_one q cache reserved conflicts ready_copies annotation bytes node
        ≡ some (entry node capacity)
  unfolding rank_one
  rank_one-some bytes node capacity o = ground (arith, o.unowned, o.advertised, o.room)

  pub In-rank_all :
      (bytes : ℤ) (nodes : List (Node Quantity)) (r : RankedNode Quantity)
      → In r (rank_all q cache reserved conflicts ready_copies annotation bytes nodes)
      → (node : Node Quantity) × (capacity : ℤ) × In node nodes
        × IsOpen bytes node capacity
        × (r ≡ entry node capacity)
  unfolding rank_all
  In-rank_all bytes [] r m = elim m [ ]
  In-rank_all bytes (n ∷ nodes) r m =
      elim (Option-cases (rank_one q cache reserved conflicts ready_copies annotation bytes n)) [
        | inl e ↦
            let (node, k, i, o, same) = In-rank_all bytes nodes r (ground (arith, e)) in
            (node, k, inr i, o, same)
        | inr (s, e) ↦
            let here : (r ≡ s)
                ⊎ In r (rank_all q cache reserved conflicts ready_copies annotation bytes nodes) =
              ground (arith, e) in
            elim here [
              | inl same ↦
                  let (k, o, is_entry) = rank_one-IsOpen bytes n s e in
                  (n, k, inl refl, o, same ∙ is_entry)
              | inr later ↦
                  let (node, k, i, o, same) = In-rank_all bytes nodes r later in
                  (node, k, inr i, o, same)
            ]
      ]

  pub rank_all-In :
      (bytes : ℤ) (nodes : List (Node Quantity)) (node : Node Quantity) (capacity : ℤ)
      → In node nodes
      → IsOpen bytes node capacity
      → In
          (entry node capacity)
          (rank_all q cache reserved conflicts ready_copies annotation bytes nodes)
  unfolding rank_all
  rank_all-In bytes [] node capacity m o = elim m [ ]
  rank_all-In bytes (n ∷ nodes) node capacity (inl e) o =
      ground (arith, e, rank_one-some bytes node capacity o)
  rank_all-In bytes (n ∷ nodes) node capacity (inr m) o =
      ground (arith, rank_all-In bytes nodes node capacity m o)
