-- ===== src/Scheduler/Cache/Rank.antt =====
-- `nodeCacheCapacity` and `rankNodes` (operator/internal/scheduler/planner.go).
use inferops.Base.{
  List, [], ◌∷◌, Bool, false, not, ◌&&◌, ◌||◌, if◌then◌else◌, Option, none, some, Str, ◌==◌, str_eq,
  str_lt, lookup, or_zero, ℤ, pos, ltb_ℤ, eqb_ℤ, ◌-64◌, sort_by,
}
use inferops.Kube.{Quantities, Node}
use inferops.Scheduler.Cache.Types.{ModelCache, is_failed}

pub record RankedNode (Q : Type 0) : Type 0 where
  pub node : Node Q
  pub capacity : ℤ
  pub reserved : ℤ
  pub has_existing_placement : Bool
  pub free_capacity : ℤ

unfoldable pub ranked_less : {Q : Type 0} → RankedNode Q → RankedNode Q → Bool
ranked_less a b =
    if a.has_existing_placement && not b.has_existing_placement
      || not a.has_existing_placement && b.has_existing_placement
    then a.has_existing_placement
    else if not (eqb_ℤ a.free_capacity b.free_capacity)
    then ltb_ℤ b.free_capacity a.free_capacity
    else str_lt a.node.name b.node.name

abbrev pub has_existing_placement : {Q : Type 0} → ModelCache → List (Str × Bool) → Node Q → Bool
has_existing_placement cache ready_copies node =
    (cache.status.node_name == node.name
      && cache.status.path == cache.spec.storage.path
      && not (is_failed cache.status.phase))
    || or_zero false (lookup node.name ready_copies)

module _ (q : Quantities) where
  open q use {Quantity, parse, sign, value}

  unfoldable pub node_cache_capacity : Node Quantity → Str → Option ℤ
  node_cache_capacity node annotation = elim (lookup annotation node.annotations) [
    | none ↦ none
    | some text ↦ elim (parse text) [
      | none ↦ none
      | some quantity ↦ if ltb_ℤ (pos 0) (sign quantity) then some (value quantity) else none
    ]
  ]

  module _ (cache : ModelCache) (reserved : List (Str × ℤ)) (conflicts : List (Str × Bool))
      (ready_copies : List (Str × Bool)) (annotation : Str) where
    -- One round of the loop: the entry for a node, if it has room.
    unfoldable pub rank_one : ℤ → Node Quantity → Option (RankedNode Quantity)
    unfolding node_cache_capacity
    rank_one requested_bytes node =
        if or_zero false (lookup node.name conflicts)
        then none
        else elim (node_cache_capacity node annotation) [
          | none ↦ none
          | some capacity ↦
              let node_reserved = or_zero (pos 0) (lookup node.name reserved) in
              let free = capacity -64 node_reserved in
              if ltb_ℤ free requested_bytes
              then none
              else some (record {
                node = node;
                capacity = capacity;
                reserved = node_reserved;
                has_existing_placement = has_existing_placement cache ready_copies node;
                free_capacity = free;
              })
        ]

    unfoldable pub rank_all : ℤ → List (Node Quantity) → List (RankedNode Quantity)
    unfolding rank_one
    rank_all requested_bytes [] = []
    rank_all requested_bytes (node ∷ nodes) =
        let rest = rank_all requested_bytes nodes in
        elim (rank_one requested_bytes node) [ none ↦ rest | some r ↦ r ∷ rest ]

    unfoldable pub rank_nodes : List (Node Quantity) → List (RankedNode Quantity)
    unfolding rank_all
    rank_nodes nodes = elim (parse cache.spec.storage.size) [
      | none ↦ []
      | some requested ↦ sort_by ranked_less (rank_all (value requested) nodes)
    ]
