-- ===== src/Scheduler/Cache/Inversion.antt =====
-- What the checks of `Plan` have found when it returns a placement
-- (operator/internal/scheduler/planner.go).
use inferops.Base.{
  List, [], ◌∷◌, ◌≡◌, refl, sym, ◌∙◌, ◌⊎◌, inl, inr, Bool, false, some, Str, ◌==◌, str_eq,
  str_beq_iff, lookup, or_zero, In, find, find-some, arith, ℤ, pos, ◌<ℤ◌, Option-cases, List-cases,
  ok, Result-cases, sort_by-head,
}
use inferops.Kube.{Quantities, Node}
use inferops.Paths.Defs.{clean_absolute_path, under_root}
use inferops.Scheduler.Cache.Types.{ModelCache, PlannerConfig, Placement}
use inferops.Scheduler.Cache.Reserve.{
  reserved_bytes_by_node, conflicting_nodes_for_path, collect_ready_copy_nodes,
}
use inferops.Scheduler.Cache.Rank.{RankedNode, ranked_less, rank_all, rank_nodes}
use inferops.Scheduler.Cache.Ranking.{owned_on, conflicts_from-owned_on}
use inferops.Scheduler.Cache.Order.{ranked_less-StrictWeak}
use inferops.Scheduler.Cache.Defs.{plan_cache, filter_nodes, pin, first_ranked}

pub clean_absolute_path-ok : (s path : Str) → clean_absolute_path s ≡ ok path → path ≡ s
unfolding clean_absolute_path
clean_absolute_path-ok s path h = ground (arith, str_beq_iff path s)

module _ (q : Quantities) (p : PlannerConfig) (cache : ModelCache) (nodes : List (Node q.Quantity))
    (caches : List ModelCache) where
  abbrev pub conflicts : Str → List (Str × Bool)
  conflicts path = conflicting_nodes_for_path caches cache.uid path

  abbrev pub reserved : List (Str × ℤ)
  reserved = reserved_bytes_by_node q caches cache.uid

  abbrev pub ready_copies : List (Str × Bool)
  ready_copies = collect_ready_copy_nodes cache caches

  -- What the checks of `Plan` have found when it returns.
  pub record Planned (placement : Placement q.Quantity) : Type 0 where
    pub path : clean_absolute_path cache.spec.storage.path ≡ ok placement.path
    pub rooted : under_root placement.path p.cache_root ≡ ok tt
    pub parsed : q.parse cache.spec.storage.size ≡ some placement.reserved_size
    pub positive : pos 0 <ℤ q.sign placement.reserved_size
    pub chosen : List (Node q.Quantity)
    pub pinned :
        pin q cache.spec.storage.node_name (filter_nodes q p nodes cache.spec.storage) ≡ ok chosen
    pub first : RankedNode q.Quantity
    pub others : List (RankedNode q.Quantity)
    pub ranked :
        rank_nodes q cache reserved
          (conflicts placement.path)
          ready_copies
          p.capacity_annotation
          chosen
        ≡ first ∷ others
    pub named : placement.node_name ≡ first.node.name

  abbrev pub placed : Str → q.Quantity → RankedNode q.Quantity → Placement q.Quantity
  placed path size first = record {
    node_name = first.node.name;
    node_uid = first.node.uid;
    path = path;
    reserved_size = size;
  }

  pub planned :
      (placement : Placement q.Quantity)
      → plan_cache q p (some cache) nodes caches ≡ ok placement
      → Planned placement
  unfolding plan_cache first_ranked
  planned placement h = elim (Result-cases (clean_absolute_path cache.spec.storage.path)) [
    | inr (e, bad) ↦ absurd (ground (arith, bad))
    | inl (path, good) ↦ elim (Option-cases (q.parse cache.spec.storage.size)) [
      | inl bad ↦ absurd (ground (arith, good, bad))
      | inr (size, parsed) ↦
          elim (Result-cases
            (pin q cache.spec.storage.node_name (filter_nodes q p nodes cache.spec.storage))) [
              | inr (e, bad) ↦ absurd (ground (arith, good, parsed, bad))
              | inl (chosen, pinned) ↦
                  elim (List-cases (
                    rank_nodes q cache reserved (conflicts path) ready_copies p.capacity_annotation
                      chosen)) [
                        | inl bad ↦ absurd (ground (arith, good, parsed, pinned, bad))
                        | inr (first, others, ranked) ↦
                            let same : placement ≡ placed path size first =
                              ground (arith, good, parsed, pinned, ranked) in
                            rw same (record {
                              path = good;
                              rooted = ground (arith, good, parsed, pinned, ranked);
                              parsed = parsed;
                              positive = ground (arith, good, parsed, pinned, ranked);
                              chosen = chosen;
                              pinned = pinned;
                              first = first;
                              others = others;
                              ranked = ranked;
                              named = refl;
                            })
                      ]
            ]
    ]
  ]

  -- What the pin leaves: candidates, and the pinned node if there is a pin.
  pub pin-chosen :
      (name : Str) (candidates chosen : List (Node q.Quantity)) (node : Node q.Quantity)
      → pin q name candidates ≡ ok chosen
      → In node chosen
      → In node candidates × ((name ≡ []) ⊎ (node.name ≡ name))
  unfolding pin
  pin-chosen [] candidates chosen node h m = ground arith
  pin-chosen (c ∷ name) candidates chosen node h m =
      elim (Option-cases (find (λ n. n.name == c ∷ name) candidates)) [
        | inl e ↦ absurd (ground (arith, e))
        | inr (n, e) ↦
            let (listed, named) = find-some (λ n. n.name == c ∷ name) candidates e in
            let same : node ≡ n = ground (arith, e) in
            rw same (listed, inr ((str_beq_iff n.name (c ∷ name)).0 named))
      ]

  pub first_listed :
      (placement : Placement q.Quantity) (d : Planned placement)
      → In d.first (
          rank_all q cache reserved
            (conflicts placement.path)
            ready_copies
            p.capacity_annotation
            (q.value placement.reserved_size)
            d.chosen)
        × ((r : RankedNode q.Quantity)
            → In r (
                rank_all q cache reserved
                  (conflicts placement.path)
                  ready_copies
                  p.capacity_annotation
                  (q.value placement.reserved_size)
                  d.chosen)
            → ranked_less r d.first ≡ false)
  unfolding rank_nodes
  first_listed placement d =
      sort_by-head ranked_less ranked_less-StrictWeak d.first d.others
        (rank_all q cache reserved (conflicts placement.path) ready_copies p.capacity_annotation
          (q.value placement.reserved_size) d.chosen)
        (ground (arith, d.parsed, d.ranked))

  pub unowned_of_conflicts :
      (path node : Str)
      → or_zero false (lookup node (conflicts path)) ≡ false
      → owned_on cache.uid path node caches ≡ false
  unfolding conflicting_nodes_for_path lookup
  unowned_of_conflicts path node h = sym (conflicts_from-owned_on cache.uid path node [] caches) ∙ h
