-- ===== src/Scheduler/Cache/Best.antt =====
-- Which node `Plan` takes, and that it takes one (operator/internal/scheduler/planner.go).
use inferops.Base.{
  List, [], ◌∷◌, ◌≡◌, ◌∙◌, ap, inl, inr, true, false, some, Str, str_eq, lookup, or_zero, In,
  In-keep, keep-In, arith, ℤ, pos, ◌-64◌, ◌≤ℤ◌, ◌<ℤ◌, List-cases, ok, Result-cases, sort_by,
  sort_by-In, codes,
}
use inferops.Kube.{Quantities, Node}
use inferops.Paths.Defs.{clean_absolute_path, under_root}
use inferops.Scheduler.Cache.Types.{ModelCache, PlannerConfig, Placement}
use inferops.Scheduler.Cache.Reserve.{
  reserved_bytes_by_node, conflicting_nodes_for_path, collect_ready_copy_nodes,
}
use inferops.Scheduler.Cache.Rank.{
  RankedNode, ranked_less, rank_nodes, node_cache_capacity, has_existing_placement,
}
use inferops.Scheduler.Cache.Ranking.{
  owned_on, conflicts_from-owned_on, IsOpen, entry, In-rank_all, rank_all-In,
}
use inferops.Scheduler.Cache.Order.{not_before}
use inferops.Scheduler.Cache.Defs.{
  plan_cache, plan_path, is_candidate, filter_nodes, pin, first_ranked,
}
use inferops.Scheduler.Cache.Inversion.{
  conflicts, reserved, ready_copies, placed, planned, first_listed,
}

sorted-ne_nil :
    {Q : Type 0} (x : RankedNode Q) (xs : List (RankedNode Q))
    → In x xs
    → (y : RankedNode Q) × (ys : List (RankedNode Q)) × (sort_by ranked_less xs ≡ y ∷ ys)
sorted-ne_nil x xs m = elim (List-cases (sort_by ranked_less xs)) [
  | inl none' ↦ absurd (rw none' at (sort_by-In ranked_less x xs m))
  | inr some' ↦ some'
]

module _ (q : Quantities) (p : PlannerConfig) (cache : ModelCache) (nodes : List (Node q.Quantity))
    (caches : List ModelCache) where
  -- What the planner takes as free on a node, by its saturating sum of the reservations.
  abbrev pub free : Node q.Quantity → ℤ → ℤ
  free node capacity =
      capacity -64 or_zero (pos 0) (lookup node.name (reserved_bytes_by_node q caches cache.uid))

  -- For an unpinned cache, a listed node that passes the filters, is not owned and has room is not
  -- preferred over the node of the placement, which has a copy or a placement of the cache if that
  -- node has one; and if they are equal in this, that node has no more free capacity.
  pub plan_cache-best :
      (placement : Placement q.Quantity) (n : Node q.Quantity) (k : ℤ)
      → plan_cache q p (some cache) nodes caches ≡ ok placement
      → cache.spec.storage.node_name ≡ []
      → In n nodes
      → is_candidate q p cache.spec.storage n ≡ true
      → owned_on cache.uid placement.path n.name caches ≡ false
      → node_cache_capacity q n p.capacity_annotation ≡ some k
      → q.value placement.reserved_size ≤ℤ free n k
      → (node : Node q.Quantity) × (capacity : ℤ) × In node nodes
        × (placement.node_name ≡ node.name)
        × (node_cache_capacity q node p.capacity_annotation ≡ some capacity)
        × (has_existing_placement cache (collect_ready_copy_nodes cache caches) n ≡ true
            → has_existing_placement cache (collect_ready_copy_nodes cache caches) node ≡ true)
        × (has_existing_placement cache (collect_ready_copy_nodes cache caches) n
              ≡ has_existing_placement cache (collect_ready_copy_nodes cache caches) node
            → free n k ≤ℤ free node capacity)
  unfolding pin conflicting_nodes_for_path lookup
  plan_cache-best placement n k h unpinned m c u a r =
      let d = planned q p cache nodes caches placement h in
      let (node, capacity, i, o, same) =
        In-rank_all q cache (reserved q p cache nodes caches)
          (conflicts q p cache nodes caches placement.path) (ready_copies q p cache nodes caches)
          p.capacity_annotation (q.value placement.reserved_size) d.chosen d.first
          (first_listed q p cache nodes caches placement d).0 in
      let all' : filter_nodes q p nodes cache.spec.storage ≡ d.chosen =
        ground (arith, d.pinned, unpinned) in
      let kept : In node (filter_nodes q p nodes cache.spec.storage) = rw all' i in
      let open' : IsOpen q cache (reserved q p cache nodes caches)
          (conflicts q p cache nodes caches placement.path) (ready_copies q p cache nodes caches)
          p.capacity_annotation (q.value placement.reserved_size) n k =
        record {
          unowned = conflicts_from-owned_on cache.uid placement.path n.name [] caches ∙ u;
          advertised = a;
          room = r;
        } in
      let behind = (first_listed q p cache nodes caches placement d).1 _ (
        rank_all-In q cache (reserved q p cache nodes caches)
          (conflicts q p cache nodes caches placement.path) (ready_copies q p cache nodes caches)
          p.capacity_annotation (q.value placement.reserved_size) d.chosen n k
          (rw (← all') (keep-In (is_candidate q p cache.spec.storage) nodes m c)) open') in
      let (existing, more) =
        not_before
          (entry q cache (reserved q p cache nodes caches)
            (conflicts q p cache nodes caches placement.path) (ready_copies q p cache nodes caches)
            p.capacity_annotation node capacity)
          (entry q cache (reserved q p cache nodes caches)
            (conflicts q p cache nodes caches placement.path) (ready_copies q p cache nodes caches)
            p.capacity_annotation n k)
          (rw same at behind) in
      (
        node,
        capacity,
        (In-keep (is_candidate q p cache.spec.storage) nodes kept).0,
        d.named ∙ ap (λ (x : RankedNode q.Quantity). x.node.name) same,
        o.advertised,
        existing,
        more,
      )

  plan_path-ok :
      (path : Str)
      → plan_path p (some cache) ≡ ok path
      → (clean_absolute_path cache.spec.storage.path ≡ ok path)
        × (under_root path p.cache_root ≡ ok tt)
  unfolding plan_path
  plan_path-ok path h = elim (Result-cases (clean_absolute_path cache.spec.storage.path)) [
    | inr (e, bad) ↦ absurd (ground (arith, bad))
    | inl (s, good) ↦ elim (Result-cases (under_root s p.cache_root)) [
      | inr (e, bad) ↦ absurd (ground (arith, good, bad))
      | inl (u, fine) ↦ ground (arith, good, fine)
    ]
  ]

  finish :
      (path : Str) (size : q.Quantity) (first : RankedNode q.Quantity)
      (others : List (RankedNode q.Quantity))
      → cache.spec.storage.type ≡ codes "nodeLocal"
      → clean_absolute_path cache.spec.storage.path ≡ ok path
      → under_root path p.cache_root ≡ ok tt
      → q.parse cache.spec.storage.size ≡ some size
      → pos 0 <ℤ q.sign size
      → cache.spec.storage.node_name ≡ []
      → (y : Node q.Quantity) (ys : List (Node q.Quantity))
      → filter_nodes q p nodes cache.spec.storage ≡ y ∷ ys
      → rank_nodes q cache
          (reserved q p cache nodes caches)
          (conflicts q p cache nodes caches path)
          (ready_copies q p cache nodes caches)
          p.capacity_annotation
          (filter_nodes q p nodes cache.spec.storage)
        ≡ first ∷ others
      → plan_cache q p (some cache) nodes caches
        ≡ ok (placed q p cache nodes caches path size first)
  unfolding plan_cache pin first_ranked
  finish path size first others local good rooted parsed positive unpinned y ys some' ranked =
      ground (arith, local, good, rooted, parsed, positive, unpinned, some', ranked)

  -- `Plan` finds a place: for an unpinned node-local cache with a positive size whose path `PlanPath`
  -- accepts, if a listed node passes the filters, is not owned and has room, then `Plan` returns a
  -- placement.
  pub plan_cache_total :
      (path : Str) (size : q.Quantity) (n : Node q.Quantity) (k : ℤ)
      → cache.spec.storage.type ≡ codes "nodeLocal"
      → plan_path p (some cache) ≡ ok path
      → q.parse cache.spec.storage.size ≡ some size
      → pos 0 <ℤ q.sign size
      → cache.spec.storage.node_name ≡ []
      → In n nodes
      → is_candidate q p cache.spec.storage n ≡ true
      → owned_on cache.uid path n.name caches ≡ false
      → node_cache_capacity q n p.capacity_annotation ≡ some k
      → q.value size ≤ℤ free n k
      → (placement : Placement q.Quantity) × (plan_cache q p (some cache) nodes caches
          ≡ ok placement)
  unfolding conflicting_nodes_for_path lookup rank_nodes
  plan_cache_total path size n k local planned' parsed positive unpinned m c u a r =
      let (good, rooted) = plan_path-ok path planned' in
      let kept = keep-In (is_candidate q p cache.spec.storage) nodes m c in
      let open' : IsOpen q cache (reserved q p cache nodes caches)
          (conflicts q p cache nodes caches path) (ready_copies q p cache nodes caches)
          p.capacity_annotation (q.value size) n k =
        record {
          unowned = conflicts_from-owned_on cache.uid path n.name [] caches ∙ u;
          advertised = a;
          room = r;
        } in
      let listed =
        rank_all-In q cache (reserved q p cache nodes caches)
          (conflicts q p cache nodes caches path) (ready_copies q p cache nodes caches)
          p.capacity_annotation (q.value size) (filter_nodes q p nodes cache.spec.storage) n k kept
          open' in
      let (first, others, sorted) = sorted-ne_nil _ _ listed in
      elim (List-cases (filter_nodes q p nodes cache.spec.storage)) [
        | inl none' ↦ absurd (rw none' at kept)
        | inr (y, ys, some') ↦
            let ranked : rank_nodes q cache (reserved q p cache nodes caches)
                  (conflicts q p cache nodes caches path) (ready_copies q p cache nodes caches)
                  p.capacity_annotation (filter_nodes q p nodes cache.spec.storage)
                ≡ first ∷ others =
              ground (arith, parsed, sorted) in
            (
              _,
              finish path size first others local good rooted parsed positive unpinned y ys some'
                  ranked,
            )
      ]
