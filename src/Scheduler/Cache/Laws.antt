-- ===== src/Scheduler/Cache/Laws.antt =====
-- What `Plan` promises (operator/internal/scheduler/planner.go).
use inferops.Base.{
  List, [], ◌≡◌, ◌∙◌, ap, ◌⊎◌, inl, inr, true, false, some, str_eq, lookup, or_zero, In, All,
  In-keep, arith, ℤ, pos, ◌-64◌, ◌-ℤ◌, ◌+ℤ◌, ◌≤ℤ◌, ◌<ℤ◌, Option-cases, ok, +ℤ_parts, -ℤ_parts,
  -64_exact, InRange,
}
use inferops.Kube.{Quantities, Node}
use inferops.Paths.Defs.{under_root}
use inferops.Scheduler.Cache.Types.{ModelCache, PlannerConfig, Placement}
use inferops.Scheduler.Cache.Reserve.{reserved_bytes_by_node}
use inferops.Scheduler.Cache.Rank.{RankedNode, node_cache_capacity}
use inferops.Scheduler.Cache.Reserved.{
  IsSized, held_on, held_on_nonneg, reserved_from-capped, capped,
}
use inferops.Scheduler.Cache.Ranking.{owned_on, In-rank_all}
use inferops.Scheduler.Cache.Defs.{plan_cache, is_candidate, filter_nodes}
use inferops.Scheduler.Cache.Inversion.{
  clean_absolute_path-ok, conflicts, reserved, ready_copies, planned, first_listed, pin-chosen,
  unowned_of_conflicts,
}

within :
    (capacity size sum : ℤ)
    → InRange size
    → InRange capacity × (pos 0 <ℤ capacity)
    → pos 0 <ℤ size
    → pos 0 ≤ℤ sum
    → size ≤ℤ capacity -64 capped (pos 0 +ℤ sum)
    → sum +ℤ size ≤ℤ capacity
within capacity size sum rs rc positive nonneg room =
    let cap : ℤ = capped (pos 0 +ℤ sum) in
    let exact : capacity -64 cap ≡ capacity -ℤ cap =
      -64_exact capacity cap (ground (arith, +ℤ_parts (pos 0) sum, -ℤ_parts capacity cap)) in
    ground (arith, exact, +ℤ_parts (pos 0) sum, -ℤ_parts capacity cap, +ℤ_parts sum size)

module _ (q : Quantities) (p : PlannerConfig) (cache : ModelCache) (nodes : List (Node q.Quantity))
    (caches : List ModelCache) where
  -- The node of a placement, and the cache capacity that it advertises.
  pub record IsSafe (placement : Placement q.Quantity) (node : Node q.Quantity) (capacity : ℤ)
      : Type 0 where
    pub listed : In node nodes
    pub named : placement.node_name ≡ node.name
    pub candidate : is_candidate q p cache.spec.storage node ≡ true
    pub pinned : (cache.spec.storage.node_name ≡ []) ⊎ (node.name ≡ cache.spec.storage.node_name)
    pub path : placement.path ≡ cache.spec.storage.path
    pub rooted : under_root placement.path p.cache_root ≡ ok tt
    pub unowned : owned_on cache.uid placement.path node.name caches ≡ false
    pub sized : q.parse cache.spec.storage.size ≡ some placement.reserved_size
    pub advertised : node_cache_capacity q node p.capacity_annotation ≡ some capacity
    pub room :
        q.value placement.reserved_size
        ≤ℤ capacity
          -64 or_zero (pos 0) (lookup node.name (reserved_bytes_by_node q caches cache.uid))

  -- A placement is on a listed node that passes every filter, the pinned one if the cache is
  -- pinned; its path is the requested one, lies below the cache root, and is owned by no other
  -- cache on that node; and the node advertises a capacity with room for the parsed size.
  pub plan_cache-IsSafe :
      (placement : Placement q.Quantity)
      → plan_cache q p (some cache) nodes caches ≡ ok placement
      → (node : Node q.Quantity) × (capacity : ℤ) × IsSafe placement node capacity
  plan_cache-IsSafe placement h =
      let d = planned q p cache nodes caches placement h in
      let (node, capacity, m, o, same) =
        In-rank_all q cache (reserved q p cache nodes caches)
          (conflicts q p cache nodes caches placement.path) (ready_copies q p cache nodes caches)
          p.capacity_annotation (q.value placement.reserved_size) d.chosen d.first
          (first_listed q p cache nodes caches placement d).0 in
      let (kept, pinned) =
        pin-chosen q p cache nodes caches cache.spec.storage.node_name
          (filter_nodes q p nodes cache.spec.storage) d.chosen node d.pinned m in
      let (listed, candidate) = In-keep (is_candidate q p cache.spec.storage) nodes kept in
      (
        node,
        capacity,
        record {
          listed = listed;
          named = d.named ∙ ap (λ (r : RankedNode q.Quantity). r.node.name) same;
          candidate = candidate;
          pinned = pinned;
          path = clean_absolute_path-ok cache.spec.storage.path placement.path d.path;
          rooted = d.rooted;
          unowned = unowned_of_conflicts q p cache nodes caches placement.path node.name o.unowned;
          sized = d.parsed;
          advertised = o.advertised;
          room = o.room;
        },
      )

  capacity_range :
      (node : Node q.Quantity) (capacity : ℤ)
      → node_cache_capacity q node p.capacity_annotation ≡ some capacity
      → InRange capacity × (pos 0 <ℤ capacity)
  unfolding node_cache_capacity
  capacity_range node capacity h =
      elim (Option-cases (lookup p.capacity_annotation node.annotations)) [
        | inl e ↦ absurd (ground (arith, e))
        | inr (text, e) ↦ elim (Option-cases (q.parse text)) [
          | inl bad ↦ absurd (ground (arith, e, bad))
          | inr (quantity, parsed) ↦
              ground (arith, e, parsed, q.value-InRange quantity, q.value_positive quantity)
        ]
      ]

  reserved-capped :
      (node : Node q.Quantity)
      → All (IsSized q cache.uid) caches
      → or_zero (pos 0) (lookup node.name (reserved_bytes_by_node q caches cache.uid))
        ≡ capped (pos 0 +ℤ held_on q cache.uid node.name caches)
  unfolding reserved_bytes_by_node lookup
  reserved-capped node s =
      reserved_from-capped q cache.uid node.name [] caches s (omega arith) (omega arith)

  -- No over-commitment: if no other cache holds a negative number of bytes, then what the others
  -- hold on the node of a placement, summed up exactly, and the requested size together are within
  -- the capacity that the node advertises, however large the sum is.
  pub plan_cache-no_overcommit :
      (placement : Placement q.Quantity)
      → All (IsSized q cache.uid) caches
      → plan_cache q p (some cache) nodes caches ≡ ok placement
      → (node : Node q.Quantity) × (capacity : ℤ) × In node nodes
        × (placement.node_name ≡ node.name)
        × (node_cache_capacity q node p.capacity_annotation ≡ some capacity)
        × (held_on q cache.uid node.name caches +ℤ q.value placement.reserved_size ≤ℤ capacity)
  plan_cache-no_overcommit placement s h =
      let (node, capacity, safe) = plan_cache-IsSafe placement h in
      (
        node,
        capacity,
        safe.listed,
        safe.named,
        safe.advertised,
        within capacity (q.value placement.reserved_size) (held_on q cache.uid node.name caches)
            (q.value-InRange placement.reserved_size) (capacity_range node capacity safe.advertised)
            (q.value_positive placement.reserved_size
              (planned q p cache nodes caches placement h).positive)
            (held_on_nonneg q cache.uid node.name caches s)
            (rw (reserved-capped node s) at safe.room),
      )
