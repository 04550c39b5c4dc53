-- ===== src/Validation/Caches.antt =====
-- A validated cache meets only the limits of the cluster (operator/internal/validation/validation.go,
-- operator/internal/scheduler/planner.go).
use inferops.Base.{
  List, [], ◌∷◌, ◌≡◌, ◌⊎◌, inl, inr, true, some, Str, ◌==◌, str_eq, codes, pos, ◌<ℤ◌, arith,
  Option-cases, Result-cases, ok, err, List-cases,
}
use inferops.Kube.{Quantities, NameRules, ObjectRules, Node}
use inferops.Paths.Defs.{not_under_root, clean_absolute_path, under_root}
use inferops.Scheduler.Cache.Types.{
  ModelCache, PlannerConfig, CacheError, invalid_path, no_eligible_node, pinned_node_unavailable,
  insufficient_capacity, path_conflict,
}
use inferops.Scheduler.Cache.Reserve.{
  reserved_bytes_by_node, conflicting_nodes_for_path, collect_ready_copy_nodes,
}
use inferops.Scheduler.Cache.Rank.{rank_nodes}
use inferops.Scheduler.Cache.Defs.{plan_cache, filter_nodes, pin, first_ranked}
use inferops.Scheduler.Cache.Inversion.{clean_absolute_path-ok}
use inferops.Validation.Resources.{NamedCache, validate_model_cache}

-- What a cache that is well formed may still meet.
abbrev pub IsClusterLimit : CacheError → Type 0
IsClusterLimit e =
    (e ≡ invalid_path not_under_root)
    ⊎ (e ≡ no_eligible_node)
    ⊎ (e ≡ pinned_node_unavailable)
    ⊎ (e ≡ insufficient_capacity)
    ⊎ (e ≡ path_conflict)

under_root-error :
    (path root : Str) → (under_root path root ≡ ok tt) ⊎ (under_root path root ≡ err not_under_root)
unfolding under_root
under_root-error path root = ground arith

module _ (q : Quantities) (rules : NameRules) (objects : ObjectRules) where
  validate_model_cache-parts :
      (c : NamedCache)
      → validate_model_cache q rules objects c ≡ ok tt
      → (c.cache.spec.storage.type == codes "nodeLocal" ≡ true)
        × (clean_absolute_path c.cache.spec.storage.path ≡ ok c.cache.spec.storage.path)
        × ((size : q.Quantity) × (q.parse c.cache.spec.storage.size ≡ some size)
            × (pos 0 <ℤ q.sign size))
  unfolding validate_model_cache
  validate_model_cache-parts c h = elim (Option-cases (q.parse c.cache.spec.storage.size)) [
    | inl f ↦ absurd (ground (arith, h, f))
    | inr (size, f) ↦ elim (Result-cases (clean_absolute_path c.cache.spec.storage.path)) [
      | inr (x, e) ↦ absurd (ground (arith, h, e, f))
      | inl (path, e) ↦ (
        ground (arith, h, e, f),
        ground (arith, e, clean_absolute_path-ok c.cache.spec.storage.path path),
        (size, f, ground (arith, h, e, f)),
      )
    ]
  ]

  pin-error :
      (name : Str) (candidates : List (Node q.Quantity)) (e : CacheError)
      → pin q name candidates ≡ err e
      → e ≡ pinned_node_unavailable
  unfolding pin
  pin-error [] candidates e h = cc
  pin-error (a ∷ name) candidates e h = ground (arith, h)

  -- For a cache that passes its validation, the planner finds no fault with the cache itself: if it
  -- has no placement, the path is not below the root, no node is eligible, the pinned node is not
  -- available, or none has room or a free path.
  pub validated-IsClusterLimit :
      (c : NamedCache) (p : PlannerConfig) (nodes : List (Node q.Quantity))
      (caches : List ModelCache) (e : CacheError)
      → validate_model_cache q rules objects c ≡ ok tt
      → plan_cache q p (some c.cache) nodes caches ≡ err e
      → IsClusterLimit e
  unfolding plan_cache first_ranked
  validated-IsClusterLimit c p nodes caches e valid h =
      let storage = c.cache.spec.storage in
      let (type, path, (size, parsed, positive)) = validate_model_cache-parts c valid in
      elim (under_root-error storage.path p.cache_root) [
        | inr out ↦ ground (arith, h, type, path, out)
        | inl under ↦
            elim (Result-cases (pin q storage.node_name (filter_nodes q p nodes storage))) [
              | inr (x, bad) ↦ ground (
                arith,
                h,
                type,
                path,
                parsed,
                positive,
                under,
                bad,
                pin-error storage.node_name (filter_nodes q p nodes storage) x,
              )
              | inl (chosen, pinned) ↦
                  elim (List-cases (
                    rank_nodes q c.cache (reserved_bytes_by_node q caches c.cache.uid)
                      (conflicting_nodes_for_path caches c.cache.uid storage.path)
                      (collect_ready_copy_nodes c.cache caches) p.capacity_annotation chosen)) [
                        | inl bad ↦
                            ground (arith, h, type, path, parsed, positive, under, pinned, bad)
                        | inr (x, xs, ranked) ↦
                            ground (arith, h, type, path, parsed, positive, under, pinned, ranked)
                      ]
            ]
      ]
