-- ===== src/Scheduler/Cache/Defs.antt =====
-- `NewCachePlanner`, `Plan` and `PlanPath` (operator/internal/scheduler/planner.go).
use inferops.Base.{
  List, [], ◌∷◌, Bool, true, false, not, ◌&&◌, if◌then◌else◌, Option, none, some, Str, ◌==◌, str_eq,
  is_empty, codes, lookup, or_zero, keep, find, pos, ltb_ℤ, Result, ok, err, ◌>>=◌, ◌>>◌, fail_if,
  for_each,
}
use inferops.Kube.{Quantities, NameRules, Node}
use inferops.RoutingPath.Clean.{slash}
use inferops.Paths.Defs.{RootError, clean_absolute_path, under_root}
use inferops.Scheduler.Nodes.{
  is_node_eligible_for_cache, node_matches_selector, has_untolerated_scheduling_taint,
}
use inferops.Scheduler.Cache.Types.{
  CacheStorage, ModelCache, PlannerConfig, Placement, CacheError, cache_required, invalid_path,
  root_is_filesystem_root, invalid_annotation, invalid_selector_key, invalid_selector_value,
  invalid_resource, unsupported_storage, invalid_size, size_not_positive, no_eligible_node,
  pinned_node_unavailable, insufficient_capacity, path_conflict,
}
use inferops.Scheduler.Cache.Reserve.{
  reserved_bytes_by_node, conflicting_nodes_for_path, collect_ready_copy_nodes,
}
use inferops.Scheduler.Cache.Rank.{RankedNode, rank_nodes}

abbrev pub path_checked {ℓ} : {A : Type ℓ} → Result RootError A → Result CacheError A
path_checked (ok a) = ok a
path_checked (err e) = err (invalid_path e)

unfoldable pub new_cache_planner : NameRules → PlannerConfig → Result CacheError PlannerConfig
new_cache_planner rules config = do
  cache_root ← path_checked (clean_absolute_path config.cache_root)
  fail_if (cache_root == slash ∷ []) root_is_filesystem_root
  let annotation =
      if is_empty config.capacity_annotation
      then codes "inferops.dev/cache-capacity"
      else config.capacity_annotation
  fail_if (not (rules.is_qualified_name annotation)) invalid_annotation
  for_each
      (λ entry.
        fail_if (not (rules.is_qualified_name entry.0)) invalid_selector_key
        >> fail_if (not (rules.is_valid_label_value entry.1)) invalid_selector_value)
      config.node_selector
  for_each (λ name. fail_if (not (rules.is_qualified_name name)) invalid_resource)
      config.required_resources
  ok (record config { cache_root = cache_root; capacity_annotation = annotation })

-- `PlanPath`.
unfoldable pub plan_path : PlannerConfig → Option ModelCache → Result CacheError Str
plan_path p none = err cache_required
plan_path p (some cache) = do
  path ← path_checked (clean_absolute_path cache.spec.storage.path)
  path_checked (under_root path p.cache_root)
  ok path

module _ (q : Quantities) where
  open q use {Quantity, parse, sign}

  unfoldable pub node_has_required_resources : Node Quantity → List Str → Bool
  node_has_required_resources node [] = true
  node_has_required_resources node (name ∷ names) =
      let rest = node_has_required_resources node names in
      elim (lookup name node.allocatable) [
        | none ↦ false
        | some quantity ↦ if not (ltb_ℤ (pos 0) (sign quantity)) then false else rest
      ]

  -- Whether the loop of `filterNodes` keeps a node.
  unfoldable pub is_candidate : PlannerConfig → CacheStorage → Node Quantity → Bool
  unfolding node_has_required_resources
  is_candidate p storage node =
      is_node_eligible_for_cache node
      && node_matches_selector node p.node_selector
      && node_matches_selector node storage.node_selector
      && not (has_untolerated_scheduling_taint node storage.tolerations)
      && node_has_required_resources node p.required_resources

  abbrev pub filter_nodes :
      PlannerConfig → List (Node Quantity) → CacheStorage → List (Node Quantity)
  filter_nodes p nodes storage = keep (is_candidate p storage) nodes

  -- The candidates left by the pin of the cache, if it has one.
  unfoldable pub pin : Str → List (Node Quantity) → Result CacheError (List (Node Quantity))
  pin [] candidates = ok candidates
  pin (c ∷ name) candidates = elim (find (λ node. node.name == c ∷ name) candidates) [
    | none ↦ err pinned_node_unavailable
    | some node ↦ ok (node ∷ [])
  ]

  unfoldable pub first_ranked :
      Str → Quantity → List (RankedNode Quantity) → Result CacheError (Placement Quantity)
  first_ranked path size [] = err insufficient_capacity
  first_ranked path size (selected ∷ _) = ok (record {
    node_name = selected.node.name;
    node_uid = selected.node.uid;
    path = path;
    reserved_size = size;
  })

  abbrev parsed_size : Option Quantity → Result CacheError Quantity
  parsed_size none = err invalid_size
  parsed_size (some size) = ok size

  abbrev no_candidates : List (Node Quantity) → Bool
  no_candidates [] = true
  no_candidates (_ ∷ _) = false

  -- `Plan`; `none` for the cache is a nil pointer.
  unfoldable pub plan_cache :
      PlannerConfig
      → Option ModelCache
      → List (Node Quantity)
      → List ModelCache
      → Result CacheError (Placement Quantity)
  plan_cache p none nodes caches = err cache_required
  plan_cache p (some cache) nodes caches = do
    let storage = cache.spec.storage
    fail_if (not (storage.type == codes "nodeLocal")) unsupported_storage
    path ← path_checked (clean_absolute_path storage.path)
    path_checked (under_root path p.cache_root)
    size ← parsed_size (parse storage.size)
    fail_if (not (ltb_ℤ (pos 0) (sign size))) size_not_positive
    let candidates = filter_nodes p nodes storage
    fail_if (no_candidates candidates) no_eligible_node
    chosen ← pin storage.node_name candidates
    let conflicts = conflicting_nodes_for_path caches cache.uid path
    fail_if (not (is_empty storage.node_name) && or_zero false (lookup storage.node_name conflicts))
        path_conflict
    first_ranked path size (
        rank_nodes q cache (reserved_bytes_by_node q caches cache.uid) conflicts
          (collect_ready_copy_nodes cache caches) p.capacity_annotation chosen)
