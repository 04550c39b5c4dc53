-- ===== src/Scheduler/Cache/Reserve.antt =====
-- What the other caches hold: `reservedBytesByNode`, `conflictingNodesForPath` and
-- `collectReadyCopyNodes` (operator/internal/scheduler/planner.go).
use mathlib.Core.Option
use inferops.Base.{
  List, [], ◌∷◌, Bool, true, not, ◌&&◌, ◌||◌, if◌then◌else◌, Option, none, some, Str, ◌==◌, str_eq,
  is_empty, lookup, insert, or_zero, ℤ, pos, ltb_ℤ, int64_max, ◌+64◌, ◌-64◌,
}
use inferops.Kube.{Quantities}
use inferops.Scheduler.Cache.Types.{
  ModelCache, is_failed, is_ready_phase, cache_condition_true, cache_condition_downloaded,
  cache_condition_ready, effective_revision,
}

-- A failed cache that was never downloaded holds nothing.
unfoldable pub is_abandoned : ModelCache → Bool
unfolding cache_condition_true
is_abandoned cache =
    is_failed cache.status.phase
    && not (cache_condition_true cache.status.conditions cache_condition_downloaded)

-- The sum, or the largest `int64` in place of an overflow.
unfoldable pub add_saturating : ℤ → ℤ → ℤ
unfolding ◌+64◌ ◌-64◌
add_saturating current value =
    if ltb_ℤ (int64_max -64 current) value then int64_max else current +64 value

module _ (q : Quantities) where
  open q use {Quantity, parse, sign, value}

  -- The size in the status if it is a positive quantity, else the size in the spec.
  unfoldable pub held_size : ModelCache → Option Quantity
  held_size cache = elim (parse cache.status.reserved_size) [
    | none ↦ parse cache.spec.storage.size
    | some size ↦ if ltb_ℤ (pos 0) (sign size) then some size else parse cache.spec.storage.size
  ]

  -- What one round of the loop adds to the node of the cache.
  unfoldable pub held : Str → ModelCache → Option ℤ
  unfolding held_size is_abandoned
  held self_uid cache =
      if cache.uid == self_uid || is_empty cache.status.node_name || is_abandoned cache
      then none
      else Option.map value (held_size cache)

  unfoldable pub reserve : Str → List (Str × ℤ) → ModelCache → List (Str × ℤ)
  unfolding held add_saturating
  reserve self_uid reserved cache = elim (held self_uid cache) [
    | none ↦ reserved
    | some bytes ↦
        let node = cache.status.node_name in
        insert node (add_saturating (or_zero (pos 0) (lookup node reserved)) bytes) reserved
  ]

  unfoldable pub reserved_from : Str → List (Str × ℤ) → List ModelCache → List (Str × ℤ)
  unfolding reserve
  reserved_from self_uid reserved [] = reserved
  reserved_from self_uid reserved (cache ∷ caches) =
      reserved_from self_uid (reserve self_uid reserved cache) caches

  unfoldable pub reserved_bytes_by_node : List ModelCache → Str → List (Str × ℤ)
  unfolding reserved_from
  reserved_bytes_by_node caches self_uid = reserved_from self_uid [] caches

-- Whether another cache owns the path on its node.
unfoldable pub owns_path : Str → Str → ModelCache → Bool
unfolding is_abandoned
owns_path self_uid path cache =
    not
      (cache.uid == self_uid || is_empty cache.status.node_name || not (cache.status.path == path))
    && not (is_abandoned cache)

unfoldable pub conflicts_from : Str → Str → List (Str × Bool) → List ModelCache → List (Str × Bool)
unfolding owns_path
conflicts_from self_uid path conflicts [] = conflicts
conflicts_from self_uid path conflicts (cache ∷ caches) =
    conflicts_from self_uid path
      (if owns_path self_uid path cache
        then insert cache.status.node_name true conflicts
        else conflicts)
      caches

unfoldable pub conflicting_nodes_for_path : List ModelCache → Str → Str → List (Str × Bool)
unfolding conflicts_from
conflicting_nodes_for_path caches self_uid path = conflicts_from self_uid path [] caches

-- Whether a cache is a verified copy of the requested model.
unfoldable pub is_ready_copy : ModelCache → ModelCache → Bool
unfolding cache_condition_true effective_revision
is_ready_copy requested cache = not (
    is_empty cache.status.node_name
    || not (is_ready_phase cache.status.phase)
    || not (cache_condition_true cache.status.conditions cache_condition_ready)
    || not (cache.spec.model_repo == requested.spec.model_repo)
    || not (effective_revision cache == effective_revision requested))

unfoldable pub ready_copies_from :
    ModelCache → List (Str × Bool) → List ModelCache → List (Str × Bool)
unfolding is_ready_copy
ready_copies_from requested nodes [] = nodes
ready_copies_from requested nodes (cache ∷ caches) =
    ready_copies_from requested
      (if is_ready_copy requested cache then insert cache.status.node_name true nodes else nodes)
      caches

unfoldable pub collect_ready_copy_nodes : ModelCache → List ModelCache → List (Str × Bool)
unfolding ready_copies_from
collect_ready_copy_nodes requested caches = ready_copies_from requested [] caches
