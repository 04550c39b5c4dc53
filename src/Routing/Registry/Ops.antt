-- ===== src/Routing/Registry/Ops.antt =====
-- The operations of `MemoryRegistry` (gateway/internal/routing/router.go). An operation that writes
-- the registry returns the new one; the lock makes each a single step.
use inferops.Base.{
  List, [], ◌∷◌, ◌++◌, Bool, ◌||◌, if◌then◌else◌, Option, none, some, Str, ◌==◌, str_eq, pair_eq,
  nat_eq, is_empty, codes, has_prefix, trim_prefix, trim_space, ℤ, insert, delete, keep, any,
  Result, ok, err,
}
use inferops.RoutingPath.Clean.{slash}
use inferops.RoutingPath.Defs.{normalize}
use inferops.Routing.Types.{unavailable, Backend, zero_backend, identity, is_ready}
use inferops.Routing.Normalize.{BackendError, duplicate_backend, normalize_backend}
use inferops.Routing.Registry.Defs.{
  Scores, MemoryRegistry, candidates_at, sort_backends, rebuild_prefixes,
}
use inferops.Routing.Registry.Weighted.{
  weighted_backend, no_positive_weight_from, can_serve, route_weighted, least_loaded_of,
}

-- What `selectBackendLocked` does with the ready candidates; `first` is `candidates[0]`.
unfoldable pub select_ready :
    Str
    → Backend
    → List Backend
    → Option (Backend → ℤ)
    → List Backend
    → MemoryRegistry
    → Backend × MemoryRegistry
select_ready prefix first candidates load [] r = (no_positive_weight_from first candidates, r)
select_ready prefix first candidates load (c ∷ []) r = (c, r)
select_ready prefix first candidates none (c ∷ d ∷ cs) r = weighted_backend prefix (c ∷ d ∷ cs) r
select_ready prefix first candidates (some load) (c ∷ d ∷ cs) r =
    if route_weighted (c ∷ d ∷ cs)
    then weighted_backend prefix (c ∷ d ∷ cs) r
    else weighted_backend prefix (least_loaded_of load (c ∷ d ∷ cs)) r

select_among : Str → Option (Backend → ℤ) → List Backend → MemoryRegistry → Backend × MemoryRegistry
unfolding select_ready
select_among prefix load [] r = (zero_backend, r)
select_among prefix load (c ∷ cs) r =
    select_ready prefix c (c ∷ cs) load (keep can_serve (c ∷ cs)) r

-- `selectBackendLocked`.
unfoldable pub select_backend :
    Str → Option (Backend → ℤ) → MemoryRegistry → Backend × MemoryRegistry
unfolding select_among
select_backend prefix load r = select_among prefix load (candidates_at prefix r.routes) r

-- Whether a request path lies under a prefix, cut at a segment boundary.
abbrev pub covers : Str → Str → Bool
covers path prefix = path == prefix || has_prefix path (prefix ++ slash ∷ [])

abbrev pub upstream_path : Str → Str → Str
upstream_path path prefix =
    let rest = trim_prefix path prefix in if is_empty rest then slash ∷ [] else rest

-- The loop over the prefixes.
unfoldable pub first_cover : Str → List Str → Option Str
first_cover path [] = none
first_cover path (prefix ∷ more) = if covers path prefix then some prefix else first_cover path more

-- `Select`: the backend and the upstream path, or none. `Lookup` passes no load.
unfoldable pub select :
    Str → Option (Backend → ℤ) → MemoryRegistry → Option (Backend × Str) × MemoryRegistry
select path load r = elim (first_cover path r.prefixes) [
  | none ↦ (none, r)
  | some prefix ↦
      let (backend, r') = select_backend prefix load r in
      (some (backend, upstream_path path prefix), r')
]

unfoldable pub find_route : Str → MemoryRegistry → Option (Backend × Str) × MemoryRegistry
unfolding select
find_route path r = select path none r

-- The loop of `Upsert`: the candidate with the same identity is replaced, or the backend appended.
unfoldable pub upsert_candidate : Backend → List Backend → List Backend
upsert_candidate b [] = b ∷ []
upsert_candidate b (c ∷ cs) = if identity c == identity b then b ∷ cs else c ∷ upsert_candidate b cs

unfoldable pub upsert_normalized : Backend → MemoryRegistry → MemoryRegistry
unfolding upsert_candidate
upsert_normalized b r = rebuild_prefixes (record r {
  routes =
      insert b.route_prefix
        (sort_backends (upsert_candidate b (candidates_at b.route_prefix r.routes))) r.routes;
})

unfoldable pub upsert : Backend → MemoryRegistry → Result BackendError MemoryRegistry
unfolding upsert_normalized
upsert backend r = elim (normalize_backend backend) [
  | err e ↦ err e
  | ok b ↦ ok (upsert_normalized b r)
]

-- `normalizeRoutePrefix`: the empty string for an invalid prefix.
unfoldable pub normalize_route_prefix : Str → Str
normalize_route_prefix prefix = elim (normalize prefix) [ ok n ↦ n | err e ↦ [] ]

unfoldable pub delete_route : Str → MemoryRegistry → MemoryRegistry
unfolding normalize_route_prefix
delete_route route_prefix r =
    let prefix = normalize_route_prefix route_prefix in
    rebuild_prefixes (record r { routes = delete prefix r.routes; rr = delete prefix r.rr })

unfoldable pub backends_of : List (Str × List Backend) → List Str → List Backend
backends_of routes [] = []
backends_of routes (prefix ∷ more) = candidates_at prefix routes ++ backends_of routes more

unfoldable pub backends : MemoryRegistry → List Backend
unfolding backends_of
backends r = backends_of r.routes r.prefixes

-- One round of the loop of `Replace` behind `normalizeBackend`: the backends by prefix, and the
-- errors so far. What `seen` holds of a prefix is the identities of the backends grouped there.
unfoldable pub group_result :
    List (Str × List Backend)
    → List BackendError
    → Result BackendError Backend
    → List (Str × List Backend) × List BackendError
group_result grouped errs (err e) = (grouped, errs ++ e ∷ [])
group_result grouped errs (ok b) =
    let old = candidates_at b.route_prefix grouped in
    if any (λ c. identity c == identity b) old
    then (grouped, errs ++ duplicate_backend ∷ [])
    else (insert b.route_prefix (old ++ b ∷ []) grouped, errs)

unfoldable pub group_one :
    List (Str × List Backend) × List BackendError
    → Backend
    → List (Str × List Backend) × List BackendError
unfolding group_result
group_one acc backend = group_result acc.0 acc.1 (normalize_backend backend)

unfoldable pub group :
    List (Str × List Backend) × List BackendError
    → List Backend
    → List (Str × List Backend) × List BackendError
group acc [] = acc
group acc (b ∷ bs) = group (group_one acc b) bs

unfoldable pub sort_routes : List (Str × List Backend) → List (Str × List Backend)
sort_routes [] = []
sort_routes ((prefix, candidates) ∷ more) = (prefix, sort_backends candidates) ∷ sort_routes more

-- What `pruneRoundRobinLocked` keeps of the scores of a prefix with these candidates.
unfoldable pub prune_scores : List Backend → Scores → Option Scores
prune_scores [] scores = none
prune_scores (c ∷ cs) scores =
    some (keep (λ entry. any (λ b. identity b == entry.0) (c ∷ cs)) scores)

abbrev pub cons_if_some : Str → Option Scores → List (Str × Scores) → List (Str × Scores)
cons_if_some prefix none rest = rest
cons_if_some prefix (some scores) rest = (prefix, scores) ∷ rest

-- `pruneRoundRobinLocked`.
unfoldable pub prune_round_robin :
    List (Str × List Backend) → List (Str × Scores) → List (Str × Scores)
unfolding prune_scores
prune_round_robin routes [] = []
prune_round_robin routes ((prefix, scores) ∷ more) =
    cons_if_some prefix (prune_scores (candidates_at prefix routes) scores)
      (prune_round_robin routes more)

-- `Replace`: the new registry, and the errors that it joins (none of them: nil).
unfoldable pub replace : List Backend → MemoryRegistry → MemoryRegistry × List BackendError
replace bs r =
    let (grouped, errs) = group ([], []) bs in
    let routes = sort_routes grouped in
    (rebuild_prefixes (record r { routes = routes; rr = prune_round_robin routes r.rr }), errs)

unfoldable pub mark_backend : Str → Backend → Backend
mark_backend message b =
    if is_ready b.state
    then record b { state = unavailable; endpoint = none; message = message }
    else b

unfoldable pub mark_all : Str → List Backend → List Backend
mark_all message [] = []
mark_all message (b ∷ bs) = mark_backend message b ∷ mark_all message bs

unfoldable pub mark_routes : Str → List (Str × List Backend) → List (Str × List Backend)
mark_routes message [] = []
mark_routes message ((prefix, bs) ∷ more) = (prefix, mark_all message bs) ∷ mark_routes message more

unfoldable pub mark_ready_unavailable : Str → MemoryRegistry → MemoryRegistry
mark_ready_unavailable message r =
    let text =
      if is_empty (trim_space message) then codes "model registry is unavailable" else message in
    record r { routes = mark_routes text r.routes }
