-- ===== src/Tests/Registry.antt =====
-- A registry with two routes, one below the other.
use inferops.Base.{
  ◌≤◌, List, [], ◌∷◌, ◌++◌, ◌≡◌, refl, true, false, inl, inr, none, some, Str, str_eq, pair_eq,
  trim_prefix, contains_any, codes, length, has_prefix, trim_suffix_byte, trim_space, In, keys,
  lookup, insert, sort_by, insert_by, str_lt, ok, ℤ, pos, ◌≤ℤ◌, keep,
}
use inferops.RoutingPath.Clean.{clean, slash}
use inferops.RoutingPath.Defs.{normalize, reserved_by}
use inferops.Routing.Types.{Backend, ready, is_ready}
use inferops.Routing.Normalize.{normalize_backend, normalize_traffic_policy}
use inferops.Routing.Normalize.Laws.{IsNormal, normalize_backend-IsNormal}
use inferops.Routing.Registry.Defs.{
  MemoryRegistry, new_memory_registry, prefix_less, sort_backends, rebuild_prefixes, candidates_at,
}
use inferops.Routing.Registry.Weighted.{can_serve, route_weighted}
use inferops.Routing.Registry.Ops.{
  covers, select, select_backend, first_cover, replace, group, group_one, sort_routes,
  prune_round_robin, mark_ready_unavailable, mark_routes, mark_all, mark_backend,
}
use inferops.Routing.Select.Prefixes.{select-longest, IsUpstream}
use inferops.Routing.Select.Serving.{select_backend-serves, select_backend-least_loaded}
use inferops.Routing.Invariant.Reserved.{select-not_reserved}
use inferops.Routing.Invariant.Reach.{
  IsWellFormed, Operation, mark_op, replace_op, apply_all, apply_all-IsWellFormed,
}
use inferops.Routing.Invariant.Stale.{mark-select_not_ready}
use inferops.Routing.Invariant.Publish.{replace_complete}
use inferops.Tests.Fixtures.{backend_of}

abbrev outer : Backend
outer = backend_of (codes "o") (codes "/m") ready 1

abbrev inner : Backend
inner = backend_of (codes "i") (codes "/m/n") ready 1

abbrev given : List Backend
given = outer ∷ inner ∷ []

abbrev registry : MemoryRegistry
registry = record {
  routes = (codes "/m", outer ∷ []) ∷ (codes "/m/n", inner ∷ []) ∷ [];
  prefixes = codes "/m/n" ∷ codes "/m" ∷ [];
  rr = [];
}

normalize_backend_test : normalize_backend outer ≡ ok outer
unfolding normalize_backend normalize normalize_traffic_policy trim_space has_prefix
    trim_suffix_byte clean reserved_by contains_any
normalize_backend_test = refl

normalize_backend-IsNormal_example : IsNormal outer
normalize_backend-IsNormal_example = normalize_backend-IsNormal outer outer normalize_backend_test

sorted_test : registry.prefixes ≡ sort_by prefix_less (keys registry.routes)
unfolding sort_by insert_by prefix_less str_lt
sorted_test = refl

abbrev request_path : Str
request_path = codes "/m/n/x"

select_test : (select request_path none registry).0 ≡ some (inner, codes "/x")
unfolding select select_backend first_cover has_prefix can_serve lookup trim_prefix
select_test = refl

select-longest_example :
    (prefix : Str) × In prefix (keys registry.routes)
    × (covers request_path prefix ≡ true)
    × ((p : Str)
        → In p (keys registry.routes)
        → covers request_path p ≡ true
        → length p ≤ length prefix)
    × (inner ≡ (select_backend prefix none registry).0)
    × IsUpstream request_path prefix (codes "/x")
select-longest_example =
    select-longest request_path none registry inner (codes "/x") sorted_test select_test

outer_listed : In outer (candidates_at (codes "/m") registry.routes)
unfolding lookup
outer_listed = inl refl

outer_serves : can_serve outer ≡ true
unfolding can_serve
outer_serves = refl

select_backend-serves_example :
    In (select_backend (codes "/m") none registry).0 (candidates_at (codes "/m") registry.routes)
    × (can_serve (select_backend (codes "/m") none registry).0 ≡ true)
select_backend-serves_example =
    select_backend-serves (codes "/m") none registry outer outer_listed outer_serves

select_backend_test : is_ready (select_backend (codes "/m") none registry).0.state ≡ true
unfolding select_backend can_serve lookup
select_backend_test = refl

abbrev no_load : Backend → ℤ
no_load b = pos 0

unweighted : route_weighted (keep can_serve (candidates_at (codes "/m") registry.routes)) ≡ false
unfolding route_weighted can_serve lookup
unweighted = refl

select_backend-least_loaded_example :
    no_load (select_backend (codes "/m") (some no_load) registry).0 ≤ℤ no_load outer
select_backend-least_loaded_example =
    select_backend-least_loaded (codes "/m") no_load registry outer unweighted outer_listed
      outer_serves

abbrev history : List Operation
history = replace_op given ∷ mark_op [] ∷ []

apply_all-IsWellFormed_example : IsWellFormed (apply_all history new_memory_registry)
apply_all-IsWellFormed_example = apply_all-IsWellFormed history

select-not_reserved_example :
    (select (slash ∷ codes "metrics" ++ codes "/x") none (apply_all history new_memory_registry)).0
    ≡ none
select-not_reserved_example =
    select-not_reserved history none (codes "metrics") (codes "/x") (inr (inr refl))
      (inr (codes "x", refl))

closed_test :
    (b : Backend) × ((select (codes "/m") none (mark_ready_unavailable [] registry)).0
      ≡ some (b, slash ∷ []))
unfolding select select_backend first_cover can_serve lookup mark_ready_unavailable mark_routes
    mark_all mark_backend trim_space has_prefix trim_prefix
closed_test = (_, refl)

mark-select_not_ready_example : is_ready closed_test.0.state ≡ false
mark-select_not_ready_example =
    mark-select_not_ready [] (codes "/m") (slash ∷ []) none registry closed_test.0 closed_test.1

replace_test : replace given new_memory_registry ≡ (registry, [])
unfolding replace group group_one normalize_backend normalize normalize_traffic_policy trim_space
    has_prefix trim_suffix_byte clean reserved_by contains_any sort_routes sort_backends sort_by
    insert_by prefix_less str_lt rebuild_prefixes prune_round_robin insert lookup
replace_test = refl

replace_complete_example :
    (n : Backend) × (normalize_backend outer ≡ ok n)
    × In n (candidates_at n.route_prefix (replace given new_memory_registry).0.routes)
replace_complete_example =
    replace_complete given new_memory_registry outer (rw replace_test refl) (inl refl)
