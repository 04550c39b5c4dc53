-- ===== src/Routing/Registry/Weighted.antt =====
-- Which of the ready backends of a route is taken: `weightedBackendLocked`, `effectiveWeight`,
-- `routeStrategy` and the loops of `selectBackendLocked` (gateway/internal/routing/router.go).
use inferops.Base.{
  List, [], ◌∷◌, ◌++◌, Bool, ◌&&◌, if◌then◌else◌, none, Str, str_eq, pair_eq, nat_eq, codes, ℤ, pos,
  ltb_ℤ, eqb_ℤ, ◌+64◌, ◌-64◌, lookup, insert, or_zero, any,
}
use inferops.Routing.Types.{
  unavailable, Backend, zero_backend, effective_weight, BackendKey, identity, is_ready, is_weighted,
}
use inferops.Routing.Registry.Defs.{Scores, MemoryRegistry}

abbrev pub score_of : BackendKey → Scores → ℤ
score_of key scores = or_zero (pos 0) (lookup key scores)

-- The first loop of `weightedBackendLocked`.
unfoldable pub add_weights : Scores → ℤ → List Backend → Scores × ℤ
add_weights scores total [] = (scores, total)
add_weights scores total (c ∷ cs) =
    add_weights (insert (identity c) (score_of (identity c) scores +64 effective_weight c) scores)
      (total +64 effective_weight c) cs

-- The second loop: the first of the highest scores.
unfoldable pub highest : Scores → Backend → List Backend → Backend
highest scores chosen [] = chosen
highest scores chosen (c ∷ cs) =
    highest scores
      (if ltb_ℤ (score_of (identity chosen) scores) (score_of (identity c) scores)
        then c
        else chosen)
      cs

-- `weightedBackendLocked` at two candidates or more, on the scores of its prefix.
unfoldable pub weighted_pick : Scores → Backend → List Backend → Backend × Scores
weighted_pick scores first others =
    let (added, total) = add_weights scores (pos 0) (first ∷ others) in
    let chosen = highest added first others in
    (chosen, insert (identity chosen) (score_of (identity chosen) added -64 total) added)

-- `weightedBackendLocked`. It indexes an empty slice for no candidate, which no caller passes.
unfoldable pub weighted_backend : Str → List Backend → MemoryRegistry → Backend × MemoryRegistry
unfolding weighted_pick
weighted_backend prefix [] r = (zero_backend, r)
weighted_backend prefix (c ∷ []) r = (c, r)
weighted_backend prefix (c ∷ d ∷ cs) r =
    let (chosen, scores) = weighted_pick (or_zero [] (lookup prefix r.rr)) c (d ∷ cs) in
    (chosen, record r { rr = insert prefix scores r.rr })

unfoldable pub no_positive_weight_from : Backend → List Backend → Backend
no_positive_weight_from first [] = first
no_positive_weight_from first (c ∷ cs) =
    if is_ready c.state
    then record c {
      state = unavailable;
      endpoint = none;
      message = codes "model route has no positive traffic weight";
    }
    else no_positive_weight_from first cs

unfoldable pub can_serve : Backend → Bool
can_serve c = is_ready c.state && ltb_ℤ (pos 0) (effective_weight c)

-- `routeStrategy` is Weighted.
unfoldable pub route_weighted : List Backend → Bool
route_weighted candidates = any (λ c. is_weighted c.policy.routing_strategy) candidates

-- The loop over the ready candidates behind the first: the least load so far, and who has it.
unfoldable pub least_loaded_from : (Backend → ℤ) → ℤ → List Backend → List Backend → List Backend
least_loaded_from load least found [] = found
least_loaded_from load least found (c ∷ cs) =
    let lower = ltb_ℤ (load c) least in
    let equal = eqb_ℤ (load c) least in
    least_loaded_from load (if lower then load c else least)
      (if lower then c ∷ [] else if equal then found ++ c ∷ [] else found) cs

-- The loop from index 0, where the first candidate sets the least load.
unfoldable pub least_loaded_of : (Backend → ℤ) → List Backend → List Backend
unfolding least_loaded_from
least_loaded_of load [] = []
least_loaded_of load (c ∷ cs) = least_loaded_from load (load c) (c ∷ []) cs
