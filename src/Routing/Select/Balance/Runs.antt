-- ===== src/Routing/Select/Balance/Runs.antt =====
-- Successive choices of a route among the same candidates (gateway/internal/routing/router.go,
-- `weightedBackendLocked`).
use inferops.Base.{
  ℕ, zero, suc, ◌+◌, ◌*◌, ◌≤◌, ◌<◌, List, [], ◌∷◌, ◌≡◌, ◌≢◌, refl, sym, ◌∙◌, In, All, All-of_In,
  All-In, arith, length, lookup, str_eq, pair_eq,
}
use inferops.Routing.Types.{Backend, identity}
use inferops.Routing.Registry.Defs.{Scores}
use inferops.Routing.Registry.Weighted.{weighted_pick}
use inferops.Routing.Select.Balance.Rounds.{weight_of, sum_over}
use inferops.Routing.Select.Balance.Bounds.{
  IsContest, IsFair, IsFair-upper, above, below, total_weight, weighted_pick-IsFair, added-parts,
  after-other, sum_over-zero,
}

module _ (first : Backend) (others : List Backend) where
  -- The scores after some calls, and what they chose.
  abbrev pub run : ℕ → Scores → Scores × List Backend
  run zero scores = (scores, [])
  run (suc k) scores =
      let picked = weighted_pick scores first others in
      let rest = run k picked.1 in (rest.0, picked.0 ∷ rest.1)

  run-IsFair :
      (k : ℕ) (scores : Scores)
      → IsContest first others
      → IsFair first others scores
      → IsFair first others (run k scores).0
  run-IsFair zero scores c f = f
  run-IsFair (suc k) scores c f =
      run-IsFair k (weighted_pick scores first others).1 c
        (weighted_pick-IsFair first others c scores f)

  fresh-IsFair : IsContest first others → IsFair first others []
  unfolding lookup
  fresh-IsFair c = record {
    balanced =
        sum_over-zero (above first others []) (first ∷ others)
          (All-of_In (λ b. above first others [] b ≡ 0) (first ∷ others) (λ b m. refl))
        ∙ sym (
            sum_over-zero (below first others []) (first ∷ others)
              (All-of_In (λ b. below first others [] b ≡ 0) (first ∷ others) (λ b m. refl)));
    low = All-of_In _ (first ∷ others) (λ b m. omega (arith, c.positive.0));
  }

  -- Among distinct candidates of positive weight, few and light enough for 64 bits, however often
  -- the route has been used since its scores were fresh: the scores sum up to zero, and each is
  -- above minus the total weight and at most the number of candidates times the total weight.
  pub run-bounded :
      (k : ℕ)
      → IsContest first others
      → (sum_over (above first others (run k []).0) (first ∷ others)
          ≡ sum_over (below first others (run k []).0) (first ∷ others))
        × All
            (λ c.
              (below first others (run k []).0 c < total_weight first others)
              × (above first others (run k []).0 c
                  ≤ length (first ∷ others) * total_weight first others))
            (first ∷ others)
  run-bounded k c =
      let f = run-IsFair k [] c (fresh-IsFair c) in
      (
        f.balanced,
        All-of_In _ (first ∷ others) (λ b m. (
          All-In (λ x. below first others (run k []).0 x < total_weight first others)
              (first ∷ others) f.low m,
          IsFair-upper first others (run k []).0 b f m,
        )),
      )

  pick-gain :
      (c : Backend) (scores : Scores)
      → IsContest first others
      → IsFair first others scores
      → In c (first ∷ others)
      → identity (weighted_pick scores first others).0 ≢ identity c
      → above first others (weighted_pick scores first others).1 c + below first others scores c
        ≡ below first others (weighted_pick scores first others).1 c
          + above first others scores c
          + weight_of c
  unfolding weighted_pick
  pick-gain c scores k f m n =
      rw (after-other first others k scores f c (λ e. n (sym e)))
        (added-parts first others k scores f c m).0

  run-gain :
      (k : ℕ) (c : Backend) (scores : Scores)
      → IsContest first others
      → IsFair first others scores
      → In c (first ∷ others)
      → All (λ b. identity b ≢ identity c) (run k scores).1
      → above first others (run k scores).0 c + below first others scores c
        ≡ below first others (run k scores).0 c + above first others scores c + k * weight_of c
  run-gain zero c scores k f m h = omega arith
  run-gain (suc n) c scores k f m (p, h) =
      let next = (weighted_pick scores first others).1 in
      omega (
        arith,
        pick-gain c scores k f m p,
        run-gain n c next k (weighted_pick-IsFair first others k scores f) m h,
      )

  -- No starvation: from any fair scores, a candidate that some successive calls pass over satisfies
  -- calls × weight ≤ (candidates + 1) × total weight, so more calls than that do choose it.
  pub run-no_starvation :
      (k : ℕ) (c : Backend) (scores : Scores)
      → IsContest first others
      → IsFair first others scores
      → In c (first ∷ others)
      → All (λ b. identity b ≢ identity c) (run k scores).1
      → k * weight_of c
        ≤ length (first ∷ others) * total_weight first others + total_weight first others
  run-no_starvation k c scores d f m h =
      let f' = run-IsFair k scores d f in
      omega (
        arith,
        run-gain k c scores d f m h,
        IsFair-upper first others (run k scores).0 c f' m,
        All-In (λ x. below first others scores x < total_weight first others) (first ∷ others) f.low
            m,
      )
