-- ===== src/Tests/Balance.antt =====
-- Weighted routing between two backends.
use inferops.Base.{
  ◌+◌, ◌*◌, ◌≤◌, ◌<◌, List, [], ◌∷◌, ◌≡◌, ◌≢◌, refl, insert, ◌+64◌, ◌-64◌, inl, All, arith, length,
  codes, lookup, str_eq, pair_eq,
}
use inferops.Routing.Types.{Backend, ready, identity}
use inferops.Routing.Registry.Weighted.{weighted_pick, add_weights, highest}
use inferops.Routing.Select.Balance.Rounds.{sum_over}
use inferops.Routing.Select.Balance.Bounds.{IsContest, IsFair, above, below, total_weight}
use inferops.Routing.Select.Balance.Runs.{run, run-bounded, run-no_starvation}
use inferops.Tests.Fixtures.{backend_of}

abbrev light : Backend
light = backend_of (codes "a") (codes "/m") ready 1

abbrev heavy : Backend
heavy = backend_of (codes "bb") (codes "/m") ready 2

abbrev others : List Backend
others = heavy ∷ []

contest : IsContest light others
contest = record {
  distinct = (((λ e. cc), tt), (tt, tt));
  positive = (omega arith, (omega arith, tt));
  light = omega arith;
}

-- Of three choices the heavier backend gets two.
run_test : (run light others 3 []).1 ≡ heavy ∷ light ∷ heavy ∷ []
unfolding weighted_pick add_weights highest lookup insert ◌+64◌ ◌-64◌
run_test = refl

run-bounded_example :
    (sum_over (above light others (run light others 3 []).0) (light ∷ others)
      ≡ sum_over (below light others (run light others 3 []).0) (light ∷ others))
    × All
        (λ c.
          (below light others (run light others 3 []).0 c < total_weight light others)
          × (above light others (run light others 3 []).0 c
              ≤ length (light ∷ others) * total_weight light others))
        (light ∷ others)
run-bounded_example = run-bounded light others 3 contest

fresh : IsFair light others []
unfolding lookup
fresh = record { balanced = refl; low = (omega arith, (omega arith, tt)) }

passed : All (λ b. identity b ≢ identity light) (run light others 1 []).1
unfolding weighted_pick add_weights highest lookup insert ◌+64◌ ◌-64◌
passed = ((λ e. cc), tt)

-- One choice that passes over `light`.
run-no_starvation_example : 1 * 1 ≤ 2 * 3 + 3
run-no_starvation_example =
    run-no_starvation light others 1 light [] contest fresh (inl refl) passed
