-- ===== src/Tests/Limiter.antt =====
-- The rate limiter, with whole tokens in place of float64.
use inferops.Base.{
  ℕ, ◌+◌, ◌-◌, ◌*◌, ◌/◌, ◌≤◌, min, List, [], ◌∷◌, ◌≡◌, refl, ap, ◌⊎◌, not, ltb, nat_beq, ℤ, pos,
  negsuc, codes, arith, lookup, insert, str_eq, pair_eq,
}
use inferops.Routing.Types.{BackendKey, RateLimitPolicy}
use inferops.Proxy.Limiter.{
  Floats, RateLimiter, effective_burst, allow, bucket_for, refill, rate_per_second,
}
use inferops.Proxy.Limiter.Levels.{FloatLaws}
use inferops.Proxy.Limiter.Burst.{admitted, asked, HasTokens, admitted-bounded}

abbrev whole_part : ℤ → ℕ
whole_part (pos n) = n
whole_part (negsuc n) = 0

abbrev counting : Floats ℕ ℕ
counting = record {
  of_int = whole_part;
  add = λ a b. a + b;
  sub = λ a b. a - b;
  mul = λ a b. a * b;
  div = λ a b. a / b;
  minimum = min;
  ceil = pos;
  at_least = λ a b. not (ltb a b);
  same = nat_beq;
  seconds_since = λ now last. now - last;
}

no_gain : (x t r : ℕ) → x + (t - t) * r ≡ x
no_gain x t r = let e : t - t ≡ 0 = omega arith in rw e (omega arith)

counting_laws : FloatLaws counting
counting_laws = record {
  whole = λ a b h k. refl;
  lower = λ x k h e. ground (arith, e);
  less_one = λ x k h e. ground (arith, e);
  no_time = λ x t policy k. ap (λ y. not (ltb y k)) (no_gain x t _);
  at_least_minimum = λ x y k. ground arith;
  same_whole = λ a. ground arith;
  at_least_same = λ x y k e. ground (arith, e);
}

abbrev model : BackendKey
model = (codes "ns", codes "m")

abbrev other : BackendKey
other = (codes "ns", codes "o")

-- One token in a second, and three at most.
abbrev policies : BackendKey → RateLimitPolicy
policies key = record { requests_per_minute = pos 60; burst = pos 3 }

-- A bucket that had one token at time 4.
abbrev limiter : RateLimiter counting
limiter = (model, record { requests_per_minute = pos 60; capacity = 3; tokens = 1; last = 4 }) ∷ []

abbrev requests : List BackendKey
requests = model ∷ other ∷ model ∷ model ∷ model ∷ []

-- At time 4 there is one.
one_of_two : admitted counting 4 policies model (model ∷ model ∷ []) limiter ≡ 1
unfolding allow refill bucket_for lookup effective_burst insert rate_per_second
one_of_two = refl

three : effective_burst counting (policies model) ≡ pos 3
unfolding effective_burst
three = refl

admitted-bounded_example :
    (k : ℕ) × (k ≤ 3)
    × ((k ≡ 3)
        ⊎ HasTokens counting counting_laws 5 policies (policies model) 3 (lookup model limiter) k)
    × (admitted counting 5 policies model requests limiter ≡ min (asked model requests) k)
admitted-bounded_example =
    admitted-bounded counting counting_laws 5 policies model requests limiter 3 (omega arith) three
      (omega arith)
