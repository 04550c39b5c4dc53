-- ===== src/Proxy/Limiter/Levels.antt =====
-- What float64 keeps of arithmetic, and the whole number of a bucket's tokens
-- (gateway/internal/proxy/proxy.go).
use inferops.Base.{
  not, ℕ, zero, suc, ◌≤◌, ◌<◌, true, false, ◌&&◌, ◌≡◌, inl, inr, ◌∙◌, str_eq, pair_eq, pos, ltb,
  arith, Bool-cases,
}
use inferops.Routing.Types.{RateLimitPolicy}
use inferops.Proxy.Limiter.{Floats, rate_per_second}

-- The whole numbers that a float64 holds exactly are below this one.
abbrev pub exact : ℕ
exact = 9007199254740992

-- What float64 keeps of arithmetic: whole numbers below `exact` compare as they are, and a number
-- from 1 on that is reduced by 1 compares with them as it did with their successors. Nothing is
-- gained in no time. `math.Min` is no less than a number when both arguments are.
pub record FloatLaws {F : Type 0} {Time : Type 0} (float : Floats F Time) : Type 0 where
  pub whole :
      (a b : ℕ)
      → a < exact
      → b ≤ exact
      → float.at_least (float.of_int (pos a)) (float.of_int (pos b)) ≡ not (ltb a b)
  pub lower :
      (x : F) (k : ℕ)
      → k < exact
      → float.at_least x (float.of_int (pos (suc k))) ≡ true
      → float.at_least x (float.of_int (pos k)) ≡ true
  pub less_one :
      (x : F) (k : ℕ)
      → k < exact
      → float.at_least x (float.of_int (pos 1)) ≡ true
      → float.at_least (float.sub x (float.of_int (pos 1))) (float.of_int (pos k))
        ≡ float.at_least x (float.of_int (pos (suc k)))
  pub no_time :
      (x : F) (t : Time) (policy : RateLimitPolicy) (k : ℕ)
      → float.at_least
          (float.add x (float.mul (float.seconds_since t t) (rate_per_second float policy)))
          (float.of_int (pos k))
        ≡ float.at_least x (float.of_int (pos k))
  pub at_least_minimum :
      (x y : F) (k : ℕ)
      → float.at_least (float.minimum x y) (float.of_int (pos k))
        ≡ (float.at_least x (float.of_int (pos k)) && float.at_least y (float.of_int (pos k)))
  pub same_whole : (a : ℕ) → float.same (float.of_int (pos a)) (float.of_int (pos a)) ≡ true
  pub at_least_same :
      (x y : F) (k : ℕ)
      → float.same x y ≡ true
      → float.at_least x (float.of_int (pos k)) ≡ float.at_least y (float.of_int (pos k))

module _ {F : Type 0} {Time : Type 0} (float : Floats F Time) where
  -- Whether a number is a level: at least it, and less than its successor. From 0 down all is 0.
  abbrev pub IsAt : F → ℕ → Type 0
  IsAt x zero = float.at_least x (float.of_int (pos 1)) ≡ false
  IsAt x (suc k) =
      (float.at_least x (float.of_int (pos (suc k))) ≡ true)
      × (float.at_least x (float.of_int (pos (suc (suc k)))) ≡ false)

module _ {F : Type 0} {Time : Type 0} (float : Floats F Time) (laws : FloatLaws float) where
  -- A number below `n + 1` has a level up to `n`.
  pub level :
      (x : F) (n : ℕ)
      → float.at_least x (float.of_int (pos (suc n))) ≡ false
      → (k : ℕ) × (k ≤ n) × IsAt float x k
  level x zero h = (0, omega arith, h)
  level x (suc n) h = elim (Bool-cases (float.at_least x (float.of_int (pos (suc n))))) [
    | inl e ↦ (suc n, omega arith, (e, h))
    | inr e ↦ let (k, low, at) = level x n e in (k, omega (arith, low), at)
  ]

  at_least_one :
      (x : F) (k : ℕ)
      → k < exact
      → float.at_least x (float.of_int (pos (suc k))) ≡ true
      → float.at_least x (float.of_int (pos 1)) ≡ true
  at_least_one x zero small h = h
  at_least_one x (suc k) small h =
      at_least_one x k (omega (arith, small)) (laws.lower x (suc k) small h)

  pub at_one :
      (x : F) (k : ℕ)
      → k < exact
      → IsAt float x (suc k)
      → float.at_least x (float.of_int (pos 1)) ≡ true
  at_one x k small at = at_least_one x k small at.0

  -- One token less.
  pub level-down :
      (x : F) (k : ℕ)
      → suc k < exact
      → IsAt float x (suc k)
      → IsAt float (float.sub x (float.of_int (pos 1))) k
  level-down x zero small at = laws.less_one x 1 (omega (arith, small)) at.0 ∙ at.1
  level-down x (suc k) small at =
      let one = at_one x (suc k) (omega (arith, small)) at in
      (
        laws.less_one x (suc k) (omega (arith, small)) one ∙ at.0,
        laws.less_one x (suc (suc k)) small one ∙ at.1,
      )
