-- ===== src/Proxy/Limiter/Burst.antt =====
-- How many requests the limiter lets through at one time (gateway/internal/proxy/proxy.go).
use inferops.Base.{
  ℕ, zero, suc, ◌≤◌, ◌<◌, min, List, [], ◌∷◌, Bool, true, ◌&&◌, if◌then◌else◌, ◌==◌, Option, none,
  some, ◌≡◌, ◌⊎◌, inl, inr, refl, subst, ap, ◌∙◌, Str, str_eq, pair_eq, pos, ◌<ℤ◌, eqb_ℤ, lookup,
  arith, ==_refl, Bool-cases,
}
use inferops.Routing.Types.{BackendKey, RateLimitPolicy}
use inferops.Proxy.Limiter.{
  Floats, TokenBucket, RateLimiter, effective_burst, full_bucket, bucket_for, rate_per_second,
  refill, allow, allow-other,
}
use inferops.Proxy.Limiter.Levels.{exact, FloatLaws, IsAt, level}
use inferops.Proxy.Limiter.Steps.{
  filled, IsKept, bucket_for-policy, bucket_for-kept, refill-level, refill_room, allow-takes,
  allow-keeps,
}

abbrev counted : BackendKey → BackendKey → Bool → ℕ → ℕ
counted key other passes n = if (key == other) && passes then suc n else n

-- How many requests are for the key.
abbrev pub asked : BackendKey → List BackendKey → ℕ
asked key [] = 0
asked key (other ∷ more) = counted key other true (asked key more)

-- Requests that come at one time, each key with its policy.
module _ {F : Type 0} {Time : Type 0} (float : Floats F Time) where
  module _ (now : Time) (policies : BackendKey → RateLimitPolicy) where
    abbrev pub after_call : BackendKey → RateLimiter float → Bool × RateLimiter float
    after_call key limiter =
        let (allowed, _, after) = allow float key (policies key) now limiter in (allowed, after)

    -- How many of the requests at one time the limiter lets through to a key.
    abbrev pub admitted : BackendKey → List BackendKey → RateLimiter float → ℕ
    admitted key [] limiter = 0
    admitted key (other ∷ more) limiter =
        let (allowed, after) = after_call other limiter in
        counted key other allowed (admitted key more after)

module _ {F : Type 0} {Time : Type 0} (float : Floats F Time) (laws : FloatLaws float) where
  module _ (now : Time) (policies : BackendKey → RateLimitPolicy) where
    -- A request of the key itself in front of more.
    admitted-own :
        (key : BackendKey) (more : List BackendKey) (limiter : RateLimiter float) (burst k : ℕ)
        → pos 0 <ℤ (policies key).requests_per_minute
        → effective_burst float (policies key) ≡ pos burst
        → suc burst < exact
        → k ≤ burst
        → IsAt float (filled float laws now (policies key) burst key limiter).tokens k
        → ((n : ℕ)
            → n ≤ burst
            → IsAt float
                (filled float laws now
                  (policies key)
                  burst
                  key
                  (after_call float now policies key limiter).1).tokens
                n
            → admitted float now policies key more (after_call float now policies key limiter).1
              ≡ min (asked key more) n)
        → admitted float now policies key (key ∷ more) limiter ≡ min (asked key (key ∷ more)) k
    admitted-own key more limiter burst zero limited size small low at ih =
        let (refused, next) =
          allow-keeps float laws now (policies key) burst size small key limiter limited at in
        let rest = ih 0 low next in ground (arith, ==_refl key, refused, rest)
    admitted-own key more limiter burst (suc k) limited size small low at ih =
        let (passed, next) =
          allow-takes float laws now (policies key) burst size small key limiter k limited low at in
        let rest = ih k (omega (arith, low)) next in ground (arith, ==_refl key, passed, rest)

    admitted-level :
        (key : BackendKey) (requests : List BackendKey) (limiter : RateLimiter float) (burst k : ℕ)
        → pos 0 <ℤ (policies key).requests_per_minute
        → effective_burst float (policies key) ≡ pos burst
        → suc burst < exact
        → k ≤ burst
        → IsAt float (filled float laws now (policies key) burst key limiter).tokens k
        → admitted float now policies key requests limiter ≡ min (asked key requests) k
    admitted-level key [] limiter burst k limited size small low at = omega arith
    admitted-level key (other ∷ more) limiter burst k limited size small low at =
        elim (Bool-cases (key == other)) [
          | inl e ↦
              let same : key ≡ other = ((pair_eq {A = Str} {B = Str}).beq_iff key other).0 e in
              rw (← same) (
                admitted-own key more limiter burst k limited size small low at (λ n bound next.
                  admitted-level key more (after_call float now policies key limiter).1 burst n
                    limited size small bound next))
          | inr e ↦
              let kept = allow-other float other key (policies other) now limiter (λ back.
                ground (arith, e, back, (pair_eq {A = Str} {B = Str}).beq_iff key other)) in
              rw e (
                admitted-level key more (after_call float now policies other limiter).1 burst k
                  limited size small low (rw kept at))
        ]

    of_int-IsAt : (burst : ℕ) → suc burst < exact → IsAt float (float.of_int (pos burst)) burst
    of_int-IsAt zero small = laws.whole 0 1 (omega arith) (omega arith)
    of_int-IsAt (suc k) small =
        let one = laws.whole (suc k) (suc k) (omega (arith, small)) (omega (arith, small)) in
        let two = laws.whole (suc k) (suc (suc k)) (omega (arith, small)) (omega (arith, small)) in
        (ground (arith, one), ground (arith, two))

    full-level :
        (policy : RateLimitPolicy) (burst : ℕ)
        → effective_burst float policy ≡ pos burst
        → suc burst < exact
        → IsAt float (refill float policy now (full_bucket float policy now)).tokens burst
    unfolding full_bucket
    full-level policy burst size small =
        refill-level float laws now policy burst size small (full_bucket float policy now) burst
          refl (rw size (laws.same_whole burst)) (omega arith) (rw size (of_int-IsAt burst small))

    bucket_for-cases :
        (policy : RateLimitPolicy) (burst : ℕ) (found : Option (TokenBucket F Time))
        → effective_burst float policy ≡ pos burst
        → IsKept float laws now policy burst found
          ⊎ (bucket_for float found policy now ≡ full_bucket float policy now)
    unfolding bucket_for
    bucket_for-cases policy burst none size = inr refl
    bucket_for-cases policy burst (some bucket) size =
        elim (Bool-cases (eqb_ℤ bucket.requests_per_minute policy.requests_per_minute)) [
          | inr e ↦ inr (ground (arith, e))
          | inl e ↦ elim (Bool-cases (float.same bucket.capacity (float.of_int (pos burst)))) [
            | inl f ↦ inl (bucket, refl, ground (arith, e), f)
            | inr f ↦ inr (ground (arith, e, f, size))
          ]
        ]

    -- The tokens of a bucket that has filled float laws up until now, to its capacity at most.
    abbrev pub tokens_now : RateLimitPolicy → TokenBucket F Time → F
    tokens_now policy bucket = float.minimum bucket.capacity (
        float.add bucket.tokens (
          float.mul (float.seconds_since now bucket.last)
            (float.div (float.of_int policy.requests_per_minute) (float.of_int (pos 60)))))

    -- A bucket of the policy that the limiter has of the key, with its whole tokens.
    abbrev pub HasTokens : RateLimitPolicy → ℕ → Option (TokenBucket F Time) → ℕ → Type 0
    HasTokens policy burst found k =
        (bucket : TokenBucket F Time) × (found ≡ some bucket)
        × (bucket.requests_per_minute ≡ policy.requests_per_minute)
        × (float.same bucket.capacity (float.of_int (pos burst)) ≡ true)
        × IsAt float (tokens_now policy bucket) k

    kept-HasTokens :
        (policy : RateLimitPolicy) (burst : ℕ) (found : Option (TokenBucket F Time)) (k : ℕ)
        → effective_burst float policy ≡ pos burst
        → suc burst < exact
        → IsKept float laws now policy burst found
        → IsAt float (refill float policy now (bucket_for float found policy now)).tokens k
        → HasTokens policy burst found k
    unfolding refill rate_per_second
    kept-HasTokens policy burst found k size small (bucket, e, same, room) at = (
      bucket,
      e,
      same,
      room,
      subst (λ b. IsAt float (refill float policy now b).tokens k)
          (ap (λ f. bucket_for float f policy now) e
            ∙ bucket_for-kept float laws now policy burst size small bucket same room)
          at,
    )

    -- Of the requests that come at one time, for a key among others, the limiter lets through `k`,
    -- or all if they are fewer; `k` is the burst, or, where the limiter has a bucket of the
    -- key for the same policy, the whole number of its tokens after it has filled float laws up to its
    -- capacity, which is the burst at most. This takes a limit, a burst that float64 holds exactly,
    -- and what float64 keeps of arithmetic.
    pub admitted-bounded :
        (key : BackendKey) (requests : List BackendKey) (limiter : RateLimiter float) (burst : ℕ)
        → pos 0 <ℤ (policies key).requests_per_minute
        → effective_burst float (policies key) ≡ pos burst
        → suc burst < exact
        → (k : ℕ) × (k ≤ burst)
          × ((k ≡ burst) ⊎ HasTokens (policies key) burst (lookup key limiter) k)
          × (admitted float now policies key requests limiter ≡ min (asked key requests) k)
    admitted-bounded key requests limiter burst limited size small =
        elim (bucket_for-cases (policies key) burst (lookup key limiter) size) [
          | inl kept ↦
              let (k, low, at) =
                level float laws (filled float laws now (policies key) burst key limiter).tokens
                  burst
                  (refill_room float laws now (policies key) burst size small
                    (bucket_for float (lookup key limiter) (policies key) now)
                    (bucket_for-policy float laws now (policies key) burst (lookup key limiter)
                      size).1) in
              (
                k,
                low,
                inr (kept-HasTokens (policies key) burst (lookup key limiter) k size small kept at),
                admitted-level key requests limiter burst k limited size small low at,
              )
          | inr full ↦ (
            burst,
            omega arith,
            inl refl,
            admitted-level key requests limiter burst burst limited size small (omega arith)
                (rw full (full-level (policies key) burst size small)),
          )
        ]
