-- ===== src/Proxy/Limiter/Steps.antt =====
-- One call of the rate limiter at a given time (gateway/internal/proxy/proxy.go).
use inferops.Base.{
  not, ℕ, zero, suc, ◌≤◌, ◌<◌, Bool, true, false, ◌&&◌, Option, none, some, ◌≡◌, refl, ap, ap₂, ◌∙◌,
  str_eq, pair_eq, ℤ, pos, ◌<ℤ◌, ltb, lookup, insert, lookup-insert, arith, ==_refl,
}
use inferops.Routing.Types.{BackendKey, RateLimitPolicy}
use inferops.Proxy.Limiter.{
  Floats, TokenBucket, RateLimiter, effective_burst, full_bucket, bucket_for, rate_per_second,
  refill, allow,
}
use inferops.Proxy.Limiter.Levels.{exact, FloatLaws, IsAt, at_one, level-down}

module _ {F : Type 0} {Time : Type 0} (float : Floats F Time) (laws : FloatLaws float) where
  module _ (now : Time) (policy : RateLimitPolicy) (burst : ℕ) where
    abbrev pub filled : BackendKey → RateLimiter float → TokenBucket F Time
    filled key limiter = refill float policy now (bucket_for float (lookup key limiter) policy now)

    -- A bucket of the policy.
    abbrev pub IsKept : Option (TokenBucket F Time) → Type 0
    IsKept found =
        (bucket : TokenBucket F Time) × (found ≡ some bucket)
        × (bucket.requests_per_minute ≡ policy.requests_per_minute)
        × (float.same bucket.capacity (float.of_int (pos burst)) ≡ true)

    pub bucket_for-policy :
        (found : Option (TokenBucket F Time))
        → effective_burst float policy ≡ pos burst
        → let bucket = bucket_for float found policy now in
          (bucket.requests_per_minute ≡ policy.requests_per_minute)
          × (float.same bucket.capacity (float.of_int (pos burst)) ≡ true)
    unfolding bucket_for full_bucket
    bucket_for-policy none e = ground (arith, e, laws.same_whole burst)
    bucket_for-policy (some bucket) e = ground (arith, e, laws.same_whole burst)

    module _ (size : effective_burst float policy ≡ pos burst) (small : suc burst < exact) where
      pub bucket_for-kept :
          (bucket : TokenBucket F Time)
          → bucket.requests_per_minute ≡ policy.requests_per_minute
          → float.same bucket.capacity (float.of_int (pos burst)) ≡ true
          → bucket_for float (some bucket) policy now ≡ bucket
      unfolding bucket_for
      bucket_for-kept bucket same room = ground (arith, size, same, room)

      refill-at_least :
          (bucket : TokenBucket F Time) (j : ℕ)
          → bucket.last ≡ now
          → float.same bucket.capacity (float.of_int (pos burst)) ≡ true
          → j ≤ exact
          → float.at_least (refill float policy now bucket).tokens (float.of_int (pos j))
            ≡ (not (ltb burst j) && float.at_least bucket.tokens (float.of_int (pos j)))
      unfolding refill
      refill-at_least bucket j fresh room bound =
          let gained : Time → F = λ t.
            float.add bucket.tokens
              (float.mul (float.seconds_since now t) (rate_per_second float policy)) in
          laws.at_least_minimum bucket.capacity (gained bucket.last) j
          ∙ ap₂ (λ a b. a && b)
              (laws.at_least_same bucket.capacity (float.of_int (pos burst)) j room
                ∙ laws.whole burst j (omega (arith, small)) bound)
              (ap (λ t. float.at_least (gained t) (float.of_int (pos j))) fresh
                ∙ laws.no_time bucket.tokens now policy j)

      -- A bucket that was filled at this time is filled no further.
      pub refill-level :
          (bucket : TokenBucket F Time) (k : ℕ)
          → bucket.last ≡ now
          → float.same bucket.capacity (float.of_int (pos burst)) ≡ true
          → k ≤ burst
          → IsAt float bucket.tokens k
          → IsAt float (refill float policy now bucket).tokens k
      refill-level bucket zero fresh room low at =
          let one = refill-at_least bucket 1 fresh room (omega arith) in ground (arith, at, one)
      refill-level bucket (suc k) fresh room low at =
          let one = refill-at_least bucket (suc k) fresh room (omega (arith, low, small)) in
          let two = refill-at_least bucket (suc (suc k)) fresh room (omega (arith, low, small)) in
          (ground (arith, at, one, low), ground (arith, at, two))

      pub refill_room :
          (bucket : TokenBucket F Time)
          → float.same bucket.capacity (float.of_int (pos burst)) ≡ true
          → float.at_least (refill float policy now bucket).tokens (float.of_int (pos (suc burst)))
            ≡ false
      unfolding refill
      refill_room bucket room =
          let least =
            laws.at_least_minimum bucket.capacity
              (float.add bucket.tokens
                (float.mul (float.seconds_since now bucket.last) (rate_per_second float policy)))
              (suc burst) in
          ground (
            arith,
            least,
            laws.at_least_same bucket.capacity (float.of_int (pos burst)) (suc burst) room,
            laws.whole burst (suc burst) (omega (arith, small)) (omega (arith, small)),
          )

      -- The bucket of the key as it is at this time, in a limiter that holds it.
      filled-kept :
          (key : BackendKey) (limiter : RateLimiter float) (bucket : TokenBucket F Time) (k : ℕ)
          → lookup key limiter ≡ some bucket
          → bucket.requests_per_minute ≡ policy.requests_per_minute
          → float.same bucket.capacity (float.of_int (pos burst)) ≡ true
          → bucket.last ≡ now
          → k ≤ burst
          → IsAt float bucket.tokens k
          → IsAt float (filled key limiter).tokens k
      filled-kept key limiter bucket k found same room fresh low at =
          rw (found, bucket_for-kept bucket same room) (refill-level bucket k fresh room low at)

      abbrev called : BackendKey → RateLimiter float → Bool × ℤ × RateLimiter float
      called key limiter = allow float key policy now limiter

      abbrev spent : TokenBucket F Time → TokenBucket F Time
      spent bucket = record bucket { tokens = float.sub bucket.tokens (float.of_int (pos 1)) }

      stored :
          (key : BackendKey) (bucket : TokenBucket F Time) (limiter : RateLimiter float)
          → lookup key (insert key bucket limiter) ≡ some bucket
      stored key bucket limiter = ground (arith, lookup-insert key key bucket limiter, ==_refl key)

      allow-true :
          (key : BackendKey) (limiter : RateLimiter float)
          → pos 0 <ℤ policy.requests_per_minute
          → float.at_least (filled key limiter).tokens (float.of_int (pos 1)) ≡ true
          → called key limiter ≡ (true, pos 0, insert key (spent (filled key limiter)) limiter)
      unfolding allow
      allow-true key limiter limited one = ground (arith, limited, one)

      allow-false :
          (key : BackendKey) (limiter : RateLimiter float)
          → pos 0 <ℤ policy.requests_per_minute
          → float.at_least (filled key limiter).tokens (float.of_int (pos 1)) ≡ false
          → ((called key limiter).0 ≡ false)
            × ((called key limiter).2 ≡ insert key (filled key limiter) limiter)
      unfolding allow
      allow-false key limiter limited one = ground (arith, limited, one)

      filled-policy :
          (key : BackendKey) (limiter : RateLimiter float)
          → ((filled key limiter).requests_per_minute ≡ policy.requests_per_minute)
            × (float.same (filled key limiter).capacity (float.of_int (pos burst)) ≡ true)
            × ((filled key limiter).last ≡ now)
      unfolding refill
      filled-policy key limiter =
          let (same, room) = bucket_for-policy (lookup key limiter) size in (same, room, refl)

      -- A call with a token takes one.
      pub allow-takes :
          (key : BackendKey) (limiter : RateLimiter float) (k : ℕ)
          → pos 0 <ℤ policy.requests_per_minute
          → suc k ≤ burst
          → IsAt float (filled key limiter).tokens (suc k)
          → ((called key limiter).0 ≡ true)
            × IsAt float (filled key (called key limiter).2).tokens k
      allow-takes key limiter k limited low at =
          let bucket = filled key limiter in
          let (same, room, fresh) = filled-policy key limiter in
          let e =
            allow-true key limiter limited
              (at_one float laws bucket.tokens k (omega (arith, small, low)) at) in
          (
            ap (λ r. r.0) e,
            rw e (
                filled-kept key (insert key (spent bucket) limiter) (spent bucket) k
                  (stored key (spent bucket) limiter) same room fresh (omega (arith, low))
                  (level-down float laws bucket.tokens k (omega (arith, small, low)) at)),
          )

      -- A call without one takes none.
      pub allow-keeps :
          (key : BackendKey) (limiter : RateLimiter float)
          → pos 0 <ℤ policy.requests_per_minute
          → IsAt float (filled key limiter).tokens 0
          → ((called key limiter).0 ≡ false)
            × IsAt float (filled key (called key limiter).2).tokens 0
      allow-keeps key limiter limited at =
          let bucket = filled key limiter in
          let (same, room, fresh) = filled-policy key limiter in
          let (refused, e) = allow-false key limiter limited at in
          (
            refused,
            rw e (
                filled-kept key (insert key bucket limiter) bucket 0 (stored key bucket limiter)
                  same room fresh (omega arith) at),
          )
