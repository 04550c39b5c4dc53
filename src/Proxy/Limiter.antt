-- ===== src/Proxy/Limiter.antt =====
-- `rateLimiter` (gateway/internal/proxy/proxy.go), the token buckets. The arithmetic of float64 is a
-- parameter.
pub mod Levels
pub mod Steps
pub mod Burst
use inferops.Base.{
  List, Bool, true, false, not, ◌||◌, if◌then◌else◌, Option, none, some, ◌≡◌, ◌≢◌, ◌⊎◌, Str, str_eq,
  pair_eq, ℤ, pos, ltb_ℤ, eqb_ℤ, ◌≤ℤ◌, lookup, insert, lookup-insert, arith, ==_refl,
}
use inferops.Routing.Types.{BackendKey, RateLimitPolicy}

-- What the code uses of float64, package math and package time.
pub record Floats (F : Type 0) (Time : Type 0) : Type 0 where
  pub of_int : ℤ → F
  pub add : F → F → F
  pub sub : F → F → F
  pub mul : F → F → F
  pub div : F → F → F
  pub minimum : F → F → F
  pub ceil : F → ℤ
  pub at_least : F → F → Bool
  pub same : F → F → Bool
  -- `now.Sub(last).Seconds()`
  pub seconds_since : Time → Time → F

pub record TokenBucket (F : Type 0) (Time : Type 0) : Type 0 where
  pub requests_per_minute : ℤ
  pub capacity : F
  pub tokens : F
  pub last : Time

module _ {F : Type 0} {Time : Type 0} (float : Floats F Time) where
  abbrev pub RateLimiter : Type 0
  RateLimiter = List (BackendKey × TokenBucket F Time)

  -- `burst`: that of the policy, or a minute's requests.
  unfoldable pub effective_burst : RateLimitPolicy → ℤ
  effective_burst policy =
      if ltb_ℤ (pos 0) policy.burst then policy.burst else policy.requests_per_minute

  unfoldable pub full_bucket : RateLimitPolicy → Time → TokenBucket F Time
  unfolding effective_burst
  full_bucket policy now = record {
    requests_per_minute = policy.requests_per_minute;
    capacity = float.of_int (effective_burst policy);
    tokens = float.of_int (effective_burst policy);
    last = now;
  }

  -- The bucket of a key, or a full one if there is none for this policy.
  unfoldable pub bucket_for :
      Option (TokenBucket F Time) → RateLimitPolicy → Time → TokenBucket F Time
  unfolding full_bucket
  bucket_for none policy now = full_bucket policy now
  bucket_for (some bucket) policy now =
      if not (eqb_ℤ bucket.requests_per_minute policy.requests_per_minute)
        || not (float.same bucket.capacity (float.of_int (effective_burst policy)))
      then full_bucket policy now
      else bucket

  unfoldable pub rate_per_second : RateLimitPolicy → F
  rate_per_second policy =
      float.div (float.of_int policy.requests_per_minute) (float.of_int (pos 60))

  -- The tokens that are there now.
  unfoldable pub refill : RateLimitPolicy → Time → TokenBucket F Time → TokenBucket F Time
  unfolding rate_per_second
  refill policy now bucket = record bucket {
    last = now;
    tokens = float.minimum bucket.capacity (
        float.add bucket.tokens
          (float.mul (float.seconds_since now bucket.last) (rate_per_second policy)));
  }

  unfoldable pub retry_after : RateLimitPolicy → TokenBucket F Time → ℤ
  unfolding rate_per_second
  retry_after policy bucket =
      let retry =
        float.ceil
          (float.div (float.sub (float.of_int (pos 1)) bucket.tokens) (rate_per_second policy)) in
      if ltb_ℤ retry (pos 1) then pos 1 else retry

  -- `allow`: whether, when to come again, and the limiter after.
  unfoldable pub allow : BackendKey → RateLimitPolicy → Time → RateLimiter → Bool × ℤ × RateLimiter
  allow key policy now limiter =
      let bucket = refill policy now (bucket_for (lookup key limiter) policy now) in
      let one = float.of_int (pos 1) in
      if not (ltb_ℤ (pos 0) policy.requests_per_minute)
      then (true, pos 0, limiter)
      else if float.at_least bucket.tokens one
      then (
        true,
        pos 0,
        insert key (record bucket { tokens = float.sub bucket.tokens one }) limiter,
      )
      else (false, retry_after policy bucket, insert key bucket limiter)

  pub retry_after_positive :
      (policy : RateLimitPolicy) (bucket : TokenBucket F Time) → pos 1 ≤ℤ retry_after policy bucket
  unfolding retry_after
  retry_after_positive policy bucket = ground arith

  pub allow-other :
      (key other : BackendKey) (policy : RateLimitPolicy) (now : Time) (limiter : RateLimiter)
      → key ≢ other
      → lookup other (allow key policy now limiter).2 ≡ lookup other limiter
  unfolding allow
  allow-other key other policy now limiter h =
      let bucket = refill policy now (bucket_for (lookup key limiter) policy now) in
      let one = float.of_int (pos 1) in
      ground (
        arith,
        (pair_eq {A = Str} {B = Str}).beq_iff key other,
        lookup-insert key other (record bucket { tokens = float.sub bucket.tokens one }) limiter,
        lookup-insert key other bucket limiter,
      )
