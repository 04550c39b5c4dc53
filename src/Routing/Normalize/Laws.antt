-- ===== src/Routing/Normalize/Laws.antt =====
-- What `normalizeBackend` has established when it returns (gateway/internal/routing/router.go).
use inferops.Base.{
  [], ◌≡◌, ◌≢◌, refl, ◌∙◌, false, ◌⊎◌, inl, inr, Option, none, some, Str, str_eq, str_beq_iff,
  arith, is_empty, codes, contains_any, ℤ, pos, ◌≤ℤ◌, ok, Result-cases, ap, if◌then◌else◌,
  trim_space,
}
use inferops.RoutingPath.Defs.{normalize, default_model_route}
use inferops.RoutingPath.Laws.{normalize_idempotent}
use inferops.Routing.Types.{
  ready, other_state, Url, least_loaded, weighted, RateLimitPolicy, TrafficPolicy, Backend,
}
use inferops.Routing.Normalize.{check_endpoint, normalize_traffic_policy, normalize_backend}

pub record IsNormalPolicy (policy : TrafficPolicy) : Type 0 where
  pub strategy : (policy.routing_strategy ≡ least_loaded) ⊎ (policy.routing_strategy ≡ weighted)
  pub weight : (w : ℤ) → policy.weight ≡ some w → pos 0 ≤ℤ w
  pub rate :
      (p : RateLimitPolicy)
      → policy.rate_limit ≡ some p
      → (pos 0 ≤ℤ p.requests_per_minute) × (pos 0 ≤ℤ p.burst)

-- A backend that the registry may hold.
pub record IsNormal (b : Backend) : Type 0 where
  pub named : b.name ≢ []
  pub one_segment : contains_any b.name (codes "/") ≡ false
  pub prefix : normalize b.route_prefix ≡ ok b.route_prefix
  pub known : (s : Str) → b.state ≢ other_state s
  pub reachable :
      b.state ≡ ready
      → (u : Url) × (b.endpoint ≡ some u)
        × (u.host ≢ [])
        × ((u.scheme ≡ codes "http") ⊎ (u.scheme ≡ codes "https"))
  pub policy : IsNormalPolicy b.policy

normalize_traffic_policy-IsNormalPolicy :
    (policy normal : TrafficPolicy)
    → normalize_traffic_policy policy ≡ ok normal
    → IsNormalPolicy normal
unfolding normalize_traffic_policy
normalize_traffic_policy-IsNormalPolicy policy normal h = record {
  strategy = ground arith;
  weight = λ w e. ground arith;
  rate = λ p e. ground arith;
}

name_named : (s : Str) → is_empty s ≡ false → s ≢ []
name_named s h = ground arith

-- The checks that passed, with the callees shut.
record Passed (b n : Backend) : Type 0 where
  named : is_empty n.name ≡ false
  one_segment : contains_any n.name (codes "/") ≡ false
  prefix : (p : Str) × (normalize p ≡ ok n.route_prefix)
  known : (s : Str) → n.state ≢ other_state s
  endpoint : n.state ≡ ready → check_endpoint n.endpoint ≡ ok tt
  policy : normalize_traffic_policy b.policy ≡ ok n.policy

passed : (b n : Backend) → normalize_backend b ≡ ok n → Passed b n
unfolding normalize_backend
passed b n h =
    let name = trim_space b.name in
    let p = if is_empty b.route_prefix then default_model_route name else b.route_prefix in
    elim (Result-cases (normalize p)) [
      | inl (m, e) ↦ elim (Result-cases (normalize_traffic_policy b.policy)) [
        | inl (q, f) ↦
            let h' = rw (e, f) at h in
            record {
              named = ground arith;
              one_segment = ground arith;
              prefix = (p, e ∙ ap ok (ground arith));
              known = λ s k. ground arith;
              endpoint = λ k. ground arith;
              policy = f ∙ ap ok (ground arith);
            }
        | inr (x, f) ↦ let h' = rw (e, f) at h in absurd (ground arith)
      ]
      | inr (x, e) ↦ let h' = rw e at h in absurd (ground arith)
    ]

endpoint_checked :
    (e : Option Url)
    → check_endpoint e ≡ ok tt
    → (u : Url) × (e ≡ some u)
      × (u.host ≢ [])
      × ((u.scheme ≡ codes "http") ⊎ (u.scheme ≡ codes "https"))
unfolding check_endpoint
endpoint_checked none h = cc
endpoint_checked (some u) h = (
  u,
  refl,
  ground arith,
  ground (arith, str_beq_iff u.scheme (codes "http"), str_beq_iff u.scheme (codes "https")),
)

-- A backend that `normalizeBackend` returns has a name of one path segment, a canonical route
-- prefix, one of the five states, an http or https endpoint with a host if it is ready, and a
-- policy with a known strategy and no negative number.
pub normalize_backend-IsNormal : (b n : Backend) → normalize_backend b ≡ ok n → IsNormal n
normalize_backend-IsNormal b n h =
    let s = passed b n h in
    record {
      named = name_named n.name s.named;
      one_segment = s.one_segment;
      prefix = normalize_idempotent s.prefix.0 n.route_prefix s.prefix.1;
      known = s.known;
      reachable = λ e. endpoint_checked n.endpoint (s.endpoint e);
      policy = normalize_traffic_policy-IsNormalPolicy b.policy n.policy s.policy;
    }
