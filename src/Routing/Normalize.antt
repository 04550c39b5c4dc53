-- ===== src/Routing/Normalize.antt =====
-- `normalizeBackend` and `normalizeTrafficPolicy` (gateway/internal/routing/router.go).
pub mod Laws
use inferops.Base.{
  List, [], ◌∷◌, Bool, true, false, not, ◌&&◌, ◌||◌, if◌then◌else◌, Option, none, some, Str, ◌==◌,
  str_eq, nat_eq, is_empty, codes, contains_any, trim_space, ℤ, pos, ltb_ℤ, Result, ok, err, ◌>>=◌,
  ◌>>◌, fail_if,
}
use inferops.RoutingPath.Defs.{PathError, normalize, default_model_route}
use inferops.Routing.Types.{
  State, inactive, activating, ready, unavailable, draining, other_state, Url, RoutingStrategy,
  unset, least_loaded, weighted, other_strategy, RateLimitPolicy, TrafficPolicy, Backend, is_ready,
}

pub data BackendError : Type 0 where
  name_required name_not_one_segment invalid_state : BackendError
  invalid_route_prefix : PathError → BackendError
  endpoint_required endpoint_scheme : BackendError
  unsupported_strategy negative_weight negative_rate negative_burst : BackendError
  duplicate_backend : BackendError

map_error {ℓ} : {A : Type ℓ} → Result PathError A → Result BackendError A
map_error (ok a) = ok a
map_error (err e) = err (invalid_route_prefix e)

is_known : State → Bool
is_known (other_state _) = false
is_known _ = true

-- The two checks of the endpoint of a ready backend.
check_endpoint : Option Url → Result BackendError (Unit {0})
check_endpoint none = err endpoint_required
check_endpoint (some u) =
    fail_if (is_empty u.scheme || is_empty u.host) endpoint_required
    >> fail_if (not (u.scheme == codes "http") && not (u.scheme == codes "https")) endpoint_scheme

normalize_strategy : RoutingStrategy → Result BackendError RoutingStrategy
normalize_strategy unset = ok least_loaded
normalize_strategy least_loaded = ok least_loaded
normalize_strategy weighted = ok weighted
normalize_strategy (other_strategy s) = err unsupported_strategy

check_weight : Option ℤ → Result BackendError (Unit {0})
check_weight none = ok tt
check_weight (some w) = fail_if (ltb_ℤ w (pos 0)) negative_weight

check_rate_limit : Option RateLimitPolicy → Result BackendError (Unit {0})
check_rate_limit none = ok tt
check_rate_limit (some r) =
    fail_if (ltb_ℤ r.requests_per_minute (pos 0)) negative_rate
    >> fail_if (ltb_ℤ r.burst (pos 0)) negative_burst

unfoldable pub normalize_traffic_policy : TrafficPolicy → Result BackendError TrafficPolicy
unfolding normalize_strategy check_weight check_rate_limit
normalize_traffic_policy policy = do
  strategy ← normalize_strategy policy.routing_strategy
  check_weight policy.weight
  check_rate_limit policy.rate_limit
  ok (record policy { routing_strategy = strategy })

unfoldable pub normalize_backend : Backend → Result BackendError Backend
unfolding map_error is_known check_endpoint
normalize_backend backend = do
  let name = trim_space backend.name
  fail_if (is_empty name) name_required
  fail_if (contains_any name (codes "/")) name_not_one_segment
  let prefix =
      if is_empty backend.route_prefix then default_model_route name else backend.route_prefix
  normalized_prefix ← map_error (normalize prefix)
  fail_if (not (is_known backend.state)) invalid_state
  (if is_ready backend.state then check_endpoint backend.endpoint else ok tt)
  policy ← normalize_traffic_policy backend.policy
  ok (record backend { name = name; route_prefix = normalized_prefix; policy = policy })
