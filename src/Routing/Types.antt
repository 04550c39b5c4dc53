-- ===== src/Routing/Types.antt =====
-- `Backend`, its policy and its state (gateway/internal/routing/router.go). A pointer that may be
-- nil is an `Option`. `cloneBackend` copies what a pointer holds: on values it is the identity.
use inferops.Base.{[], Bool, true, false, Option, none, some, Str, ℤ, pos}

-- A `State` is a string: `other_state` is any but the five constants.
pub data State : Type 0 where
  inactive activating ready unavailable draining : State
  other_state : Str → State

-- The fields of `url.URL` that the gateway reads and writes.
pub record Url : Type 0 where
  pub scheme : Str
  pub host : Str
  pub path : Str

pub data RoutingStrategy : Type 0 where
  unset least_loaded weighted : RoutingStrategy
  other_strategy : Str → RoutingStrategy

pub record RateLimitPolicy : Type 0 where
  pub requests_per_minute : ℤ
  pub burst : ℤ

-- `request_logging` is `RequestLogging`, with its one field `Enabled` inside.
pub record TrafficPolicy : Type 0 where
  pub routing_strategy : RoutingStrategy
  pub weight : Option ℤ
  pub rate_limit : Option RateLimitPolicy
  pub request_logging : Option (Option Bool)

pub record Backend : Type 0 where
  pub name : Str
  pub namespace : Str
  pub route_prefix : Str
  pub endpoint : Option Url
  pub state : State
  pub message : Str
  pub policy : TrafficPolicy

-- The zero value `Backend{}`.
abbrev pub zero_backend : Backend
zero_backend = record {
  name = [];
  namespace = [];
  route_prefix = [];
  endpoint = none;
  state = other_state [];
  message = [];
  policy = record {
    routing_strategy = unset;
    weight = none;
    rate_limit = none;
    request_logging = none;
  };
}

abbrev pub default_traffic_weight : ℤ
default_traffic_weight = pos 100

abbrev weight_or_default : Option ℤ → ℤ
weight_or_default none = default_traffic_weight
weight_or_default (some w) = w

abbrev pub effective_weight : Backend → ℤ
effective_weight b = weight_or_default b.policy.weight

-- `backendKey`: the namespace and the name.
abbrev pub BackendKey : Type 0
BackendKey = Str × Str

abbrev pub identity : Backend → BackendKey
identity b = (b.namespace, b.name)

abbrev pub is_ready : State → Bool
is_ready ready = true
is_ready _ = false

abbrev pub is_weighted : RoutingStrategy → Bool
is_weighted weighted = true
is_weighted _ = false
