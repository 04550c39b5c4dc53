-- ===== src/Proxy/Serve.antt =====
-- `ServeHTTP` and what it calls (gateway/internal/proxy/proxy.go): what becomes of a request, as a
-- function of the request, the gateway's state and the time. What the reverse proxy of net/http does
-- with a forwarded request, and the writing of the response, are left out.
use inferops.Base.{
  ℕ, [], ◌∷◌, ◌++◌, Bool, true, false, not, ◌||◌, if◌then◌else◌, Option, none, some, Str, ◌==◌,
  str_eq, is_empty, codes, has_prefix, trim_prefix, trim_suffix_byte, trim_space, contains_any, ℤ,
  pos, ltb_ℤ, nat_eq,
}
use inferops.RoutingPath.Clean.{slash, clean}
use inferops.Routing.Types.{
  inactive, activating, ready, draining, Url, RateLimitPolicy, Backend, identity,
}
use inferops.Routing.Registry.Defs.{MemoryRegistry}
use inferops.Routing.Registry.Ops.{select}
use inferops.Proxy.Tracker.{RequestTracker, active_count, begin_request}
use inferops.Proxy.Limiter.{Floats, RateLimiter, allow}

-- The fields of `request.URL` that are read.
pub record RequestUrl : Type 0 where
  pub path : Str
  pub raw_path : Str

pub record Options : Type 0 where
  pub default_rate_limit : Option RateLimitPolicy
  pub request_logging_enabled : Option Bool

-- `writeError`, with the value of the header Retry-After if it is set; and what `forward` sends.
pub data Reply : Type 0 where
  refused : (status : ℕ) (retry : Option ℤ) (code kind message : Str) → Reply
  forwarded : (to : Backend) (path : Str) → Reply

abbrev pub retry_after_seconds : ℤ
retry_after_seconds = pos 5

-- `canonicalRequestPath`.
unfoldable pub canonical_request_path : Option RequestUrl → Bool
canonical_request_path none = false
canonical_request_path (some u) =
    let trimmed = trim_suffix_byte u.path slash in
    let without_trailing_slash = if is_empty trimmed then slash ∷ [] else trimmed in
    if is_empty u.path || not (is_empty u.raw_path) || contains_any u.path (92 ∷ [])
    then false
    else clean u.path == without_trailing_slash

-- `joinURLPath`, of the path of the endpoint.
unfoldable pub join_url_path : Str → Str → Str
join_url_path endpoint_path request_path =
    let base = trim_suffix_byte endpoint_path slash in
    if is_empty request_path || request_path == slash ∷ []
    then (if is_empty base then slash ∷ [] else base ++ slash ∷ [])
    else base ++ slash ∷ trim_prefix request_path (slash ∷ [])

-- `stateMessage`.
unfoldable pub state_message : Backend → Str → Str
state_message b fallback = if is_empty (trim_space b.message) then fallback else b.message

abbrev pub endpoint_path : Option Url → Str
endpoint_path none = []
endpoint_path (some u) = u.path

abbrev pub path_of : Option RequestUrl → Str
path_of none = []
path_of (some u) = u.path

-- `rateLimitPolicy`.
unfoldable pub rate_limit_policy : Options → Backend → Option RateLimitPolicy
rate_limit_policy options b = elim b.policy.rate_limit [
  | some policy ↦ some policy
  | none ↦ options.default_rate_limit
]

abbrev or_option : Option Bool → Bool
or_option none = false
or_option (some enabled) = enabled

-- `requestLoggingEnabled`.
unfoldable pub logging_enabled : Options → Backend → Bool
logging_enabled options b = elim b.policy.request_logging [
  | some (some enabled) ↦ enabled
  | some none ↦ or_option options.request_logging_enabled
  | none ↦ or_option options.request_logging_enabled
]

-- The status that `logRequest` reports, of the one recorded (0: none) and whether the context of
-- the request was cancelled.
unfoldable pub logged_status : ℕ → Bool → ℕ
logged_status status cancelled = if status == 0 then (if cancelled then 499 else 200) else status

-- The status that an `accessLogWriter` has after `WriteHeader`.
unfoldable pub write_header : ℕ → ℕ → ℕ
write_header status recorded = if not (recorded == 0) then recorded else status

-- Whether the upstream path is one of the API's.
abbrev pub is_api_path : Str → Bool
is_api_path path = path == codes "/v1" || has_prefix path (codes "/v1/")

module _ {F : Type 0} {Time : Type 0} (float : Floats F Time) where
  -- The state of a gateway: the registry, the tracker and the limiter of its proxy.
  pub record Gateway : Type 0 where
    pub registry : MemoryRegistry
    pub tracker : RequestTracker
    pub limiter : RateLimiter float

  -- `rateLimitAllowed`.
  unfoldable pub rate_limit_allowed :
      Options → Backend → Time → RateLimiter float → Bool × ℤ × RateLimiter float
  unfolding rate_limit_policy
  rate_limit_allowed options b now limiter = elim (rate_limit_policy options b) [
    | none ↦ (true, pos 0, limiter)
    | some policy ↦
        if not (ltb_ℤ (pos 0) policy.requests_per_minute)
        then (true, pos 0, limiter)
        else allow float (identity b) policy now limiter
  ]

  -- The branch `StateReady`, with the start of `forward`.
  unfoldable pub serve_ready : Options → Time → Backend → Str → Gateway → Reply × Gateway
  serve_ready options now b upstream_path g =
      let (allowed, retry, limiter) = rate_limit_allowed options b now g.limiter in
      if not (is_api_path upstream_path)
      then (
        refused 404 none (codes "invalid_path") (codes "invalid_request_error")
            (codes "model routes accept only /v1 endpoints"),
        g,
      )
      else if not allowed
      then (
        refused 429 (some retry) (codes "rate_limit_exceeded") (codes "rate_limit_error")
            (codes "model route rate limit exceeded"),
        record g { limiter = limiter },
      )
      else (
        forwarded b (join_url_path (endpoint_path b.endpoint) upstream_path),
        record g { limiter = limiter; tracker = begin_request b g.tracker },
      )

  -- The switch over the state of the backend.
  unfoldable pub serve_backend : Options → Time → Backend → Str → Gateway → Reply × Gateway
  unfolding serve_ready
  serve_backend options now b upstream_path g = elim b.state [
    | ready ↦ serve_ready options now b upstream_path g
    | inactive ↦ (
      refused 409 none (codes "model_inactive") (codes "inactive_model")
          (state_message b (codes "model is inactive")),
      g,
    )
    | activating ↦ (
      refused 503 (some retry_after_seconds) (codes "model_activating") (codes "activating_model")
          (state_message b (codes "model is activating")),
      g,
    )
    | draining ↦ (
      refused 503 (some retry_after_seconds) (codes "model_draining") (codes "unavailable_model")
          (state_message b (codes "model is draining")),
      g,
    )
    | _ ↦ (
      refused 503 (some retry_after_seconds) (codes "model_unavailable") (codes "unavailable_model")
          (state_message b (codes "model is unavailable")),
      g,
    )
  ]

  unfoldable pub serve_found : Options → Time → Option (Backend × Str) → Gateway → Reply × Gateway
  serve_found options now none g = (
    refused 404 none (codes "model_not_found") (codes "unknown_model")
        (codes "model route was not found"),
    g,
  )
  serve_found options now (some (b, upstream_path)) g = serve_backend options now b upstream_path g

  -- `ServeHTTP`, with its `lookup` of a registry that selects by the active requests.
  unfoldable pub serve_http : Options → Time → Option RequestUrl → Gateway → Reply × Gateway
  unfolding serve_found
  serve_http options now url g =
      let (found, registry) =
        select (path_of url) (some (λ b. active_count b g.tracker)) g.registry in
      if not (canonical_request_path url)
      then (
        refused 400 none (codes "invalid_path") (codes "invalid_request_error")
            (codes "request path must not contain escapes, backslashes, or traversal segments"),
        g,
      )
      else serve_found options now found (record g { registry = registry })
