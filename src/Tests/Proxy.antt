-- ===== src/Tests/Proxy.antt =====
-- The proxy at work, and the drain of one gateway.
use inferops.Base.{has_prefix}
use inferops.Routing.Registry.Ops.{first_cover}
use inferops.Base.{contains_any}
use inferops.Proxy.Serve.{join_url_path}
use inferops.Base.{trim_prefix}
use inferops.Routing.Registry.Weighted.{can_serve}
use inferops.Routing.Registry.Ops.{select_backend}
use inferops.Proxy.Serve.{serve_backend}
use inferops.Base.{has_prefix}
use inferops.Routing.Registry.Ops.{first_cover}
use inferops.Base.{contains_any}
use inferops.Base.{
  ℕ, [], ◌∷◌, ◌≡◌, refl, true, Option, none, some, Str, codes, ℤ, pos, eqb_ℤ, arith, str_eq,
  pair_eq, lookup, trim_suffix_byte, ◌++◌,
}
use inferops.RoutingPath.Clean.{clean, slash}
use inferops.Routing.Types.{Backend, ready, identity, RateLimitPolicy}
use inferops.Routing.Registry.Defs.{MemoryRegistry}
use inferops.Routing.Registry.Ops.{select}
use inferops.Proxy.Tracker.{
  active_at, active_count, begin_request, count_in, idle, admit, tracker_refines,
}
use inferops.Proxy.Limiter.{Floats, allow}
use inferops.Proxy.Serve.{
  Options, RequestUrl, refused, forwarded, Gateway, serve_http, canonical_request_path,
  endpoint_path, rate_limit_allowed, is_api_path,
}
use inferops.Proxy.Laws.{serve_http-forward, serve_http-refused, IsRefusal}
use inferops.Tests.Fixtures.{backend_of}

abbrev model : Backend
model = backend_of (codes "o") (codes "/m") ready 1

tracker_refines_example :
    active_at (identity model) (begin_request model [])
    ≡ pos (count_in (identity model) (identity model ∷ []))
tracker_refines_example = tracker_refines (identity model) (admit model (omega arith) idle)

-- Whole tokens, and a time in seconds, in place of float64.
abbrev seconds : Floats ℤ ℕ
seconds = record {
  of_int = λ n. n;
  add = λ a b. a;
  sub = λ a b. a;
  mul = λ a b. a;
  div = λ a b. a;
  minimum = λ a b. a;
  ceil = λ a. a;
  at_least = λ a b. true;
  same = eqb_ℤ;
  seconds_since = λ now last. pos 0;
}

abbrev limit : RateLimitPolicy
limit = record { requests_per_minute = pos 60; burst = pos 0 }

abbrev registry : MemoryRegistry
registry = record { routes = (codes "/m", model ∷ []) ∷ []; prefixes = codes "/m" ∷ []; rr = [] }

abbrev gateway : Gateway seconds
gateway = record { registry = registry; tracker = []; limiter = [] }

abbrev options : Options
options = record { default_rate_limit = some limit; request_logging_enabled = none }

abbrev request_to : Str → Option RequestUrl
request_to path = some (record { path = path; raw_path = [] })

abbrev served : Gateway seconds
served = (serve_http seconds options 1 (request_to (codes "/m/v1/x")) gateway).1

serve_http_test :
    serve_http seconds options 1 (request_to (codes "/m/v1/x")) gateway
    ≡ (forwarded model (codes "/v1/x"), served)
unfolding serve_http select canonical_request_path contains_any clean trim_suffix_byte first_cover
    has_prefix serve_backend select_backend lookup can_serve trim_prefix rate_limit_allowed allow
    join_url_path
serve_http_test = refl

missing_test : serve_http seconds options 1 (request_to (codes "/q/v1/x")) gateway ≡ (
  refused 404 none
      (codes "model_not_found")
      (codes "unknown_model")
      (codes "model route was not found"),
  gateway,
)
unfolding serve_http select canonical_request_path contains_any clean trim_suffix_byte first_cover
    has_prefix
missing_test = refl

serve_http-refused_example : IsRefusal 404 none × (gateway.tracker ≡ gateway.tracker)
serve_http-refused_example =
    serve_http-refused seconds options 1 (request_to (codes "/q/v1/x")) gateway gateway 404 none
      (codes "model_not_found") (codes "unknown_model") (codes "model route was not found")
      missing_test

serve_http-forward_example :
    let (found, after) = select (codes "/m/v1/x") (some (λ c. active_count c [])) registry in
    (canonical_request_path (request_to (codes "/m/v1/x")) ≡ true)
    × (model.state ≡ ready)
    × ((rate_limit_allowed seconds options model 1 []).0 ≡ true)
    × (served.registry ≡ after)
    × (served.tracker ≡ begin_request model [])
    × ((up : Str) × (found ≡ some (model, up))
        × (is_api_path up ≡ true)
        × (codes "/v1/x" ≡ trim_suffix_byte (endpoint_path model.endpoint) slash ++ up))
serve_http-forward_example =
    serve_http-forward seconds options 1 (request_to (codes "/m/v1/x")) gateway served model
      (codes "/v1/x") serve_http_test
