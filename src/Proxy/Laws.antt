-- ===== src/Proxy/Laws.antt =====
-- When `ServeHTTP` forwards a request, and what it answers else (gateway/internal/proxy/proxy.go).
use inferops.Base.{
  lookup, pair_eq, sym, ℕ, [], ◌∷◌, ◌++◌, ◌≡◌, refl, ◌⊎◌, inl, inr, true, false, Option, none, some,
  Str, ◌==◌, str_eq, str_beq_iff, codes, has_prefix, drop, has_prefix-append, trim_prefix,
  trim_suffix_byte, ℤ, pos, ◌≤ℤ◌, arith, Bool-cases, Option-cases,
}
use inferops.RoutingPath.Clean.{slash}
use inferops.Routing.Types.{ready, Backend, identity}
use inferops.Routing.Registry.Ops.{select}
use inferops.Proxy.Tracker.{active_count, begin_request}
use inferops.Proxy.Limiter.{Floats, RateLimiter, allow, refill, bucket_for, retry_after_positive}
use inferops.Proxy.Serve.{
  rate_limit_policy, RequestUrl, Options, refused, forwarded, canonical_request_path, join_url_path,
  endpoint_path, path_of, is_api_path, Gateway, rate_limit_allowed, serve_ready, serve_backend,
  serve_found, serve_http,
}

api_path_head : (path : Str) → is_api_path path ≡ true → (rest : Str) × (path ≡ codes "/v1" ++ rest)
api_path_head path h = elim (Bool-cases (path == codes "/v1")) [
  | inl same ↦ ([], (str_beq_iff path (codes "/v1")).0 same)
  | inr other ↦
      (slash ∷ drop 4 path, sym (has_prefix-append path (codes "/v1/") (ground (arith, h, other))))
]

-- An API path is put behind the path of the endpoint.
join_url_path_api :
    (endpoint path : Str)
    → is_api_path path ≡ true
    → join_url_path endpoint path ≡ trim_suffix_byte endpoint slash ++ path
unfolding join_url_path trim_prefix has_prefix drop
join_url_path_api endpoint path h = let (rest, same) = api_path_head path h in rw same refl

-- What an answer of the gateway itself is: a client error without a time, or 429 or 503 with a
-- time from a second on.
abbrev pub IsRefusal : ℕ → Option ℤ → Type 0
IsRefusal status none = (status ≡ 400) ⊎ (status ≡ 404) ⊎ (status ≡ 409)
IsRefusal status (some retry) = ((status ≡ 429) ⊎ (status ≡ 503)) × (pos 1 ≤ℤ retry)

module _ {F : Type 0} {Time : Type 0} (float : Floats F Time) where
  serve_ready-forward :
      (options : Options) (now : Time) (b to : Backend) (up path : Str) (g g' : Gateway float)
      → serve_ready float options now b up g ≡ (forwarded to path, g')
      → (to ≡ b)
        × (is_api_path up ≡ true)
        × ((rate_limit_allowed float options b now g.limiter).0 ≡ true)
        × (path ≡ trim_suffix_byte (endpoint_path b.endpoint) slash ++ up)
        × (g'.registry ≡ g.registry)
        × (g'.tracker ≡ begin_request b g.tracker)
  unfolding serve_ready
  serve_ready-forward options now b to up path g g' e =
      ground (arith, join_url_path_api (endpoint_path b.endpoint) up)

  serve_backend-forward :
      (options : Options) (now : Time) (b to : Backend) (up path : Str) (g g' : Gateway float)
      → serve_backend float options now b up g ≡ (forwarded to path, g')
      → (b.state ≡ ready) × (serve_ready float options now b up g ≡ (forwarded to path, g'))
  unfolding serve_backend
  serve_backend-forward options now b to up path g g' e = ground arith

  -- A request is forwarded only if its path is canonical, the registry selects a ready backend for
  -- it by the active requests, what is behind the route is an API path and the rate limit lets it
  -- through. It goes to that backend, at that path behind the one of the endpoint, and is counted
  -- as active there.
  pub serve_http-forward :
      (options : Options) (now : Time) (url : Option RequestUrl) (g g' : Gateway float)
      (b : Backend) (path : Str)
      → serve_http float options now url g ≡ (forwarded b path, g')
      → let (found, registry) =
          select (path_of url) (some (λ c. active_count c g.tracker)) g.registry in
        (canonical_request_path url ≡ true)
        × (b.state ≡ ready)
        × ((rate_limit_allowed float options b now g.limiter).0 ≡ true)
        × (g'.registry ≡ registry)
        × (g'.tracker ≡ begin_request b g.tracker)
        × ((up : Str) × (found ≡ some (b, up))
            × (is_api_path up ≡ true)
            × (path ≡ trim_suffix_byte (endpoint_path b.endpoint) slash ++ up))
  unfolding serve_http serve_found
  serve_http-forward options now url g g' b path e =
      let sel = select (path_of url) (some (λ c. active_count c g.tracker)) g.registry in
      let g1 : Gateway float = record g { registry = sel.1 } in
      elim (Bool-cases (canonical_request_path url)) [
        | inr bad ↦ absurd (ground (arith, e, bad))
        | inl canonical ↦ elim (Option-cases sel.0) [
          | inl missing ↦ absurd (ground (arith, e, canonical, missing))
          | inr (hit, hit-eq) ↦
              let (same, up) = hit in
              let (is_ready, served) =
                serve_backend-forward options now same b up path g1 g'
                  (ground (arith, e, canonical, hit-eq)) in
              let (to, api, allowed, at, registry, tracker) =
                serve_ready-forward options now same b up path g1 g' served in
              (
                canonical,
                ground (arith, is_ready, to),
                ground (arith, allowed, to),
                registry,
                ground (arith, tracker, to),
                (up, ground (arith, hit-eq, to), api, ground (arith, at, to)),
              )
        ]
      ]

  rate_limit_allowed-retry :
      (options : Options) (b : Backend) (now : Time) (limiter : RateLimiter float)
      → (rate_limit_allowed float options b now limiter).0 ≡ false
      → pos 1 ≤ℤ (rate_limit_allowed float options b now limiter).1
  unfolding rate_limit_allowed allow
  rate_limit_allowed-retry options b now limiter h =
      elim (Option-cases (rate_limit_policy options b)) [
        | inl absent ↦ ground (arith, h, absent)
        | inr (policy, set) ↦ ground (
          arith,
          h,
          set,
          retry_after_positive float policy
              (refill float policy now (bucket_for float (lookup (identity b) limiter) policy now)),
        )
      ]

  serve_ready-refused :
      (options : Options) (now : Time) (b : Backend) (up : Str) (g g' : Gateway float) (status : ℕ)
      (retry : Option ℤ) (code kind message : Str)
      → serve_ready float options now b up g ≡ (refused status retry code kind message, g')
      → IsRefusal status retry
        × (g'.tracker ≡ g.tracker)
        × (g'.registry ≡ g.registry)
        × ((status ≡ 404) ⊎ (status ≡ 429))
  unfolding serve_ready
  serve_ready-refused options now b up g g' status retry code kind message e =
      ground (arith, e, rate_limit_allowed-retry options b now g.limiter)

  -- What the gateway refuses is a client error without a time to come again, or it is 429 or 503
  -- with one, from a second on; no request is counted as active for it.
  pub serve_http-refused :
      (options : Options) (now : Time) (url : Option RequestUrl) (g g' : Gateway float) (status : ℕ)
      (retry : Option ℤ) (code kind message : Str)
      → serve_http float options now url g ≡ (refused status retry code kind message, g')
      → IsRefusal status retry × (g'.tracker ≡ g.tracker)
  unfolding serve_http serve_found serve_backend
  serve_http-refused options now url g g' status retry code kind message e =
      let sel = select (path_of url) (some (λ c. active_count c g.tracker)) g.registry in
      let g1 : Gateway float = record g { registry = sel.1 } in
      elim (Option-cases sel.0) [
        | inl missing ↦ ground (arith, e, missing)
        | inr (hit, found) ↦ ground (
          arith,
          e,
          found,
          serve_ready-refused options now hit.0 hit.1 g1 g' status retry code kind message,
        )
      ]
