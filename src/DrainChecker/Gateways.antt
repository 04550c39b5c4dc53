-- ===== src/DrainChecker/Gateways.antt =====
-- What the operator may conclude from `DrainComplete` (operator/controllers/drain_checker.go) when
-- what answers is `ServeDrainStatus` of the gateways (gateway/internal/proxy/proxy.go).
use inferops.Base.{
  ℕ, List, [], ◌∷◌, ◌≡◌, refl, inl, inr, Bool, true, false, ◌&&◌, Option, some, Str, ◌==◌, str_eq,
  nat_eq, str_beq_iff, is_empty, codes, trim_space, pos, In, In-keep, keep, map, arith, Bool-cases,
  Option-cases, Result-cases, ok, ◌>>◌, fail_if, >>=-eq-ok,
}
use inferops.Kube.{Endpoint, EndpointSlice}
use inferops.Routing.Types.{draining, Url, Backend, BackendKey, identity}
use inferops.Routing.Registry.Defs.{MemoryRegistry}
use inferops.Routing.Registry.Ops.{backends}
use inferops.Proxy.Tracker.{RequestTracker, active_count, count_in, Serving, tracker_refines}
use inferops.Proxy.Drain.{
  DrainBackendStatus, DrainRequest, drain_status, passes, status_of, statuses, serve_drain_status,
}
use inferops.DrainChecker.{
  no_ready_endpoints, DrainChecker, is_nil, endpoint_ready, is_gateway_slice,
  gateway_endpoint_addresses, authorization_of, answered, decoded, only_backend,
  query_drain_endpoint, drain_url, query_all, drain_complete,
}
use inferops.DrainChecker.Addresses.{gateway_endpoint_addresses-In}

-- A backend of this name that is draining, without a request in flight.
abbrev pub IsDrained : MemoryRegistry → List BackendKey → Str → Str → Type 0
IsDrained registry in_flight namespace model =
    (b : Backend) × In b (backends registry)
    × (identity b ≡ (namespace, model))
    × (b.state ≡ draining)
    × (count_in (namespace, model) in_flight ≡ 0)

one_complete :
    (t : RequestTracker) (bs : List Backend)
    → map (λ s. s.drain_complete) (map (status_of t) bs) ≡ true ∷ []
    → (b : Backend) × (bs ≡ b ∷ []) × (b.state ≡ draining) × (active_count b t ≡ pos 0)
unfolding status_of
one_complete t [] h = cc
one_complete t (b ∷ []) h = (b, refl, ground (arith, h), ground (arith, h))
one_complete t (b ∷ c ∷ bs) h = cc

passes-same :
    (filter value : Str) → is_empty filter ≡ false → passes filter value ≡ true → value ≡ filter
passes-same filter value h p = ground (arith, h, p, str_beq_iff value filter)

-- A gateway whose status says that its one answer is complete is drained.
served-IsDrained :
    (registry : MemoryRegistry) (t : RequestTracker) (in_flight : List BackendKey)
    (namespace model : Str) (ss : List DrainBackendStatus)
    → Serving in_flight t
    → trim_space namespace ≡ namespace
    → trim_space model ≡ model
    → is_empty namespace ≡ false
    → is_empty model ≡ false
    → serve_drain_status
        (record { method = codes "GET"; namespace = namespace; model = model })
        registry
        t
      ≡ drain_status ss
    → map (λ s. s.drain_complete) ss ≡ true ∷ []
    → IsDrained registry in_flight namespace model
unfolding serve_drain_status statuses active_count
served-IsDrained registry t in_flight namespace model ss serving tn tm en em e h =
    let test : Backend → Bool =
      λ b. passes (trim_space namespace) b.namespace && passes (trim_space model) b.name in
    let same : map (status_of t) (keep test (backends registry)) ≡ ss = ground (arith, e) in
    let (b, one, state, zero_active) =
      one_complete t (keep test (backends registry)) (ground (arith, same, h)) in
    let (member, passed) = In-keep test (backends registry) {a = b} (rw one (inl refl)) in
    let ns : b.namespace ≡ namespace =
      passes-same namespace b.namespace en (ground (arith, passed, tn)) in
    let nm : b.name ≡ model = passes-same model b.name em (ground (arith, passed, tm)) in
    (
      b,
      member,
      ground (arith, ns, nm),
      state,
      ground (arith, tracker_refines (identity b) serving, zero_active, ns, nm),
    )

only_backend-true : (flags : List Bool) → only_backend flags ≡ ok true → flags ≡ true ∷ []
unfolding only_backend
only_backend-true [] h = cc
only_backend-true (f ∷ []) h = ground (arith, h)
only_backend-true (f ∷ g ∷ flags) h = cc

module _ {Body : Type 0} (send : Url → DrainRequest → Option Str → Option (ℕ × Body))
    (decode : Body → Option (List Bool)) (read_file : Str → Option Str) where
  -- A gateway that counts as drained answered 200, with one flag, which is set.
  query_drain_endpoint-true :
      (url : Url) (namespace model : Str) (token : Option Str)
      → query_drain_endpoint send decode read_file url namespace model token ≡ ok true
      → (authorization : Option Str) × (body : Body) × (send url
            (record { method = codes "GET"; namespace = namespace; model = model })
            authorization
          ≡ some (200, body))
        × (decode body ≡ some (true ∷ []))
  unfolding query_drain_endpoint answered decoded
  query_drain_endpoint-true url namespace model token h =
      let request : DrainRequest = record {
        method = codes "GET";
        namespace = namespace;
        model = model;
      } in
      let (authorization, _, answer) =
        >>=-eq-ok (authorization_of read_file token)
          (λ a. answered send decode read_file (send url request a)) h in
      elim (Option-cases (send url request authorization)) [
        | inl failed ↦ absurd (ground (arith, answer, failed))
        | inr (reply, sent) ↦ elim (Bool-cases (reply.0 == 200)) [
          | inr bad ↦ absurd (ground (arith, answer, sent, bad))
          | inl good ↦ elim (Option-cases (decode reply.1)) [
            | inl bad ↦ absurd (ground (arith, answer, sent, good, bad))
            | inr (flags, read) ↦ (
              authorization,
              reply.1,
              ground (arith, sent, good),
              ground (arith, read, only_backend-true flags, answer, sent, good),
            )
          ]
        ]
      ]

  query_all-true :
      (checker : DrainChecker) (namespace model : Str) (addresses : List Str) (a : Str)
      → query_all send decode read_file checker namespace model addresses ≡ ok true
      → In a addresses
      → query_drain_endpoint send decode read_file
          (drain_url checker a)
          namespace
          model
          checker.token
        ≡ ok true
  unfolding query_all
  query_all-true checker namespace model [] a h m = elim m [ ]
  query_all-true checker namespace model (x ∷ xs) a h m =
      let q =
        query_drain_endpoint send decode read_file (drain_url checker x) namespace model
          checker.token in
      elim (Result-cases q) [
        | inr (error, bad) ↦ absurd (ground (arith, h, bad))
        | inl (complete, good) ↦ elim (Bool-cases complete) [
          | inr f ↦ absurd (ground (arith, h, good, f))
          | inl t ↦ elim m [
            | inl same ↦ rw (same, good, t) refl
            | inr rest ↦
                query_all-true checker namespace model xs a (ground (arith, h, good, t)) rest
          ]
        ]
      ]

  -- When the gateways behind the addresses answer with their drain status, which decodes to its
  -- flags, and `DrainComplete` says yes for a trimmed namespace and name that are not empty, then
  -- the gateway at each address of each ready endpoint of each slice of the Service has a backend
  -- of that name that is draining, and no request for it in flight.
  pub drain_complete-IsDrained :
      (encode : List DrainBackendStatus → Body) (registry : Str → MemoryRegistry)
      (tracker : Str → RequestTracker) (in_flight : Str → List BackendKey) (checker : DrainChecker)
      (ss : List EndpointSlice) (namespace model : Str) (s : EndpointSlice) (e : Endpoint) (a : Str)
      → ((statuses : List DrainBackendStatus)
          → decode (encode statuses) ≡ some (map (λ status. status.drain_complete) statuses))
      → ((url : Url) (request : DrainRequest) (authorization : Option Str) (body : Body)
          → send url request authorization ≡ some (200, body)
          → (statuses : List DrainBackendStatus) × (body ≡ encode statuses)
            × (serve_drain_status request (registry url.host) (tracker url.host)
                ≡ drain_status statuses))
      → ((host : Str) → Serving (in_flight host) (tracker host))
      → drain_complete send decode read_file checker (some ss) namespace model ≡ ok true
      → (trim_space namespace ≡ namespace) × (is_empty namespace ≡ false)
      → (trim_space model ≡ model) × (is_empty model ≡ false)
      → In s ss × (is_gateway_slice checker s ≡ true)
      → In e s.endpoints × (endpoint_ready e ≡ true)
      → In a e.addresses × (is_empty (trim_space a) ≡ false)
      → let host = (drain_url checker (trim_space a)).host in
        IsDrained (registry host) (in_flight host) namespace model
  unfolding drain_complete
  drain_complete-IsDrained encode registry tracker in_flight checker ss namespace model s e a
        decodes replies serving h (tn, en) (tm, em) (j, g) (i, r) (m, nonempty) =
      let (addresses, listed, after) =
        >>=-eq-ok (gateway_endpoint_addresses checker (some ss))
          (λ listed.
            fail_if (is_nil listed) no_ready_endpoints
            >> query_all send decode read_file checker namespace model listed)
          h in
      let (_, _, all_true) =
        >>=-eq-ok (fail_if (is_nil addresses) no_ready_endpoints)
          (λ _. query_all send decode read_file checker namespace model addresses) after in
      let listed_a =
        gateway_endpoint_addresses-In checker ss s e a addresses listed j g i r m nonempty in
      let url = drain_url checker (trim_space a) in
      let (authorization, body, sent, flags) =
        query_drain_endpoint-true url namespace model checker.token
          (query_all-true checker namespace model addresses (trim_space a) all_true listed_a) in
      let (reported, same, served) =
        replies url (record { method = codes "GET"; namespace = namespace; model = model })
          authorization body sent in
      served-IsDrained (registry url.host) (tracker url.host) (in_flight url.host) namespace model
        reported (serving url.host) tn tm en em served
        (ground (arith, decodes reported, flags, same))
