-- ===== src/Discovery/Fresh.antt =====
-- What a gateway publishes is fresh (gateway/internal/discovery/discovery.go).
use inferops.Base.{
  ℕ, ◌≤◌, ◌<◌, List, [], ◌∷◌, ◌≡◌, refl, inl, inr, Bool, true, false, Option, none, some, Str,
  str_eq, In, All-In, arith, Bool-cases, List-cases, map, lookup, ok, codes, Result-cases, ◌∙◌, ap,
  trim_space, is_empty, if◌then◌else◌,
}
use inferops.Kube.{Service}
use inferops.Api.Status.{ModelDeployment}
use inferops.RoutingPath.Defs.{normalize, default_model_route}
use inferops.Routing.Types.{Url, ready, Backend, is_ready}
use inferops.Routing.Normalize.{normalize_backend, normalize_traffic_policy}
use inferops.Routing.Registry.Defs.{new_memory_registry, candidates_at}
use inferops.Routing.Registry.Ops.{replace, mark_ready_unavailable}
use inferops.Routing.Invariant.Publish.{replace_sound}
use inferops.Routing.Invariant.Stale.{marked-closed}
use inferops.Discovery.Endpoints.{ready_services_by_name, services_by_name}
use inferops.Discovery.Gates.{backend_for, runtime_service_name, endpoint_for}
use inferops.Discovery.Laws.{IsServable, HasEndpoint}
use inferops.Discovery.Publish.{IsServiceOf, backend_for-ready}
use inferops.Discovery.Sync.{
  Discovery, ready_at, snapshot_stale, Listing, backends_for, sync, after_sync, run_round,
}

-- The rounds of `Run`, from an empty registry, at times that do not go back.
pub data Running (T : Type 0) : ℕ → Discovery → Type 0 where
  started :
      (now : ℕ) (d : Discovery)
      → d.registry ≡ new_memory_registry
      → 0 < d.sync_interval
      → Running T now d
  next :
      {before : ℕ} {d : Discovery} (now : ℕ) (listing : Option (Listing T))
      → before ≤ now
      → Running T before d
      → Running T now (run_round now listing d).0

abbrev pub HasReady : Discovery → Type 0
HasReady d =
    (prefix : Str) × (b : Backend) × In b (candidates_at prefix d.registry.routes)
    × (is_ready b.state ≡ true)

run_round-unlisted :
    (U : Type 0) (now : ℕ) (d : Discovery)
    → HasReady (run_round {T = U} now none d).0
    → HasReady d
      × (snapshot_stale now d ≡ false)
      × ((run_round {T = U} now none d).0.last_success ≡ d.last_success)
unfolding run_round sync after_sync
run_round-unlisted U now d (prefix, b, m, r) = elim (Bool-cases (snapshot_stale now d)) [
  | inr fresh ↦ ((prefix, b, rw fresh at m, r), fresh, ground (arith, fresh))
  | inl stale ↦
      let closed =
        All-In (λ x. is_ready x.state ≡ false)
          (candidates_at prefix
            (mark_ready_unavailable
              (codes "model registry is stale because Kubernetes discovery is unavailable")
              d.registry).routes)
          (marked-closed
            (codes "model registry is stale because Kubernetes discovery is unavailable") prefix
            d.registry)
          (rw stale at m) in
      absurd (ground (arith, closed, r))
]

module _ {T : Type 0} where
  run_round-listed :
      (now : ℕ) (l : Listing T) (d : Discovery)
      → ((run_round now (some l) d).0.last_success ≡ some now)
        × ((run_round now (some l) d).0.sync_interval ≡ d.sync_interval)
  unfolding run_round sync after_sync
  run_round-listed now l d = elim (List-cases (replace (backends_for l) d.registry).1) [
    | inl e ↦ rw e (refl, refl)
    | inr (x, xs, e) ↦ rw e (refl, refl)
  ]

  run_round-interval :
      (now : ℕ) (listing : Option (Listing T)) (d : Discovery)
      → (run_round now listing d).0.sync_interval ≡ d.sync_interval
  run_round-interval now none d = unfold run_round sync after_sync in ground arith
  run_round-interval now (some l) d = (run_round-listed now l d).1

  Running-interval : {now : ℕ} {d : Discovery} → Running T now d → 0 < d.sync_interval
  Running-interval (started now d e h) = h
  Running-interval (next {d = d} now listing o r) =
      omega (arith, run_round-interval now listing d, Running-interval r)

  -- Whatever the rounds of `Run` were, a gateway that has a ready backend reports itself ready: its
  -- last complete listing is not as old as three intervals.
  pub Running-IsFresh :
      {now : ℕ} {d : Discovery} → Running T now d → HasReady d → ready_at now d ≡ true
  unfolding ready_at snapshot_stale lookup
  Running-IsFresh (started now d e h) (prefix, b, m, r) = absurd (rw e at m)
  Running-IsFresh (next {d = d} now (some l) o r) has =
      let (last, interval) = run_round-listed now l d in
      ground (arith, last, interval, Running-interval r)
  Running-IsFresh (next {before} {d} now none o r) has =
      let (before_has, fresh, same) = run_round-unlisted T now d has in
      let was = Running-IsFresh r before_has in
      ground (arith, was, fresh, same, run_round-interval now none d)

normalize_backend-keeps :
    (b n : Backend)
    → normalize_backend b ≡ ok n
    → (n.state ≡ b.state) × (n.endpoint ≡ b.endpoint) × (n.namespace ≡ b.namespace)
unfolding normalize_backend
normalize_backend-keeps b n h =
    let name = trim_space b.name in
    let p = if is_empty b.route_prefix then default_model_route name else b.route_prefix in
    elim (Result-cases (normalize p)) [
      | inl (m, e) ↦ elim (Result-cases (normalize_traffic_policy b.policy)) [
        | inl (q, f) ↦ ground (arith, h, e, f)
        | inr (x, f) ↦ absurd (ground (arith, h, e, f))
      ]
      | inr (x, e) ↦ absurd (ground (arith, h, e))
    ]

In-map :
    {A B : Type 0} (f : A → B) (xs : List A) {b : B}
    → In b (map f xs)
    → (a : A) × In a xs × (b ≡ f a)
In-map f [] m = elim m [ ]
In-map f (x ∷ xs) (inl e) = (x, inl refl, e)
In-map f (x ∷ xs) (inr m) = let (a, i, e) = In-map f xs m in (a, inr i, e)

module _ {T : Type 0} where
  backend_for-namespace :
      (m : ModelDeployment T) (services : List (Str × Service)) (ready_services : List (Str × Bool))
      → (backend_for m services ready_services).namespace ≡ m.namespace
  unfolding backend_for
  backend_for-namespace m services ready_services =
      elim (Result-cases (endpoint_for m services ready_services)) [
        | inl (u, e) ↦ ground (arith, e)
        | inr (w, e) ↦ ground (arith, e)
      ]

  -- After a complete listing, a ready backend of the registry stands for a deployment of this
  -- listing that may be sent requests, under its prefix, in its namespace; its endpoint is the
  -- address of this deployment's own Service of this listing, which has a ready endpoint.
  pub run_round-ready :
      (now : ℕ) (l : Listing T) (d : Discovery) (prefix : Str) (n : Backend)
      → In n (candidates_at prefix (run_round now (some l) d).0.registry.routes)
      → n.state ≡ ready
      → let services = services_by_name l.services [] in
        (m : ModelDeployment T) × In m l.deployments
        × IsServable m
        × (n.namespace ≡ m.namespace)
        × (n.route_prefix ≡ prefix)
        × ((s : Service) × (u : Url) × (lookup (runtime_service_name m) services ≡ some s)
            × IsServiceOf m u s
            × HasEndpoint l.slices s.name
            × (n.endpoint ≡ some u))
  unfolding run_round sync after_sync backends_for
  run_round-ready now l d prefix n i r =
      let services = services_by_name l.services [] in
      let make : ModelDeployment T → Backend =
        λ m. backend_for m services (ready_services_by_name l.slices) in
      let bs = map make l.deployments in
      let i' : In n (candidates_at prefix (replace bs d.registry).0.routes) =
        elim (List-cases (replace bs d.registry).1) [
          | inl e ↦ rw e at i
          | inr (x, xs, e) ↦ rw e at i
        ] in
      let (b, given, normal, at) = replace_sound bs d.registry prefix n i' in
      let (state, endpoint, namespace) = normalize_backend-keeps b n normal in
      let (m, listed, same) = In-map make l.deployments given in
      let (servable, (s, u, found, own, has, address)) =
        backend_for-ready m services l.slices (ground (arith, state, same, r)) in
      (
        m,
        listed,
        servable,
        namespace
            ∙ ap (λ x. x.namespace) same
            ∙ backend_for-namespace m services (ready_services_by_name l.slices),
        at,
        (s, u, found, own, has, ground (arith, address, endpoint, same)),
      )
