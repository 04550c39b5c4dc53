-- ===== src/Discovery/Publish.antt =====
-- What discovery publishes as ready, past the registry
-- (gateway/internal/discovery/discovery.go, gateway/internal/routing/router.go).
use inferops.Base.{
  List, [], ◌++◌, ◌≡◌, inl, inr, Bool, true, false, some, Str, str_eq, str_beq_iff, codes, ℤ,
  or_zero, lookup, arith, Option-cases, Result-cases, itoa, join_host_port, ok, err, ◌>>=◌,
  >>=-eq-ok,
}
use inferops.Kube.{EndpointSlice, Service}
use inferops.Api.Status.{ModelDeployment}
use inferops.Routing.Types.{ready, Url, is_ready}
use inferops.Discovery.Endpoints.{
  ready_services_by_name, deployment_label, owned_by, runtime_http_port_of,
}
use inferops.Discovery.Gates.{
  Withdrawn, phase_gate, conditions_gate, some_or, deployment_gate, service_gate,
  runtime_service_name, endpoint_for, backend_for,
}
use inferops.Discovery.Laws.{
  IsServable, HasEndpoint, deployment_gate-IsServable, ready_services-HasEndpoint,
}

-- The Service that a deployment is reached through.
pub record IsServiceOf {T : Type 0} (d : ModelDeployment T) (to : Url) (s : Service) : Type 0 where
  pub kept : s.is_deleting ≡ false
  pub label : deployment_label s.labels ≡ d.name
  pub owner : owned_by s.owner_references d.name d.uid ≡ true
  pub selector : (s.namespace ≡ d.namespace) × (deployment_label s.selector ≡ d.name)
  pub type : s.type ≡ codes "ClusterIP"
  pub port : ℤ
  pub http : runtime_http_port_of s.ports ≡ some port
  pub address : to ≡ record {
    scheme = codes "http";
    host = join_host_port (s.name ++ codes "." ++ d.namespace ++ codes ".svc") (itoa port);
    path = [];
  }

module _ {T : Type 0} (d : ModelDeployment T) where
  service_gate-IsServiceOf :
      (ready_services : List (Str × Bool)) (s : Service) (u : Url)
      → service_gate d ready_services s ≡ ok u
      → IsServiceOf d u s × (or_zero false (lookup s.name ready_services) ≡ true)
  unfolding service_gate some_or
  service_gate-IsServiceOf ready_services s u h =
      elim (Option-cases (runtime_http_port_of s.ports)) [
        | inl e ↦ absurd (ground (arith, h, e))
        | inr (p, e) ↦ (
          record {
            kept = ground (arith, h, e);
            label = ground (arith, h, e, str_beq_iff (deployment_label s.labels) d.name);
            owner = ground (arith, h, e);
            selector = (
              ground (arith, h, e, str_beq_iff s.namespace d.namespace),
              ground (arith, h, e, str_beq_iff (deployment_label s.selector) d.name),
            );
            type = ground (arith, h, e, str_beq_iff s.type (codes "ClusterIP"));
            port = p;
            http = e;
            address = ground (arith, h, e);
          },
          ground (arith, h, e),
        )
      ]

  conditions_gate-withdrawn : (w : Withdrawn) → conditions_gate d ≡ err w → is_ready w.0 ≡ false
  unfolding conditions_gate
  conditions_gate-withdrawn w h = ground (arith, h)

  phase_gate-withdrawn : (w : Withdrawn) → phase_gate d.status.phase ≡ err w → is_ready w.0 ≡ false
  unfolding phase_gate
  phase_gate-withdrawn w h = ground (arith, h)

  deployment_gate-withdrawn : (w : Withdrawn) → deployment_gate d ≡ err w → is_ready w.0 ≡ false
  unfolding deployment_gate
  deployment_gate-withdrawn w h =
      ground (arith, h, conditions_gate-withdrawn w, phase_gate-withdrawn w)

  service_gate-withdrawn :
      (ready_services : List (Str × Bool)) (s : Service) (w : Withdrawn)
      → service_gate d ready_services s ≡ err w
      → is_ready w.0 ≡ false
  unfolding service_gate some_or
  service_gate-withdrawn ready_services s w h = ground (arith, h)

  -- A deployment that is held back at a gate is not ready.
  endpoint_for-withdrawn :
      (services : List (Str × Service)) (ready_services : List (Str × Bool)) (w : Withdrawn)
      → endpoint_for d services ready_services ≡ err w
      → is_ready w.0 ≡ false
  unfolding endpoint_for some_or
  endpoint_for-withdrawn services ready_services w h = elim (Result-cases (deployment_gate d)) [
    | inr (x, e) ↦ ground (arith, h, e, deployment_gate-withdrawn x)
    | inl (_, e) ↦ elim (Option-cases (lookup (runtime_service_name d) services)) [
      | inl f ↦ ground (arith, h, e, f)
      | inr (s, f) ↦ ground (arith, h, e, f, service_gate-withdrawn ready_services s w)
    ]
  ]

  -- A deployment is published as ready only if it is to be active and is, its route is enabled, the
  -- status that says so is of the present generation, its runtime, model and routing are ready, it
  -- has the replicas that it wants, one at least, and its Service is its own, is kept and has a
  -- ready endpoint; the backend then has the address of this Service.
  pub backend_for-ready :
      (services : List (Str × Service)) (slices : List EndpointSlice)
      → (backend_for d services (ready_services_by_name slices)).state ≡ ready
      → IsServable d
        × ((s : Service) × (u : Url) × (lookup (runtime_service_name d) services ≡ some s)
            × IsServiceOf d u s
            × HasEndpoint slices s.name
            × ((backend_for d services (ready_services_by_name slices)).endpoint ≡ some u))
  unfolding backend_for endpoint_for some_or
  backend_for-ready services slices h =
      let ready_services = ready_services_by_name slices in
      elim (Result-cases (endpoint_for d services ready_services)) [
        | inr (w, e) ↦ absurd (
            let bad = endpoint_for-withdrawn services ready_services w e in
            ground (arith, h, e, bad))
        | inl (u, e) ↦
            let (_, opened, after) =
              >>=-eq-ok (deployment_gate d)
                (λ _.
                  some_or (lookup (runtime_service_name d) services)
                    (codes "model runtime Service was not found")
                  >>= service_gate d ready_services)
                e in
            let (s, found, served) =
              >>=-eq-ok
                (some_or (lookup (runtime_service_name d) services)
                  (codes "model runtime Service was not found"))
                (service_gate d ready_services) after in
            let (own, has) = service_gate-IsServiceOf ready_services s u served in
            (
              deployment_gate-IsServable d (ground (arith, opened)),
              (
                s,
                u,
                ground (arith, found),
                own,
                ready_services-HasEndpoint slices s.name has,
                ground (arith, e),
              ),
            )
      ]
