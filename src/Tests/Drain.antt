-- ===== src/Tests/Drain.antt =====
-- The drain of a model, between the operator and one gateway.
use inferops.DrainChecker.{slice_has_port}
use inferops.Proxy.Tracker.{active_count}
use inferops.Base.{lookup}
use inferops.Routing.Registry.Ops.{backends}
use inferops.DrainChecker.{query_drain_endpoint}
use inferops.DrainChecker.{slice_has_port}
use inferops.Base.{sort_by}
use inferops.DrainChecker.{gateway_endpoint_addresses}
use inferops.Base.{
  ℕ, List, [], ◌∷◌, ◌≡◌, refl, inl, Bool, true, false, Option, none, some, Str, codes, ok, pos,
  str_eq, pair_eq, arith, is_empty, trim_space, map,
}
use inferops.Kube.{Endpoint, EndpointSlice}
use inferops.Routing.Types.{Backend, draining, Url}
use inferops.Routing.Registry.Defs.{MemoryRegistry}
use inferops.Proxy.Tracker.{idle}
use inferops.Proxy.Drain.{
  DrainBackendStatus, DrainRequest, DrainReply, method_not_allowed, drain_status,
  serve_drain_status,
}
use inferops.DrainChecker.{DrainChecker, drain_complete, is_gateway_slice, endpoint_ready}
use inferops.DrainChecker.Gateways.{IsDrained, drain_complete-IsDrained}
use inferops.Tests.Fixtures.{backend_of}

abbrev drained : Backend
drained = backend_of (codes "o") (codes "/m") draining 1

abbrev registry : MemoryRegistry
registry = record { routes = (codes "/m", drained ∷ []) ∷ []; prefixes = codes "/m" ∷ []; rr = [] }

abbrev encode : List DrainBackendStatus → List Bool
encode statuses = map (λ status. status.drain_complete) statuses

abbrev response_of : DrainReply → ℕ × List Bool
response_of method_not_allowed = (405, [])
response_of (drain_status statuses) = (200, encode statuses)

abbrev send : Url → DrainRequest → Option Str → Option (ℕ × List Bool)
send url request authorization = some (response_of (serve_drain_status request registry []))

replied :
    (reply : DrainReply) (body : List Bool)
    → some (response_of reply) ≡ some (200, body)
    → (statuses : List DrainBackendStatus) × (body ≡ encode statuses)
      × (reply ≡ drain_status statuses)
replied method_not_allowed body e = absurd (ground (arith, e))
replied (drain_status statuses) body e = (statuses, ground (arith, e), refl)

abbrev checker : DrainChecker
checker = record {
  namespace = codes "inferops";
  service_name = codes "gateway";
  scheme = codes "http";
  port = pos 8080;
  token = none;
  endpoint_path = codes "/drainz";
}

abbrev endpoint : Endpoint
endpoint = record { addresses = codes "10.0.0.9" ∷ []; ready = some true; terminating = none }

abbrev slice : EndpointSlice
slice = record {
  service_label = codes "gateway";
  is_deleting = false;
  ports = record { name = none; protocol = none; port = some (pos 8080) } ∷ [];
  endpoints = endpoint ∷ [];
}

drain_complete_test :
    drain_complete send some (λ path. none) checker (some (slice ∷ [])) (codes "ns") (codes "o")
    ≡ ok true
unfolding drain_complete gateway_endpoint_addresses sort_by slice_has_port endpoint_ready trim_space
    query_drain_endpoint serve_drain_status backends lookup active_count
drain_complete_test = refl

trimmed_test : (trim_space (codes "ns") ≡ codes "ns") × (trim_space (codes "o") ≡ codes "o")
unfolding trim_space
trimmed_test = (refl, refl)

slice_test : is_gateway_slice checker slice ≡ true
unfolding is_gateway_slice slice_has_port
slice_test = refl

endpoint_test : endpoint_ready endpoint ≡ true
unfolding endpoint_ready
endpoint_test = refl

address_test : is_empty (trim_space (codes "10.0.0.9")) ≡ false
unfolding trim_space
address_test = refl

drain_complete-IsDrained_example : IsDrained registry [] (codes "ns") (codes "o")
drain_complete-IsDrained_example =
    drain_complete-IsDrained send some (λ path. none) encode (λ host. registry) (λ host. [])
      (λ host. []) checker (slice ∷ []) (codes "ns") (codes "o") slice endpoint (codes "10.0.0.9")
      (λ statuses. refl)
      (λ url request authorization body e. replied (serve_drain_status request registry []) body e)
      (λ host. idle) drain_complete_test (trimmed_test.0, refl) (trimmed_test.1, refl)
      (inl refl, slice_test) (inl refl, endpoint_test) (inl refl, address_test)
