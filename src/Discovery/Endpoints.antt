-- ===== src/Discovery/Endpoints.antt =====
-- What discovery reads of the runtime Services and their EndpointSlices
-- (gateway/internal/discovery/discovery.go).
use inferops.Base.{
  List, [], ◌∷◌, Bool, true, false, not, ◌&&◌, ◌||◌, if◌then◌else◌, Option, none, some, Str, ◌==◌,
  str_eq, is_empty, codes, any, ℤ, pos, ltb_ℤ, or_zero, lookup, insert,
}
use inferops.Kube.{
  Endpoint, EndpointSlice, or_bool, OwnerReference, ServicePort, Service, protocol_tcp,
}
use inferops.Api.Runtime.{http_port_name, model_deployment_label}

abbrev some_string_is : Str → Option Str → Bool
some_string_is s none = false
some_string_is s (some t) = t == s

abbrev some_positive : Option ℤ → Bool
some_positive none = false
some_positive (some p) = not (ltb_ℤ p (pos 1))

abbrev unset_or_tcp : Option Str → Bool
unset_or_tcp none = true
unset_or_tcp (some protocol) = protocol == protocol_tcp

-- `endpointSliceHasHTTPPort`.
unfoldable pub slice_has_http_port : EndpointSlice → Bool
slice_has_http_port s =
    any
      (λ p. some_string_is http_port_name p.name && some_positive p.port && unset_or_tcp p.protocol)
      s.ports

abbrev has_address : List Str → Bool
has_address [] = false
has_address (_ ∷ _) = true

-- The endpoint that the inner loop of `readyServicesByName` stops at.
abbrev pub is_serving : Endpoint → Bool
is_serving e = not (or_bool false e.terminating) && or_bool true e.ready && has_address e.addresses

-- One round of the outer loop.
unfoldable pub add_ready : EndpointSlice → List (Str × Bool) → List (Str × Bool)
unfolding slice_has_http_port
add_ready s ready =
    let name = s.service_label in
    if is_empty name
      || or_zero false (lookup name ready)
      || s.is_deleting
      || not (slice_has_http_port s)
    then ready
    else if any is_serving s.endpoints
    then insert name true ready
    else ready

unfoldable pub ready_services_from : List EndpointSlice → List (Str × Bool) → List (Str × Bool)
unfolding add_ready
ready_services_from [] ready = ready
ready_services_from (s ∷ more) ready = ready_services_from more (add_ready s ready)

-- `readyServicesByName`.
abbrev pub ready_services_by_name : List EndpointSlice → List (Str × Bool)
ready_services_by_name slices = ready_services_from slices []

-- `serviceByName` of `Sync`.
unfoldable pub services_by_name : List Service → List (Str × Service) → List (Str × Service)
services_by_name [] m = m
services_by_name (s ∷ more) m = services_by_name more (insert s.name s m)

abbrev pub api_version : Str
api_version = codes "inference.inferops.dev/v1alpha1"

-- `ownedByDeployment`: the first controlling owner of that name decides.
unfoldable pub owned_by : List OwnerReference → Str → Str → Bool
owned_by [] name uid = false
owned_by (owner ∷ more) name uid =
    if not (owner.api_version == api_version)
      || not (owner.kind == codes "ModelDeployment")
      || not (owner.name == name)
      || not (or_bool false owner.controller)
    then owned_by more name uid
    else is_empty uid || owner.uid == uid

abbrev is_http_port : ServicePort → Bool
is_http_port p =
    p.name == http_port_name
    && (is_empty p.protocol || p.protocol == protocol_tcp)
    && some_string_is http_port_name p.target_port
    && ltb_ℤ (pos 0) p.port

-- `runtimeHTTPPort`.
unfoldable pub runtime_http_port_of : List ServicePort → Option ℤ
runtime_http_port_of [] = none
runtime_http_port_of (p ∷ more) = if is_http_port p then some p.port else runtime_http_port_of more

-- The label of a map that names the deployment.
abbrev pub deployment_label : List (Str × Str) → Str
deployment_label labels = or_zero [] (lookup model_deployment_label labels)
