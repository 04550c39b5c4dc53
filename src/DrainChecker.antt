-- ===== src/DrainChecker.antt =====
-- `EndpointSliceDrainChecker` (operator/controllers/drain_checker.go): whether every ready gateway
-- reports a drained model. The HTTP exchange, the decoding of the body and the reading of the token
-- file are arguments.
pub mod Addresses
pub mod Gateways
use inferops.Base.{
  ℕ, List, [], ◌∷◌, ◌++◌, Bool, true, false, not, ◌&&◌, ◌||◌, if◌then◌else◌, Option, none, some,
  Str, ◌==◌, str_eq, nat_eq, str_lt, is_empty, codes, length, trim_space, any, ℤ, pos, ltb_ℤ, eqb_ℤ,
  sort_by, itoa, join_host_port, Result, ok, err, ◌>>=◌, ◌>>◌, fail_if,
}
use inferops.RoutingPath.Clean.{cons_head}
use inferops.Kube.{EndpointPort, Endpoint, EndpointSlice, or_bool}
use inferops.Routing.Types.{Url}
use inferops.Proxy.Drain.{DrainRequest}

pub data DrainError : Type 0 where
  client_required namespace_required service_required bad_scheme bad_port : DrainError
  list_failed no_ready_endpoints : DrainError
  token_unreadable no_token request_failed : DrainError
  bad_status : ℕ → DrainError
  bad_body : DrainError
  backend_count : ℕ → DrainError

-- `EndpointSliceDrainCheckerConfig`.
pub record DrainConfig : Type 0 where
  pub namespace : Str
  pub service_name : Str
  pub scheme : Str
  pub port : ℤ
  pub token_file : Str

-- `token` is the path of the token file.
pub record DrainChecker : Type 0 where
  pub namespace : Str
  pub service_name : Str
  pub scheme : Str
  pub port : ℤ
  pub token : Option Str
  pub endpoint_path : Str

-- `newFileTokenSource`.
abbrev new_drain_token : Str → Option Str
new_drain_token path =
    let trimmed = trim_space path in if is_empty trimmed then none else some trimmed

-- `NewEndpointSliceDrainChecker`; the first argument is whether the client is not nil.
unfoldable pub new_drain_checker : Bool → DrainConfig → Result DrainError DrainChecker
new_drain_checker has_client config =
    let scheme =
      if is_empty (trim_space config.scheme) then codes "http" else trim_space config.scheme in
    do
      fail_if (not has_client) client_required
      fail_if (is_empty (trim_space config.namespace)) namespace_required
      fail_if (is_empty (trim_space config.service_name)) service_required
      fail_if (not (scheme == codes "http") && not (scheme == codes "https")) bad_scheme
      fail_if (ltb_ℤ config.port (pos 1) || ltb_ℤ (pos 65535) config.port) bad_port
      ok (record {
        namespace = trim_space config.namespace;
        service_name = trim_space config.service_name;
        scheme = scheme;
        port = config.port;
        token = new_drain_token config.token_file;
        endpoint_path = codes "/drainz";
      })

-- `endpointSliceHasPort`.
abbrev is_port : ℤ → Option ℤ → Bool
is_port port none = false
is_port port (some p) = eqb_ℤ p port

unfoldable pub slice_has_port : EndpointSlice → ℤ → Bool
slice_has_port s port = any (λ p. is_port port p.port) s.ports

-- `endpointReady`.
unfoldable pub endpoint_ready : Endpoint → Bool
endpoint_ready e = if or_bool false e.terminating then false else or_bool true e.ready

-- A write to `addressSet`.
abbrev pub add_address : Str → List Str → List Str
add_address address set = if any (λ a. a == address) set then set else address ∷ set

unfoldable pub add_addresses : List Str → List Str → List Str
add_addresses [] set = set
add_addresses (address ∷ more) set =
    let trimmed = trim_space address in
    add_addresses more (if is_empty trimmed then set else add_address trimmed set)

unfoldable pub add_endpoints : List Endpoint → List Str → List Str
unfolding add_addresses
add_endpoints [] set = set
add_endpoints (e ∷ more) set =
    add_endpoints more (if endpoint_ready e then add_addresses e.addresses set else set)

-- Whether a slice is one of the gateway's.
unfoldable pub is_gateway_slice : DrainChecker → EndpointSlice → Bool
is_gateway_slice checker s =
    s.service_label == checker.service_name && not s.is_deleting && slice_has_port s checker.port

unfoldable pub add_slices : DrainChecker → List EndpointSlice → List Str → List Str
unfolding add_endpoints is_gateway_slice
add_slices checker [] set = set
add_slices checker (s ∷ more) set =
    add_slices checker more
      (if is_gateway_slice checker s then add_endpoints s.endpoints set else set)

-- `gatewayEndpointAddresses`, of the slices that the client lists (`none`: it fails).
unfoldable pub gateway_endpoint_addresses :
    DrainChecker → Option (List EndpointSlice) → Result DrainError (List Str)
unfolding add_slices
gateway_endpoint_addresses checker none = err list_failed
gateway_endpoint_addresses checker (some slices) =
    ok (sort_by str_lt (add_slices checker slices []))

-- The lines that `strings.FieldsFunc` makes; an empty one is passed over below.
unfoldable pub token_lines : Str → List Str
token_lines [] = [] ∷ []
token_lines (c ∷ s) =
    let rest = token_lines s in if c == 10 || c == 13 then [] ∷ rest else cons_head c rest

first_token : List Str → Result DrainError Str
first_token [] = err no_token
first_token (line ∷ more) =
    let token = trim_space line in if not (is_empty token) then ok token else first_token more

-- `Token`, of what the file holds.
unfoldable pub drain_token : Option Str → Result DrainError Str
unfolding token_lines first_token
drain_token none = err token_unreadable
drain_token (some content) = first_token (token_lines content)

abbrev pub is_nil : List Str → Bool
is_nil [] = true
is_nil (_ ∷ _) = false

-- The value of the header Authorization, if there is a token source.
unfoldable pub authorization_of : (Str → Option Str) → Option Str → Result DrainError (Option Str)
authorization_of read_file none = ok none
authorization_of read_file (some path) = do
  token ← drain_token (read_file path)
  ok (some (codes "Bearer " ++ token))

-- The one backend of the answer.
unfoldable pub only_backend : List Bool → Result DrainError Bool
only_backend (complete ∷ []) = ok complete
only_backend flags = err (backend_count (length flags))

unfoldable pub decoded : Option (List Bool) → Result DrainError Bool
unfolding only_backend
decoded none = err bad_body
decoded (some flags) = only_backend flags

abbrev pub drain_url : DrainChecker → Str → Url
drain_url checker address = record {
  scheme = checker.scheme;
  host = join_host_port address (itoa checker.port);
  path = checker.endpoint_path;
}

module _ {Body : Type 0} (send : Url → DrainRequest → Option Str → Option (ℕ × Body))
    (decode : Body → Option (List Bool)) (read_file : Str → Option Str) where
  unfoldable pub answered : Option (ℕ × Body) → Result DrainError Bool
  unfolding decoded
  answered none = err request_failed
  answered (some (status, body)) =
      if not (status == 200) then err (bad_status status) else decoded (decode body)

  -- `queryDrainEndpoint`.
  unfoldable pub query_drain_endpoint : Url → Str → Str → Option Str → Result DrainError Bool
  unfolding authorization_of answered
  query_drain_endpoint endpoint namespace model token = do
    authorization ← authorization_of read_file token
    answered (
        send endpoint (record { method = codes "GET"; namespace = namespace; model = model })
          authorization)

  -- The loop over the addresses.
  unfoldable pub query_all : DrainChecker → Str → Str → List Str → Result DrainError Bool
  query_all checker namespace model [] = ok true
  query_all checker namespace model (address ∷ more) =
      let rest = query_all checker namespace model more in
      elim (query_drain_endpoint (drain_url checker address) namespace model checker.token) [
        | err e ↦ err e
        | ok complete ↦ if not complete then ok false else rest
      ]

  -- `DrainComplete`.
  unfoldable pub drain_complete :
      DrainChecker → Option (List EndpointSlice) → Str → Str → Result DrainError Bool
  unfolding query_all
  drain_complete checker slices namespace model = do
    addresses ← gateway_endpoint_addresses checker slices
    fail_if (is_nil addresses) no_ready_endpoints
    query_all checker namespace model addresses
