-- ===== src/DrainChecker/Addresses.antt =====
-- Which gateway endpoints `gatewayEndpointAddresses` lists (operator/controllers/drain_checker.go).
use inferops.Base.{
  List, [], ◌∷◌, ◌≡◌, inl, inr, true, false, some, Str, ◌==◌, str_eq, str_beq_iff, str_lt, is_empty,
  trim_space, any, In, arith, Bool-cases, sort_by, sort_by-In, ok,
}
use inferops.Kube.{Endpoint, EndpointSlice}
use inferops.DrainChecker.{
  DrainChecker, endpoint_ready, add_address, add_addresses, add_endpoints, is_gateway_slice,
  add_slices, gateway_endpoint_addresses,
}

any_same-In : (a : Str) (set : List Str) → any (λ b. b == a) set ≡ true → In a set
any_same-In a [] h = cc
any_same-In a (b ∷ set) h = ground (arith, str_beq_iff b a, any_same-In a set)

add_address-In : (a : Str) (set : List Str) → In a (add_address a set)
add_address-In a set = ground (arith, any_same-In a set)

add_address-keeps : (x a : Str) (set : List Str) → In a set → In a (add_address x set)
add_address-keeps x a set m = ground (arith, m)

add_addresses-keeps :
    (xs : List Str) (a : Str) (set : List Str) → In a set → In a (add_addresses xs set)
unfolding add_addresses
add_addresses-keeps [] a set m = m
add_addresses-keeps (x ∷ xs) a set m = elim (Bool-cases (is_empty (trim_space x))) [
  | inl t ↦ rw t (add_addresses-keeps xs a set m)
  | inr f ↦ rw f (
      add_addresses-keeps xs a (add_address (trim_space x) set)
        (add_address-keeps (trim_space x) a set m))
]

add_addresses-In :
    (xs : List Str) (a : Str) (set : List Str)
    → In a xs
    → is_empty (trim_space a) ≡ false
    → In (trim_space a) (add_addresses xs set)
unfolding add_addresses
add_addresses-In [] a set m h = elim m [ ]
add_addresses-In (x ∷ xs) a set (inl e) h =
    let f : is_empty (trim_space x) ≡ false = rw (← e) h in
    rw f (
      add_addresses-keeps xs (trim_space a) (add_address (trim_space x) set)
        (rw e (add_address-In (trim_space x) set)))
add_addresses-In (x ∷ xs) a set (inr m) h = elim (Bool-cases (is_empty (trim_space x))) [
  | inl t ↦ rw t (add_addresses-In xs a set m h)
  | inr f ↦ rw f (add_addresses-In xs a (add_address (trim_space x) set) m h)
]

add_endpoints-keeps :
    (es : List Endpoint) (a : Str) (set : List Str) → In a set → In a (add_endpoints es set)
unfolding add_endpoints
add_endpoints-keeps [] a set m = m
add_endpoints-keeps (e ∷ es) a set m = elim (Bool-cases (endpoint_ready e)) [
  | inl t ↦ rw t (
      add_endpoints-keeps es a (add_addresses e.addresses set)
        (add_addresses-keeps e.addresses a set m))
  | inr f ↦ rw f (add_endpoints-keeps es a set m)
]

add_endpoints-In :
    (es : List Endpoint) (e : Endpoint) (a : Str) (set : List Str)
    → In e es
    → endpoint_ready e ≡ true
    → In a e.addresses
    → is_empty (trim_space a) ≡ false
    → In (trim_space a) (add_endpoints es set)
unfolding add_endpoints
add_endpoints-In [] e a set i r m h = elim i [ ]
add_endpoints-In (x ∷ es) e a set (inl same) r m h =
    rw (← same, r)
      (add_endpoints-keeps es (trim_space a) (add_addresses e.addresses set)
        (add_addresses-In e.addresses a set m h))
add_endpoints-In (x ∷ es) e a set (inr i) r m h = elim (Bool-cases (endpoint_ready x)) [
  | inl t ↦ rw t (add_endpoints-In es e a (add_addresses x.addresses set) i r m h)
  | inr f ↦ rw f (add_endpoints-In es e a set i r m h)
]

module _ (checker : DrainChecker) where
  add_slices-keeps :
      (ss : List EndpointSlice) (a : Str) (set : List Str)
      → In a set
      → In a (add_slices checker ss set)
  unfolding add_slices
  add_slices-keeps [] a set m = m
  add_slices-keeps (s ∷ ss) a set m = elim (Bool-cases (is_gateway_slice checker s)) [
    | inl t ↦ rw t (
        add_slices-keeps ss a (add_endpoints s.endpoints set)
          (add_endpoints-keeps s.endpoints a set m))
    | inr f ↦ rw f (add_slices-keeps ss a set m)
  ]

  add_slices-In :
      (ss : List EndpointSlice) (s : EndpointSlice) (e : Endpoint) (a : Str) (set : List Str)
      → In s ss
      → is_gateway_slice checker s ≡ true
      → In e s.endpoints
      → endpoint_ready e ≡ true
      → In a e.addresses
      → is_empty (trim_space a) ≡ false
      → In (trim_space a) (add_slices checker ss set)
  unfolding add_slices
  add_slices-In [] s e a set j g i r m h = elim j [ ]
  add_slices-In (x ∷ ss) s e a set (inl same) g i r m h =
      rw (← same, g)
        (add_slices-keeps ss (trim_space a) (add_endpoints s.endpoints set)
          (add_endpoints-In s.endpoints e a set i r m h))
  add_slices-In (x ∷ ss) s e a set (inr j) g i r m h =
      elim (Bool-cases (is_gateway_slice checker x)) [
        | inl t ↦ rw t (add_slices-In ss s e a (add_endpoints x.endpoints set) j g i r m h)
        | inr f ↦ rw f (add_slices-In ss s e a set j g i r m h)
      ]

  -- The addresses of every ready endpoint of the gateway's slices are listed.
  pub gateway_endpoint_addresses-In :
      (ss : List EndpointSlice) (s : EndpointSlice) (e : Endpoint) (a : Str) (addresses : List Str)
      → gateway_endpoint_addresses checker (some ss) ≡ ok addresses
      → In s ss
      → is_gateway_slice checker s ≡ true
      → In e s.endpoints
      → endpoint_ready e ≡ true
      → In a e.addresses
      → is_empty (trim_space a) ≡ false
      → In (trim_space a) addresses
  unfolding gateway_endpoint_addresses
  gateway_endpoint_addresses-In ss s e a addresses q j g i r m h =
      let same : sort_by str_lt (add_slices checker ss []) ≡ addresses = ground (arith, q) in
      rw (← same) (
        sort_by-In str_lt (trim_space a) (add_slices checker ss [])
          (add_slices-In ss s e a [] j g i r m h))
