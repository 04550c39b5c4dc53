-- ===== src/Routing/Select/Serving.antt =====
-- Which backend of a route `selectBackendLocked` returns (gateway/internal/routing/router.go).
use inferops.Base.{
  List, [], ◌∷◌, ◌++◌, ◌≡◌, ◌≢◌, refl, sym, ◌∙◌, ap, subst, true, false, ◌⊎◌, inl, inr, Option,
  none, some, Str, In, All, All-of_In, All-In, All-imp, arith, keep, In-keep, keep-In, lookup,
  or_zero, str_eq, ℤ, ltb_ℤ, eqb_ℤ, eqb_ℤ_iff_eq, ◌≤ℤ◌, Bool-cases, List-cases,
}
use inferops.Routing.Types.{Backend, is_ready, zero_backend}
use inferops.Routing.Registry.Defs.{MemoryRegistry, Scores, candidates_at}
use inferops.Routing.Registry.Weighted.{
  highest, add_weights, weighted_pick, weighted_backend, can_serve, route_weighted,
  least_loaded_from, least_loaded_of, no_positive_weight_from,
}
use inferops.Routing.Registry.Ops.{select_ready, select_backend}

highest-In :
    (scores : Scores) (first : Backend) (others : List Backend)
    → In (highest scores first others) (first ∷ others)
unfolding highest
highest-In scores first [] = inl refl
highest-In scores first (c ∷ cs) =
    ground (arith, highest-In scores c cs, highest-In scores first cs)

weighted_backend-In :
    (prefix : Str) (c : Backend) (cs : List Backend) (r : MemoryRegistry)
    → In (weighted_backend prefix (c ∷ cs) r).0 (c ∷ cs)
unfolding weighted_backend weighted_pick
weighted_backend-In prefix c [] r = inl refl
weighted_backend-In prefix c (d ∷ cs) r =
    highest-In (add_weights (or_zero [] (lookup prefix r.rr)) _ (c ∷ d ∷ cs)).0 c (d ∷ cs)

lower_le : (x c least : ℤ) → ltb_ℤ c least ≡ true → x ≤ℤ c → x ≤ℤ least
lower_le x c least t h = ground arith

not_lower : (x c least : ℤ) → ltb_ℤ c least ≡ false → x ≤ℤ least → x ≤ℤ c
not_lower x c least t h = ground arith

append-ne_nil : (xs : List Backend) (c : Backend) → xs ++ c ∷ [] ≢ []
append-ne_nil [] c e = cc
append-ne_nil (x ∷ xs) c e = cc

module _ (load : Backend → ℤ) where
  -- A result of the loop: found before or among the rest, and with no more load than either.
  record IsLeast (least : ℤ) (found cs : List Backend) (x : Backend) : Type 0 where
    member : In x found ⊎ In x cs
    below_least : load x ≤ℤ least
    below_rest : All (λ d. load x ≤ℤ load d) cs

  abbrev AreLeast : ℤ → List Backend → List Backend → List Backend → Type 0
  AreLeast least found cs out = All (IsLeast least found cs) out × (out ≢ [])

  In-snoc : (x c : Backend) (xs : List Backend) → In x (xs ++ c ∷ []) → (x ≡ c) ⊎ In x xs
  In-snoc x c [] m = ground arith
  In-snoc x c (y ∷ ys) m = ground (arith, In-snoc x c ys)

  All-snoc :
      (P : Backend → Type 0) (c : Backend) (xs : List Backend)
      → All P xs
      → P c
      → All P (xs ++ c ∷ [])
  All-snoc P c [] h p = (p, tt)
  All-snoc P c (x ∷ xs) (q, h) p = (q, All-snoc P c xs h p)

  start :
      (least : ℤ) (found : List Backend)
      → All (λ f. load f ≡ least) found
      → found ≢ []
      → AreLeast least found [] found
  start least found h n = (
    All-of_In (IsLeast least found []) found (λ x m. record {
      member = inl m;
      below_least = rw (All-In (λ f. load f ≡ least) found h m) (omega arith);
      below_rest = tt;
    }),
    n,
  )

  least_from-AreLeast :
      (least : ℤ) (found cs : List Backend)
      → All (λ f. load f ≡ least) found
      → found ≢ []
      → AreLeast least found cs (least_loaded_from load least found cs)
  unfolding least_loaded_from
  least_from-AreLeast least found [] h n = start least found h n
  least_from-AreLeast least found (c ∷ cs) h n = elim (Bool-cases (ltb_ℤ (load c) least)) [
    | inl lower ↦
        let (all', some') = least_from-AreLeast (load c) (c ∷ []) cs (refl, tt) (λ e. cc) in
        rw lower (
          All-imp (IsLeast (load c) (c ∷ []) cs) (IsLeast least found (c ∷ cs)) _
              (λ x l. record {
                member = inr (ground (arith, l.member));
                below_least = lower_le (load x) (load c) least lower l.below_least;
                below_rest = (l.below_least, l.below_rest);
              })
              all',
          some',
        )
    | inr high ↦ elim (Bool-cases (eqb_ℤ (load c) least)) [
      | inl equal ↦
          let e : load c ≡ least = eqb_ℤ_iff_eq (load c) least equal in
          let (all', some') =
            least_from-AreLeast least (found ++ c ∷ []) cs
              (All-snoc (λ f. load f ≡ least) c found h e) (append-ne_nil found c) in
          rw (high, equal)
            (
              All-imp (IsLeast least (found ++ c ∷ []) cs) (IsLeast least found (c ∷ cs)) _
                  (λ x l. record {
                    member = ground (arith, l.member, In-snoc x c found);
                    below_least = l.below_least;
                    below_rest = (rw e l.below_least, l.below_rest);
                  })
                  all',
              some',
            )
      | inr differ ↦
          let (all', some') = least_from-AreLeast least found cs h n in
          rw (high, differ)
            (
              All-imp (IsLeast least found cs) (IsLeast least found (c ∷ cs)) _
                  (λ x l. record {
                    member = ground (arith, l.member);
                    below_least = l.below_least;
                    below_rest =
                        (not_lower (load x) (load c) least high l.below_least, l.below_rest);
                  })
                  all',
              some',
            )
    ]
  ]

  -- The candidates that `selectBackendLocked` keeps: none of the ready ones has less load.
  least_loaded_of-least :
      (c : Backend) (cs : List Backend)
      → All
          (λ x. In x (c ∷ cs) × All (λ d. load x ≤ℤ load d) (c ∷ cs))
          (least_loaded_of load (c ∷ cs))
        × (least_loaded_of load (c ∷ cs) ≢ [])
  unfolding least_loaded_of
  least_loaded_of-least c cs =
      let (all', some') = least_from-AreLeast (load c) (c ∷ []) cs (refl, tt) (λ e. cc) in
      (
        All-imp (IsLeast (load c) (c ∷ []) cs)
            (λ x. In x (c ∷ cs) × All (λ d. load x ≤ℤ load d) (c ∷ cs)) _
            (λ x l. (ground (arith, l.member), (l.below_least, l.below_rest))) all',
        some',
      )

weighted_backend-In_ne :
    (prefix : Str) (cs : List Backend) (r : MemoryRegistry)
    → cs ≢ []
    → In (weighted_backend prefix cs r).0 cs
weighted_backend-In_ne prefix [] r n = absurd (n refl)
weighted_backend-In_ne prefix (c ∷ cs) r n = weighted_backend-In prefix c cs r

module _ (prefix : Str) (first : Backend) (candidates : List Backend) (load : Backend → ℤ)
    (c d : Backend) (cs : List Backend) (r : MemoryRegistry) where
  select_ready_weighted :
      route_weighted (c ∷ d ∷ cs) ≡ true
      → select_ready prefix first candidates (some load) (c ∷ d ∷ cs) r
        ≡ weighted_backend prefix (c ∷ d ∷ cs) r
  unfolding select_ready
  select_ready_weighted t = rw t

  select_ready_least :
      route_weighted (c ∷ d ∷ cs) ≡ false
      → select_ready prefix first candidates (some load) (c ∷ d ∷ cs) r
        ≡ weighted_backend prefix (least_loaded_of load (c ∷ d ∷ cs)) r
  unfolding select_ready
  select_ready_least f = rw f

select_ready-In :
    (prefix : Str) (first : Backend) (candidates : List Backend) (load : Option (Backend → ℤ))
    (c : Backend) (cs : List Backend) (r : MemoryRegistry)
    → In (select_ready prefix first candidates load (c ∷ cs) r).0 (c ∷ cs)
unfolding select_ready
select_ready-In prefix first candidates load c [] r = inl refl
select_ready-In prefix first candidates none c (d ∷ cs) r = weighted_backend-In prefix c (d ∷ cs) r
select_ready-In prefix first candidates (some load) c (d ∷ cs) r =
    elim (Bool-cases (route_weighted (c ∷ d ∷ cs))) [
      | inl t ↦
          subst (λ x. In x.0 (c ∷ d ∷ cs))
            (sym (select_ready_weighted prefix first candidates load c d cs r t))
            (weighted_backend-In prefix c (d ∷ cs) r)
      | inr f ↦
          let (all', some') = least_loaded_of-least load c (d ∷ cs) in
          subst (λ x. In x.0 (c ∷ d ∷ cs))
            (sym (select_ready_least prefix first candidates load c d cs r f))
            (All-In (λ x. In x (c ∷ d ∷ cs) × All (λ y. load x ≤ℤ load y) (c ∷ d ∷ cs))
              (least_loaded_of load (c ∷ d ∷ cs)) all'
              (weighted_backend-In_ne prefix (least_loaded_of load (c ∷ d ∷ cs)) r some')).0
    ]

select_ready-least :
    (prefix : Str) (first : Backend) (candidates : List Backend) (load : Backend → ℤ) (c : Backend)
    (cs : List Backend) (r : MemoryRegistry)
    → route_weighted (c ∷ cs) ≡ false
    → All
        (λ d. load (select_ready prefix first candidates (some load) (c ∷ cs) r).0 ≤ℤ load d)
        (c ∷ cs)
unfolding select_ready
select_ready-least prefix first candidates load c [] r f = (omega arith, tt)
select_ready-least prefix first candidates load c (d ∷ cs) r f =
    let (all', some') = least_loaded_of-least load c (d ∷ cs) in
    subst (λ x. All (λ y. load x.0 ≤ℤ load y) (c ∷ d ∷ cs))
      (sym (select_ready_least prefix first candidates load c d cs r f))
      (All-In (λ x. In x (c ∷ d ∷ cs) × All (λ y. load x ≤ℤ load y) (c ∷ d ∷ cs))
        (least_loaded_of load (c ∷ d ∷ cs)) all'
        (weighted_backend-In_ne prefix (least_loaded_of load (c ∷ d ∷ cs)) r some')).1

not_ready_from :
    (first : Backend) (cs : List Backend)
    → (is_ready first.state ≡ false) ⊎ In first cs
    → is_ready (no_positive_weight_from first cs).state ≡ false
unfolding no_positive_weight_from
not_ready_from first [] (inl f) = f
not_ready_from first [] (inr m) = elim m [ ]
not_ready_from first (c ∷ cs) h = elim (Bool-cases (is_ready c.state)) [
  | inl t ↦ rw t refl
  | inr f ↦ rw f (not_ready_from first cs (rest f h))
]
  where
    rest :
        is_ready c.state ≡ false
        → (is_ready first.state ≡ false) ⊎ In first (c ∷ cs)
        → (is_ready first.state ≡ false) ⊎ In first cs
    rest f (inl g) = inl g
    rest f (inr (inl e)) = inl (rw e f)
    rest f (inr (inr m)) = inr m

select_backend_of_nil :
    (prefix : Str) (load : Option (Backend → ℤ)) (r : MemoryRegistry)
    → candidates_at prefix r.routes ≡ []
    → (select_backend prefix load r).0 ≡ zero_backend
unfolding select_backend
select_backend_of_nil prefix load r e = rw e

select_backend_of_cons :
    (prefix : Str) (load : Option (Backend → ℤ)) (r : MemoryRegistry) (c : Backend)
    (cs : List Backend)
    → candidates_at prefix r.routes ≡ c ∷ cs
    → (select_backend prefix load r).0
      ≡ (select_ready prefix c (c ∷ cs) load (keep can_serve (c ∷ cs)) r).0
unfolding select_backend
select_backend_of_cons prefix load r c cs e = rw e

-- The candidates of a route that are ready with a positive weight.
abbrev pub servers : Str → MemoryRegistry → List Backend
servers prefix r = keep can_serve (candidates_at prefix r.routes)

-- The two outcomes: no candidate can serve and the result is not ready, or the result is chosen
-- among those that can.
abbrev Outcome : Str → Option (Backend → ℤ) → MemoryRegistry → Type 0
Outcome prefix load r =
    ((servers prefix r ≡ []) × (is_ready (select_backend prefix load r).0.state ≡ false))
    ⊎ ((first : Backend) × (candidates : List Backend) × (s : Backend) × (ss : List Backend)
        × (servers prefix r ≡ s ∷ ss)
        × ((select_backend prefix load r).0
            ≡ (select_ready prefix first candidates load (s ∷ ss) r).0))

outcome : (prefix : Str) (load : Option (Backend → ℤ)) (r : MemoryRegistry) → Outcome prefix load r
outcome prefix load r = elim (List-cases (candidates_at prefix r.routes)) [
  | inl e ↦ inl (rw e refl, rw (select_backend_of_nil prefix load r e) refl)
  | inr (c, cs, e) ↦
      let whole = select_backend_of_cons prefix load r c cs e in
      elim (List-cases (keep can_serve (c ∷ cs))) [
        | inl none' ↦ inl (
          rw e none',
          rw whole (rw none' (unfold select_ready in not_ready_from c (c ∷ cs) (inr (inl refl)))),
        )
        | inr (s, ss, more) ↦ inr (
          c,
          c ∷ cs,
          s,
          ss,
          rw e more,
          whole ∙ ap (λ x. (select_ready prefix c (c ∷ cs) load x r).0) more,
        )
      ]
]

served :
    (prefix : Str) (load : Option (Backend → ℤ)) (r : MemoryRegistry)
    → In (select_backend prefix load r).0 (servers prefix r)
    → In (select_backend prefix load r).0 (candidates_at prefix r.routes)
      × (can_serve (select_backend prefix load r).0 ≡ true)
served prefix load r m = In-keep can_serve (candidates_at prefix r.routes) m

module _ (prefix : Str) (load : Option (Backend → ℤ)) (r : MemoryRegistry) where
  chosen-In :
      (first : Backend) (candidates : List Backend) (s : Backend) (ss : List Backend)
      → servers prefix r ≡ s ∷ ss
      → (select_backend prefix load r).0 ≡ (select_ready prefix first candidates load (s ∷ ss) r).0
      → In (select_backend prefix load r).0 (servers prefix r)
  chosen-In first candidates s ss e same =
      rw same (rw e (select_ready-In prefix first candidates load s ss r))

  -- Availability: if a candidate of the route is ready with a positive weight, the backend that is
  -- selected is such a candidate of the route.
  pub select_backend-serves :
      (c : Backend)
      → In c (candidates_at prefix r.routes)
      → can_serve c ≡ true
      → In (select_backend prefix load r).0 (candidates_at prefix r.routes)
        × (can_serve (select_backend prefix load r).0 ≡ true)
  select_backend-serves c m t = elim (outcome prefix load r) [
    | inl (empty, _) ↦ absurd (rw empty at (keep-In can_serve (candidates_at prefix r.routes) m t))
    | inr (first, candidates, s, ss, e, same) ↦
        served prefix load r (chosen-In first candidates s ss e same)
  ]

  -- Fail closed: a backend that is selected in state ready is a candidate of the route, unchanged,
  -- and has a positive weight.
  pub select_backend-ready :
      is_ready (select_backend prefix load r).0.state ≡ true
      → In (select_backend prefix load r).0 (candidates_at prefix r.routes)
        × (can_serve (select_backend prefix load r).0 ≡ true)
  select_backend-ready h = elim (outcome prefix load r) [
    | inl (_, not') ↦ absurd (ground (arith, not', h))
    | inr (first, candidates, s, ss, e, same) ↦
        served prefix load r (chosen-In first candidates s ss e same)
  ]

-- With a load and no candidate that asks for weighted routing among those that can serve, none of
-- those has less load than the backend that is selected.
pub select_backend-least_loaded :
    (prefix : Str) (load : Backend → ℤ) (r : MemoryRegistry) (c : Backend)
    → route_weighted (servers prefix r) ≡ false
    → In c (candidates_at prefix r.routes)
    → can_serve c ≡ true
    → load (select_backend prefix (some load) r).0 ≤ℤ load c
select_backend-least_loaded prefix load r c w m t = elim (outcome prefix (some load) r) [
  | inl (empty, _) ↦ absurd (rw empty at (keep-In can_serve (candidates_at prefix r.routes) m t))
  | inr (first, candidates, s, ss, e, same) ↦ rw same (
      All-In (λ d. load (select_ready prefix first candidates (some load) (s ∷ ss) r).0 ≤ℤ load d)
        (s ∷ ss) (select_ready-least prefix first candidates load s ss r (rw e at w))
        (rw e at (keep-In can_serve (candidates_at prefix r.routes) m t)))
]
