-- ===== src/Routing/Invariant/Publish.antt =====
-- `Replace` publishes the discovered backends and nothing else
-- (gateway/internal/routing/router.go).
use inferops.Base.{
  List, [], ◌∷◌, ◌++◌, ◌≡◌, ◌≢◌, refl, ◌⊎◌, inl, inr, Str, ◌==◌, str_eq, str_beq_iff, pair_eq, In,
  arith, any, lookup, insert, lookup-insert, Bool-cases, Result, ok, err, sort_by, In-sort_by,
  sort_by-In, if◌then◌else◌, ==_refl,
}
use inferops.Routing.Types.{Backend, identity}
use inferops.Routing.Normalize.{BackendError, duplicate_backend, normalize_backend}
use inferops.Routing.Registry.Defs.{
  MemoryRegistry, backend_less, sort_backends, candidates_at, rebuild_prefixes,
}
use inferops.Routing.Registry.Ops.{group_result, group_one, group, sort_routes, replace}

abbrev Routes : Type 0
Routes = List (Str × List Backend)

abbrev Grouped : Type 0
Grouped = Routes × List BackendError

In-snoc : (x b : Backend) (cs : List Backend) → In x (cs ++ b ∷ []) → (x ≡ b) ⊎ In x cs
In-snoc x b [] m = m
In-snoc x b (c ∷ cs) m = ground (arith, In-snoc x b cs)

snoc-In : (x b : Backend) (cs : List Backend) → (x ≡ b) ⊎ In x cs → In x (cs ++ b ∷ [])
snoc-In x b [] m = m
snoc-In x b (c ∷ cs) m = ground (arith, snoc-In x b cs)

candidates_at-insert :
    (k p : Str) (v : List Backend) (routes : Routes)
    → candidates_at p (insert k v routes) ≡ (if k == p then v else candidates_at p routes)
candidates_at-insert k p v routes = ground (arith, lookup-insert k p v routes)

-- The origin of what is grouped.
module _ (From : Str → Backend → Type 0) where
  abbrev AllFrom : Routes → Type 0
  AllFrom routes = (p : Str) (n : Backend) → In n (candidates_at p routes) → From p n

  group_result-AllFrom :
      (routes : Routes) (errs : List BackendError) (r : Result BackendError Backend)
      → ((n : Backend) → r ≡ ok n → From n.route_prefix n)
      → AllFrom routes
      → AllFrom (group_result routes errs r).0
  unfolding group_result
  group_result-AllFrom routes errs (err e) h w = w
  group_result-AllFrom routes errs (ok b) h w =
      elim (Bool-cases
        (any (λ c. identity c == identity b) (candidates_at b.route_prefix routes))) [
          | inl t ↦ rw t w
          | inr f ↦ rw f (λ p n m.
              let m' : In n (
                  if b.route_prefix == p
                  then candidates_at b.route_prefix routes ++ b ∷ []
                  else candidates_at p routes) =
                rw
                  (candidates_at-insert b.route_prefix p
                    (candidates_at b.route_prefix routes ++ b ∷ []) routes)
                  at m in
              elim (Bool-cases (b.route_prefix == p)) [
                | inl t ↦
                    let e : b.route_prefix ≡ p = (str_beq_iff b.route_prefix p).0 t in
                    elim (In-snoc n b (candidates_at b.route_prefix routes) (rw t at m')) [
                      | inl new ↦ rw (← e, new) (h b refl)
                      | inr old ↦ w p n (rw (← e) old)
                    ]
                | inr o ↦ w p n (rw o at m')
              ])
        ]

  group-AllFrom :
      (routes : Routes) (errs : List BackendError) (bs : List Backend)
      → ((b n : Backend) → In b bs → normalize_backend b ≡ ok n → From n.route_prefix n)
      → AllFrom routes
      → AllFrom (group (routes, errs) bs).0
  unfolding group group_one
  group-AllFrom routes errs [] h w = w
  group-AllFrom routes errs (b ∷ bs) h w =
      let next = group_result routes errs (normalize_backend b) in
      group-AllFrom next.0 next.1 bs (λ c n m e. h c n (inr m) e)
        (group_result-AllFrom routes errs (normalize_backend b) (λ n e. h b n (inl refl) e) w)

candidates_at-sort_routes :
    (p : Str) (routes : Routes)
    → candidates_at p (sort_routes routes) ≡ sort_backends (candidates_at p routes)
unfolding lookup sort_routes sort_backends sort_by
candidates_at-sort_routes p [] = refl
candidates_at-sort_routes p ((q, cs) ∷ routes) = elim (Bool-cases (q == p)) [
  | inl t ↦ rw t
  | inr f ↦ rw f (candidates_at-sort_routes p routes)
]

-- Every backend that `Replace` publishes is the normal form of one of those given, under its prefix.
pub replace_sound :
    (bs : List Backend) (r : MemoryRegistry) (p : Str) (n : Backend)
    → In n (candidates_at p (replace bs r).0.routes)
    → (b : Backend) × In b bs × (normalize_backend b ≡ ok n) × (n.route_prefix ≡ p)
unfolding replace rebuild_prefixes
replace_sound bs r p n m =
    let grouped = (group ([], []) bs).0 in
    let m' : In n (sort_by backend_less (candidates_at p grouped)) =
      unfold sort_backends in rw (candidates_at-sort_routes p grouped) at m in
    group-AllFrom
      (λ q x. (b : Backend) × In b bs × (normalize_backend b ≡ ok x) × (x.route_prefix ≡ q)) [] []
      bs (λ b x i e. (b, i, e, refl)) (λ q x i. unfold lookup in absurd i) p n
      (In-sort_by backend_less n (candidates_at p grouped) m')

errs-ne_nil : (errs : List BackendError) (e : BackendError) → errs ++ e ∷ [] ≢ []
errs-ne_nil [] e h = cc
errs-ne_nil (x ∷ errs) e h = cc

group_result-keeps :
    (routes : Routes) (errs : List BackendError) (r : Result BackendError Backend) (p : Str)
    (n : Backend)
    → In n (candidates_at p routes)
    → In n (candidates_at p (group_result routes errs r).0)
unfolding group_result
group_result-keeps routes errs (err e) p n m = m
group_result-keeps routes errs (ok b) p n m =
    let old = candidates_at b.route_prefix routes in
    elim (Bool-cases (any (λ c. identity c == identity b) old)) [
      | inl t ↦ rw t m
      | inr f ↦
          rw (f, candidates_at-insert b.route_prefix p (old ++ b ∷ []) routes)
            (elim (Bool-cases (b.route_prefix == p)) [
              | inl t ↦
                  let e : b.route_prefix ≡ p = (str_beq_iff b.route_prefix p).0 t in
                  rw t (snoc-In n b old (inr (rw e m)))
              | inr o ↦ rw o m
            ])
    ]

group_result-accepts :
    (routes : Routes) (errs : List BackendError) (r : Result BackendError Backend)
    → (group_result routes errs r).1 ≡ []
    → (errs ≡ [])
      × ((n : Backend) × (r ≡ ok n)
          × In n (candidates_at n.route_prefix (group_result routes errs r).0))
unfolding group_result
group_result-accepts routes errs (err e) h = absurd (errs-ne_nil errs e h)
group_result-accepts routes errs (ok b) h =
    let old = candidates_at b.route_prefix routes in
    elim (Bool-cases (any (λ c. identity c == identity b) old)) [
      | inl t ↦ absurd (errs-ne_nil errs duplicate_backend (rw t at h))
      | inr f ↦ (
        rw f at h,
        (
          b,
          refl,
          rw
              (
                f,
                candidates_at-insert b.route_prefix b.route_prefix (old ++ b ∷ []) routes,
                ==_refl b.route_prefix,
              )
              (snoc-In b b old (inl refl)),
        ),
      )
    ]

group-keeps :
    (acc : Grouped) (bs : List Backend) (p : Str) (n : Backend)
    → In n (candidates_at p acc.0)
    → In n (candidates_at p (group acc bs).0)
unfolding group group_one
group-keeps acc [] p n m = m
group-keeps acc (b ∷ bs) p n m =
    group-keeps (group_result acc.0 acc.1 (normalize_backend b)) bs p n
      (group_result-keeps acc.0 acc.1 (normalize_backend b) p n m)

group-errs : (acc : Grouped) (bs : List Backend) → (group acc bs).1 ≡ [] → acc.1 ≡ []
unfolding group group_one
group-errs acc [] h = h
group-errs acc (b ∷ bs) h =
    (group_result-accepts acc.0 acc.1 (normalize_backend b)
      (group-errs (group_result acc.0 acc.1 (normalize_backend b)) bs h)).0

group_complete :
    (acc : Grouped) (bs : List Backend) (b : Backend)
    → (group acc bs).1 ≡ []
    → In b bs
    → (n : Backend) × (normalize_backend b ≡ ok n)
      × In n (candidates_at n.route_prefix (group acc bs).0)
unfolding group group_one
group_complete acc [] b h m = elim m [ ]
group_complete acc (c ∷ bs) b h (inr m) =
    group_complete (group_result acc.0 acc.1 (normalize_backend c)) bs b h m
group_complete acc (c ∷ bs) b h (inl e) =
    let next = group_result acc.0 acc.1 (normalize_backend c) in
    let (_, (n, ok', m)) =
      group_result-accepts acc.0 acc.1 (normalize_backend c) (group-errs next bs h) in
    (n, rw e ok', group-keeps next bs n.route_prefix n m)

-- If `Replace` returns no error, the normal form of every given backend is published under its
-- prefix.
pub replace_complete :
    (bs : List Backend) (r : MemoryRegistry) (b : Backend)
    → (replace bs r).1 ≡ []
    → In b bs
    → (n : Backend) × (normalize_backend b ≡ ok n)
      × In n (candidates_at n.route_prefix (replace bs r).0.routes)
unfolding replace rebuild_prefixes
replace_complete bs r b h m =
    let (n, e, i) = group_complete ([], []) bs b h m in
    let grouped = (group ([], []) bs).0 in
    (
      n,
      e,
      rw (candidates_at-sort_routes n.route_prefix grouped) (
          unfold sort_backends in
          sort_by-In backend_less n (candidates_at n.route_prefix grouped) i),
    )
