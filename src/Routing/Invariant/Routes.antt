-- ===== src/Routing/Invariant/Routes.antt =====
-- The map of routes under each operation (gateway/internal/routing/router.go).
use inferops.Base.{
  List, [], ◌∷◌, ◌++◌, ◌≡◌, ◌≢◌, refl, ap, inl, inr, some, Str, ◌==◌, str_eq, str_beq_iff, pair_eq,
  All, arith, any, lookup, insert, delete, keys, lookup-insert, lookup-delete, Result, ok, err,
  Bool-cases, Option-cases,
}
use inferops.Routing.Types.{Backend, identity, is_ready}
use inferops.Routing.Normalize.{BackendError, normalize_backend}
use inferops.Routing.Normalize.Laws.{IsNormal, normalize_backend-IsNormal}
use inferops.Routing.Registry.Defs.{sort_backends, candidates_at}
use inferops.Routing.Registry.Ops.{
  upsert_candidate, group_result, group_one, group, sort_routes, mark_backend, mark_all,
  mark_routes,
}
use inferops.Routing.Invariant.Candidates.{
  Belongs, IsRoute, sort_backends-IsRoute, upsert_candidate-IsRoute, snoc-IsRoute,
}
use inferops.Routing.Select.Balance.Rounds.{HasDistinct}

abbrev pub Routes : Type 0
Routes = List (Str × List Backend)

-- Every entry of the map is a route.
abbrev pub AreRoutes : Routes → Type 0
AreRoutes routes =
    (prefix : Str) (cs : List Backend) → lookup prefix routes ≡ some cs → IsRoute prefix cs

-- What is read at any prefix, also at one that is missing.
at-belong :
    (routes : Routes) (prefix : Str)
    → AreRoutes routes
    → All (Belongs prefix) (candidates_at prefix routes) × HasDistinct (candidates_at prefix routes)
at-belong routes prefix w = elim (Option-cases (lookup prefix routes)) [
  | inl e ↦ rw e (tt, tt)
  | inr (cs, e) ↦ let r = w prefix cs e in rw e (r.belong, r.distinct)
]

insert-AreRoutes :
    (routes : Routes) (prefix : Str) (new : List Backend)
    → AreRoutes routes
    → IsRoute prefix new
    → AreRoutes (insert prefix new routes)
insert-AreRoutes routes prefix new w n p cs e = elim (Bool-cases (prefix == p)) [
  | inl t ↦
      let same : prefix ≡ p = (str_beq_iff prefix p).0 t in
      let e' : new ≡ cs = ground (arith, lookup-insert prefix p new routes, t) in
      rw (← same, ← e') n
  | inr f ↦ w p cs (ground (arith, lookup-insert prefix p new routes, f))
]

pub upsert-AreRoutes :
    (routes : Routes) (b : Backend)
    → AreRoutes routes
    → IsNormal b
    → AreRoutes (
        insert b.route_prefix
          (sort_backends (upsert_candidate b (candidates_at b.route_prefix routes)))
          routes)
upsert-AreRoutes routes b w n =
    let (belong, distinct) = at-belong routes b.route_prefix w in
    insert-AreRoutes routes b.route_prefix _ w (
      sort_backends-IsRoute b.route_prefix _
        (upsert_candidate-IsRoute b.route_prefix b _ (n, refl) belong distinct))

pub delete-AreRoutes :
    (routes : Routes) (prefix : Str) → AreRoutes routes → AreRoutes (delete prefix routes)
delete-AreRoutes routes prefix w p cs e = elim (Bool-cases (prefix == p)) [
  | inl t ↦ absurd (ground (arith, lookup-delete prefix p routes, t))
  | inr f ↦ w p cs (ground (arith, lookup-delete prefix p routes, f))
]

group_result-AreRoutes :
    (grouped : Routes) (errs : List BackendError) (r : Result BackendError Backend)
    → ((n : Backend) → r ≡ ok n → IsNormal n)
    → AreRoutes grouped
    → AreRoutes (group_result grouped errs r).0
unfolding group_result
group_result-AreRoutes grouped errs (err e) h w = w
group_result-AreRoutes grouped errs (ok n) h w =
    let (belong, distinct) = at-belong grouped n.route_prefix w in
    elim (Bool-cases (any (λ c. identity c == identity n) (candidates_at n.route_prefix grouped))) [
      | inl t ↦ rw t w
      | inr f ↦ rw f (
          insert-AreRoutes grouped n.route_prefix (candidates_at n.route_prefix grouped ++ n ∷ []) w
            (snoc-IsRoute n.route_prefix n (candidates_at n.route_prefix grouped) (h n refl, refl)
              belong distinct f))
    ]

group_one-AreRoutes :
    (grouped : Routes) (errs : List BackendError) (b : Backend)
    → AreRoutes grouped
    → AreRoutes (group_one (grouped, errs) b).0
unfolding group_one
group_one-AreRoutes grouped errs b w =
    group_result-AreRoutes grouped errs (normalize_backend b) (normalize_backend-IsNormal b) w

pub group-AreRoutes :
    (grouped : Routes) (errs : List BackendError) (bs : List Backend)
    → AreRoutes grouped
    → AreRoutes (group (grouped, errs) bs).0
unfolding group
group-AreRoutes grouped errs [] w = w
group-AreRoutes grouped errs (b ∷ bs) w =
    let acc = group_one (grouped, errs) b in
    group-AreRoutes acc.0 acc.1 bs (group_one-AreRoutes grouped errs b w)

lookup-sort_routes :
    (routes : Routes) (prefix : Str) (cs : List Backend)
    → lookup prefix (sort_routes routes) ≡ some cs
    → (ds : List Backend) × (lookup prefix routes ≡ some ds) × (cs ≡ sort_backends ds)
unfolding lookup sort_routes
lookup-sort_routes [] prefix cs e = cc
lookup-sort_routes ((p, ds) ∷ routes) prefix cs e = elim (Bool-cases (p == prefix)) [
  | inl t ↦ (ds, rw t, ground (arith, t))
  | inr f ↦ rw f (lookup-sort_routes routes prefix cs (rw (f, lookup) at e))
]

pub sort_routes-AreRoutes : (routes : Routes) → AreRoutes routes → AreRoutes (sort_routes routes)
sort_routes-AreRoutes routes w prefix cs e =
    let (ds, found, same) = lookup-sort_routes routes prefix cs e in
    rw same (sort_backends-IsRoute prefix ds (w prefix ds found))

mark_backend-Belongs :
    (message prefix : Str) (b : Backend)
    → Belongs prefix b
    → Belongs prefix (mark_backend message b)
unfolding mark_backend
mark_backend-Belongs message prefix b (n, p) = elim (Bool-cases (is_ready b.state)) [
  | inl t ↦ rw t (
    record {
      named = n.named;
      one_segment = n.one_segment;
      prefix = n.prefix;
      known = λ s e. cc;
      reachable = λ e. absurd (ground arith);
      policy = n.policy;
    },
    p,
  )
  | inr f ↦ rw f (n, p)
]

mark_backend-identity :
    (message : Str) (b : Backend) → identity (mark_backend message b) ≡ identity b
unfolding mark_backend
mark_backend-identity message b = ground arith

mark_all-differ :
    (message : Str) (k : Str × Str) (cs : List Backend)
    → All (λ d. identity d ≢ k) cs
    → All (λ d. identity d ≢ k) (mark_all message cs)
unfolding mark_all
mark_all-differ message k [] h = tt
mark_all-differ message k (c ∷ cs) (n, h) =
    (rw (mark_backend-identity message c) n, mark_all-differ message k cs h)

mark_all-HasDistinct :
    (message : Str) (cs : List Backend) → HasDistinct cs → HasDistinct (mark_all message cs)
unfolding mark_all
mark_all-HasDistinct message [] d = tt
mark_all-HasDistinct message (c ∷ cs) (n, d) = (
  rw (mark_backend-identity message c) (mark_all-differ message (identity c) cs n),
  mark_all-HasDistinct message cs d,
)

mark_all-belong :
    (message prefix : Str) (cs : List Backend)
    → All (Belongs prefix) cs
    → All (Belongs prefix) (mark_all message cs)
unfolding mark_all
mark_all-belong message prefix [] h = tt
mark_all-belong message prefix (c ∷ cs) (p, h) =
    (mark_backend-Belongs message prefix c p, mark_all-belong message prefix cs h)

mark_all-ne_nil : (message : Str) (cs : List Backend) → cs ≢ [] → mark_all message cs ≢ []
unfolding mark_all
mark_all-ne_nil message [] n e = n e
mark_all-ne_nil message (c ∷ cs) n e = cc

pub lookup-mark_routes :
    (message : Str) (routes : Routes) (prefix : Str) (cs : List Backend)
    → lookup prefix (mark_routes message routes) ≡ some cs
    → (ds : List Backend) × (lookup prefix routes ≡ some ds) × (cs ≡ mark_all message ds)
unfolding lookup mark_routes
lookup-mark_routes message [] prefix cs e = cc
lookup-mark_routes message ((p, ds) ∷ routes) prefix cs e = elim (Bool-cases (p == prefix)) [
  | inl t ↦ (ds, rw t, ground (arith, t))
  | inr f ↦ rw f (lookup-mark_routes message routes prefix cs (rw (f, lookup) at e))
]

pub mark_routes-AreRoutes :
    (message : Str) (routes : Routes) → AreRoutes routes → AreRoutes (mark_routes message routes)
mark_routes-AreRoutes message routes w prefix cs e =
    let (ds, found, same) = lookup-mark_routes message routes prefix cs e in
    let r = w prefix ds found in
    rw same (record {
      inhabited = mark_all-ne_nil message ds r.inhabited;
      belong = mark_all-belong message prefix ds r.belong;
      distinct = mark_all-HasDistinct message ds r.distinct;
    })

pub keys-mark_routes :
    (message : Str) (routes : Routes) → keys (mark_routes message routes) ≡ keys routes
unfolding mark_routes
keys-mark_routes message [] = refl
keys-mark_routes message ((p, ds) ∷ routes) = ap (λ ks. p ∷ ks) (keys-mark_routes message routes)
