-- ===== src/Routing/Invariant/Reach.antt =====
-- The registry's invariant over every sequence of operations (gateway/internal/routing/router.go).
use inferops.Base.{
  List, [], ◌∷◌, ◌≡◌, refl, sym, ◌∙◌, ap, Option, none, some, Str, ℤ, str_eq, arith, lookup, keys,
  sort_by, Result, ok, err, Result-cases, Option-cases, List-cases, inl, inr, keep,
}
use inferops.Routing.Types.{Backend}
use inferops.Routing.Normalize.{BackendError, normalize_backend}
use inferops.Routing.Normalize.Laws.{normalize_backend-IsNormal}
use inferops.Routing.Registry.Defs.{
  MemoryRegistry, new_memory_registry, prefix_less, rebuild_prefixes, candidates_at,
}
use inferops.Routing.Registry.Weighted.{weighted_backend, least_loaded_of, can_serve}
use inferops.Routing.Registry.Ops.{
  select_ready, select_backend, select, upsert, upsert_normalized, delete_route, replace,
  mark_ready_unavailable, group, normalize_route_prefix, first_cover,
}
use inferops.Routing.Invariant.Routes.{
  AreRoutes, upsert-AreRoutes, delete-AreRoutes, group-AreRoutes, sort_routes-AreRoutes,
  mark_routes-AreRoutes, keys-mark_routes,
}

-- The prefixes are the keys of the routes, longest first, and every route holds at least one
-- candidate, all of them normal, at home under its prefix and distinct.
pub record IsWellFormed (r : MemoryRegistry) : Type 0 where
  pub sorted : r.prefixes ≡ sort_by prefix_less (keys r.routes)
  pub routed : AreRoutes r.routes

-- An operation on the registry, with its arguments.
pub data Operation : Type 0 where
  upsert_op : Backend → Operation
  delete_op : Str → Operation
  replace_op : List Backend → Operation
  mark_op : Str → Operation
  select_op : Str → Option (Backend → ℤ) → Operation

abbrev kept_on_error : MemoryRegistry → Result BackendError MemoryRegistry → MemoryRegistry
kept_on_error r (ok r') = r'
kept_on_error r (err e) = r

-- The registry after the operation. `Upsert` leaves it as it was when it returns an error.
abbrev pub apply : Operation → MemoryRegistry → MemoryRegistry
apply (upsert_op b) r = kept_on_error r (upsert b r)
apply (delete_op prefix) r = delete_route prefix r
apply (replace_op bs) r = (replace bs r).0
apply (mark_op message) r = mark_ready_unavailable message r
apply (select_op path load) r = (select path load r).1

abbrev pub apply_all : List Operation → MemoryRegistry → MemoryRegistry
apply_all [] r = r
apply_all (op ∷ ops) r = apply_all ops (apply op r)

rebuild-IsWellFormed : (r : MemoryRegistry) → AreRoutes r.routes → IsWellFormed (rebuild_prefixes r)
unfolding rebuild_prefixes
rebuild-IsWellFormed r w = record { sorted = refl; routed = w }

weighted_backend-same :
    (prefix : Str) (cs : List Backend) (r : MemoryRegistry)
    → ((weighted_backend prefix cs r).1.routes ≡ r.routes)
      × ((weighted_backend prefix cs r).1.prefixes ≡ r.prefixes)
unfolding weighted_backend
weighted_backend-same prefix [] r = (refl, refl)
weighted_backend-same prefix (c ∷ []) r = (refl, refl)
weighted_backend-same prefix (c ∷ d ∷ cs) r = (refl, refl)

-- `r'` differs from `r` in the round-robin scores at most.
abbrev SameRoutes : MemoryRegistry → MemoryRegistry → Type 0
SameRoutes r' r = (r'.routes ≡ r.routes) × (r'.prefixes ≡ r.prefixes)

select_ready-same :
    (prefix : Str) (first : Backend) (candidates : List Backend) (load : Option (Backend → ℤ))
    (cs : List Backend) (r : MemoryRegistry)
    → SameRoutes (select_ready prefix first candidates load cs r).1 r
unfolding select_ready
select_ready-same prefix first candidates load [] r = (refl, refl)
select_ready-same prefix first candidates load (c ∷ []) r = (refl, refl)
select_ready-same prefix first candidates none (c ∷ d ∷ cs) r =
    weighted_backend-same prefix (c ∷ d ∷ cs) r
select_ready-same prefix first candidates (some load) (c ∷ d ∷ cs) r = ground (
  arith,
  weighted_backend-same prefix (c ∷ d ∷ cs) r,
  weighted_backend-same prefix (least_loaded_of load (c ∷ d ∷ cs)) r,
)

select_backend-same :
    (prefix : Str) (load : Option (Backend → ℤ)) (r : MemoryRegistry)
    → SameRoutes (select_backend prefix load r).1 r
unfolding select_backend
select_backend-same prefix load r = elim (List-cases (candidates_at prefix r.routes)) [
  | inl e ↦ rw e (refl, refl)
  | inr (c, cs, e) ↦ rw e (select_ready-same prefix c (c ∷ cs) load (keep can_serve (c ∷ cs)) r)
]

select-same :
    (path : Str) (load : Option (Backend → ℤ)) (r : MemoryRegistry)
    → SameRoutes (select path load r).1 r
unfolding select
select-same path load r = elim (Option-cases (first_cover path r.prefixes)) [
  | inl e ↦ rw (e, select) (refl, refl)
  | inr (prefix, e) ↦ rw (e, select) (select_backend-same prefix load r)
]

upsert_of_ok :
    (b n : Backend) (r : MemoryRegistry)
    → normalize_backend b ≡ ok n
    → upsert b r ≡ ok (upsert_normalized n r)
unfolding upsert
upsert_of_ok b n r e = rw (e, upsert)

upsert_of_err :
    (b : Backend) (x : BackendError) (r : MemoryRegistry)
    → normalize_backend b ≡ err x
    → upsert b r ≡ err x
unfolding upsert
upsert_of_err b x r e = rw (e, upsert)

apply-IsWellFormed :
    (op : Operation) (r : MemoryRegistry) → IsWellFormed r → IsWellFormed (apply op r)
unfolding upsert_normalized delete_route replace mark_ready_unavailable
apply-IsWellFormed (upsert_op b) r w = elim (Result-cases (normalize_backend b)) [
  | inl (n, e) ↦ rw (upsert_of_ok b n r e) (
      rebuild-IsWellFormed _
        (upsert-AreRoutes r.routes n w.routed (normalize_backend-IsNormal b n e)))
  | inr (x, e) ↦ rw (upsert_of_err b x r e) w
]
apply-IsWellFormed (delete_op prefix) r w =
    rebuild-IsWellFormed _ (delete-AreRoutes r.routes (normalize_route_prefix prefix) w.routed)
apply-IsWellFormed (replace_op bs) r w = rebuild-IsWellFormed _ (
    sort_routes-AreRoutes (group ([], []) bs).0
      (group-AreRoutes [] [] bs (λ prefix cs e. unfold lookup in absurd (ground arith))))
apply-IsWellFormed (mark_op message) r w = record {
  sorted = w.sorted ∙ ap (sort_by prefix_less) (sym (keys-mark_routes _ r.routes));
  routed = mark_routes-AreRoutes _ r.routes w.routed;
}
apply-IsWellFormed (select_op path load) r w =
    let (same, order) = select-same path load r in
    record { sorted = rw (same, order) w.sorted; routed = rw same w.routed }

-- After any sequence of operations on a new registry, its prefixes are the keys of its routes,
-- longest first, and each route holds at least one backend, all of them normal, registered under
-- their own prefix, and with pairwise different identities.
pub apply_all-IsWellFormed :
    (ops : List Operation) → IsWellFormed (apply_all ops new_memory_registry)
apply_all-IsWellFormed ops = from ops new_memory_registry start
  where
    start : IsWellFormed new_memory_registry
    start = record {
      sorted = unfold sort_by in refl;
      routed = λ prefix cs e. unfold lookup in absurd (ground arith);
    }

    from :
        (ops : List Operation) (r : MemoryRegistry)
        → IsWellFormed r
        → IsWellFormed (apply_all ops r)
    from [] r w = w
    from (op ∷ ops) r w = from ops (apply op r) (apply-IsWellFormed op r w)
