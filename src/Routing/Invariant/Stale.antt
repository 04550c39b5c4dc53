-- ===== src/Routing/Invariant/Stale.antt =====
-- `MarkReadyUnavailable` closes every route (gateway/internal/routing/router.go).
use inferops.Base.{
  List, [], ◌∷◌, ◌≡◌, true, false, inl, inr, Option, some, Str, str_eq, All, All-In, arith, lookup,
  Bool-cases, Option-cases, ℤ,
}
use inferops.Routing.Types.{Backend, is_ready}
use inferops.Routing.Registry.Defs.{MemoryRegistry, candidates_at}
use inferops.Routing.Registry.Weighted.{can_serve}
use inferops.Routing.Registry.Ops.{
  mark_backend, mark_all, mark_ready_unavailable, select, select_backend, first_cover,
}
use inferops.Routing.Invariant.Routes.{lookup-mark_routes}
use inferops.Routing.Select.Serving.{select_backend-ready}

mark_all-closed :
    (message : Str) (cs : List Backend) → All (λ b. is_ready b.state ≡ false) (mark_all message cs)
unfolding mark_all mark_backend
mark_all-closed message [] = tt
mark_all-closed message (c ∷ cs) = (ground arith, mark_all-closed message cs)

pub marked-closed :
    (message prefix : Str) (r : MemoryRegistry)
    → All
        (λ b. is_ready b.state ≡ false)
        (candidates_at prefix (mark_ready_unavailable message r).routes)
unfolding mark_ready_unavailable
marked-closed message prefix r =
    elim (Option-cases (lookup prefix (mark_ready_unavailable message r).routes)) [
      | inl e ↦ rw e tt
      | inr (cs, e) ↦
          let (ds, _, same) = lookup-mark_routes _ r.routes prefix cs e in
          rw (e, same) (mark_all-closed _ ds)
    ]

can_serve-ready : (b : Backend) → can_serve b ≡ true → is_ready b.state ≡ true
unfolding can_serve
can_serve-ready b h = ground arith

marked-select_backend :
    (message prefix : Str) (load : Option (Backend → ℤ)) (r : MemoryRegistry)
    → is_ready (select_backend prefix load (mark_ready_unavailable message r)).0.state ≡ false
marked-select_backend message prefix load r =
    let r' = mark_ready_unavailable message r in
    elim (Bool-cases (is_ready (select_backend prefix load r').0.state)) [
      | inr f ↦ f
      | inl t ↦
          let (m, _) = select_backend-ready prefix load r' t in
          All-In (λ b. is_ready b.state ≡ false) (candidates_at prefix r'.routes)
            (marked-closed message prefix r) m
    ]

-- Once the registry is marked unavailable, no request path selects a ready backend, whatever the
-- load, so nothing is forwarded until the next snapshot is published.
pub mark-select_not_ready :
    (message path upstream : Str) (load : Option (Backend → ℤ)) (r : MemoryRegistry) (b : Backend)
    → (select path load (mark_ready_unavailable message r)).0 ≡ some (b, upstream)
    → is_ready b.state ≡ false
mark-select_not_ready message path upstream load r b h =
    let r' = mark_ready_unavailable message r in
    elim (Option-cases (first_cover path r'.prefixes)) [
      | inl e ↦ absurd (unfold select in ground (arith, e))
      | inr (prefix, e) ↦
          let same : (select_backend prefix load r').0 ≡ b = unfold select in ground (arith, e) in
          rw (← same) (marked-select_backend message prefix load r)
    ]
