-- ===== src/Routing/Select/Prefixes.antt =====
-- `Select` takes the longest registered prefix that covers the request path at a segment boundary
-- (gateway/internal/routing/router.go).
use inferops.Base.{
  ◌≤◌, List, [], ◌∷◌, ◌++◌, ◌≡◌, refl, sym, ◌∙◌, subst, true, false, ◌⊎◌, inl, inr, ◌↔◌, Option,
  none, some, Str, ◌==◌, str_eq, str_beq_iff, length, has_prefix, has_prefix-append, trim_prefix,
  drop, In, All, keys, arith, StrictWeak, sort_by, sort_by-In, In-sort_by, sort_by-IsSorted,
  IsSorted, str_lt_asym, str_lt_neg_trans, Bool-cases, All-In, All-imp, All-of_In, append-nil,
  Option-cases, ℤ, nat_eq,
}
use inferops.RoutingPath.Clean.{slash}
use inferops.Routing.Types.{Backend}
use inferops.Routing.Registry.Defs.{MemoryRegistry, prefix_less}
use inferops.Routing.Registry.Ops.{covers, upstream_path, first_cover, select, select_backend}

prefix_less-StrictWeak : StrictWeak prefix_less
unfolding prefix_less
prefix_less-StrictWeak = record {
  asym = λ a b h. ground (arith, str_lt_asym a b);
  neg_trans = λ a b c h k. ground (arith, str_lt_neg_trans a b c);
}

not_longer : (a b : Str) → prefix_less b a ≡ false → length b ≤ length a
unfolding prefix_less
not_longer a b h = ground arith

some_eq : {a b : Str} → some a ≡ some b → a ≡ b
some_eq h = cc

true-false : true ≡ false → ⊥
true-false h = cc

-- The first cover in a sorted list is the longest.
first_cover-some :
    (path prefix : Str) (ps : List Str)
    → IsSorted prefix_less ps
    → first_cover path ps ≡ some prefix
    → In prefix ps
      × (covers path prefix ≡ true)
      × All (λ p. covers path p ≡ true → length p ≤ length prefix) ps
unfolding first_cover
first_cover-some path prefix [] s h = cc
first_cover-some path prefix (p ∷ ps) (first, s) h = elim (Bool-cases (covers path p)) [
  | inl here ↦
      let same : p ≡ prefix = some_eq (rw here at h) in
      (
        inl (sym same),
        rw (← same) here,
        (
          (λ _. rw same (omega arith)),
          subst (λ x. All (λ y. covers path y ≡ true → length y ≤ length x) ps) same
              (All-imp (λ y. prefix_less y p ≡ false)
                (λ y. covers path y ≡ true → length y ≤ length p) ps (λ y f _. not_longer p y f)
                first),
        ),
      )
  | inr other ↦
      let (m, c, longest) = first_cover-some path prefix ps s (rw other at h) in
      (inr m, c, ((λ t. absurd (true-false (sym t ∙ other))), longest))
]

first_cover-none :
    (path : Str) (ps : List Str)
    → (first_cover path ps ≡ none) ↔ All (λ p. covers path p ≡ false) ps
unfolding first_cover
first_cover-none path [] = ground arith
first_cover-none path (p ∷ ps) = ground (arith, first_cover-none path ps)

has_prefix-front : (s p t : Str) → has_prefix s (p ++ t) ≡ true → has_prefix s p ≡ true
unfolding has_prefix
has_prefix-front s [] t h = refl
has_prefix-front [] (b ∷ p) t h = cc
has_prefix-front (a ∷ s) (b ∷ p) t h = ground (arith, has_prefix-front s p t)

has_prefix_self : (s : Str) → has_prefix s s ≡ true
unfolding has_prefix
has_prefix_self [] = refl
has_prefix_self (a ∷ s) = ground (arith, has_prefix_self s)

covers-has_prefix : (path prefix : Str) → covers path prefix ≡ true → has_prefix path prefix ≡ true
covers-has_prefix path prefix h = elim (Bool-cases (path == prefix)) [
  | inl same ↦
      let e : path ≡ prefix = (str_beq_iff path prefix).0 same in rw e (has_prefix_self prefix)
  | inr other ↦ has_prefix-front path prefix (slash ∷ []) (rw other at h)
]

-- What is behind a prefix that covers the path begins with a slash, if it is not empty.
behind_cover :
    (prefix rest : Str)
    → covers (prefix ++ rest) prefix ≡ true
    → (rest ≡ []) ⊎ ((more : Str) × (rest ≡ slash ∷ more))
unfolding has_prefix
behind_cover [] [] h = inl refl
behind_cover [] (c ∷ rest) h = inr (rest, ground arith)
behind_cover (p ∷ prefix) rest h = behind_cover prefix rest (ground arith)

-- The upstream path is what is left of the path behind the prefix, or a slash if nothing is left.
abbrev pub IsUpstream : Str → Str → Str → Type 0
IsUpstream path prefix upstream =
    (more : Str) × (upstream ≡ slash ∷ more)
    × ((prefix ++ upstream ≡ path) ⊎ ((path ≡ prefix) × (more ≡ [])))

upstream_path-IsUpstream :
    (path prefix : Str)
    → covers path prefix ≡ true
    → IsUpstream path prefix (upstream_path path prefix)
unfolding trim_prefix
upstream_path-IsUpstream path prefix h =
    let front = covers-has_prefix path prefix h in
    let whole = has_prefix-append path prefix front in
    split_rest (drop (length prefix) path) whole front refl
  where
    split_rest :
        (rest : Str)
        → prefix ++ rest ≡ path
        → has_prefix path prefix ≡ true
        → drop (length prefix) path ≡ rest
        → IsUpstream path prefix (upstream_path path prefix)
    split_rest [] whole front e =
        rw (front, e) ([], refl, inr (sym whole ∙ append-nil prefix, refl))
    split_rest (c ∷ rest) whole front e = elim (behind_cover prefix (c ∷ rest) (rw whole h)) [
      | inl empty ↦ absurd (ground (arith, empty))
      | inr (more, begins) ↦ rw (front, e) (more, begins, inl whole)
    ]

module _ (path : Str) (load : Option (Backend → ℤ)) (r : MemoryRegistry) where
  -- In a registry whose prefixes are the sorted keys of its routes, the route that `Select` takes
  -- is registered, covers the path, and is the longest that does; the backend is the one chosen
  -- for it, and the upstream path, which begins with a slash, is the rest of the path, or only
  -- the slash if there is no rest.
  pub select-longest :
      (backend : Backend) (upstream : Str)
      → r.prefixes ≡ sort_by prefix_less (keys r.routes)
      → (select path load r).0 ≡ some (backend, upstream)
      → (prefix : Str) × In prefix (keys r.routes)
        × (covers path prefix ≡ true)
        × ((p : Str) → In p (keys r.routes) → covers path p ≡ true → length p ≤ length prefix)
        × (backend ≡ (select_backend prefix load r).0)
        × IsUpstream path prefix upstream
  unfolding select
  select-longest backend upstream sorted h = elim (Option-cases (first_cover path r.prefixes)) [
    | inl missing ↦ absurd (ground (arith, missing))
    | inr (prefix, found) ↦
        let s : IsSorted prefix_less r.prefixes =
          rw sorted (sort_by-IsSorted prefix_less prefix_less-StrictWeak (keys r.routes)) in
        let (m, c, longest) = first_cover-some path prefix r.prefixes s found in
        let m' : In prefix (sort_by prefix_less (keys r.routes)) = rw sorted at m in
        let e : (backend ≡ (select_backend prefix load r).0)
            × (upstream ≡ upstream_path path prefix) =
          ground (arith, found) in
        (
          prefix,
          In-sort_by prefix_less prefix (keys r.routes) m',
          c,
          λ p k.
              All-In (λ y. covers path y ≡ true → length y ≤ length prefix) r.prefixes longest
                (rw sorted (sort_by-In prefix_less p (keys r.routes) k)),
          e.0,
          rw e.1 (upstream_path-IsUpstream path prefix c),
        )
  ]

  -- In such a registry `Select` finds nothing exactly when no registered prefix covers the path.
  pub select-none_iff :
      r.prefixes ≡ sort_by prefix_less (keys r.routes)
      → ((select path load r).0 ≡ none) ↔ ((p : Str) → In p (keys r.routes) → covers path p ≡ false)
  unfolding select
  select-none_iff sorted = (
    λ h p m.
        All-In (λ y. covers path y ≡ false) r.prefixes
          ((first_cover-none path r.prefixes).0 (ground arith))
          (rw sorted (sort_by-In prefix_less p (keys r.routes) m)),
    λ h.
        let none' = (first_cover-none path r.prefixes).1 (
          All-of_In (λ y. covers path y ≡ false) r.prefixes
            (λ p m. h p (In-sort_by prefix_less p (keys r.routes) (rw sorted at m)))) in
        ground (arith, none'),
  )
