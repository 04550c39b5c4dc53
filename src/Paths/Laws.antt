-- ===== src/Paths/Laws.antt =====
-- What the checks of a path below the root establish (operator/internal/paths/paths.go).
use inferops.Base.{
  ℕ, List, [], ◌∷◌, ◌++◌, ◌≡◌, ◌≢◌, refl, sym, ◌∙◌, ap, ◌⊎◌, inl, inr, true, Str, ◌==◌, str_eq,
  str_beq_iff, nat_eq, arith, All, has_prefix, has_prefix-append, trim_prefix, trim_suffix_byte, ok,
  List-cases, Bool-cases, drop, length, append_assoc,
}
use inferops.RoutingPath.Clean.{slash, split, join, clean, is_abs, cons_head}
use inferops.RoutingPath.Segments.{IsPlain, NoSlash-of_IsPlain, clean-elements, split-join}
use inferops.Paths.Defs.{clean_absolute_path, under_root, child_of_root}

cons_head-append :
    (c : ℕ) (xs ys : List Str) → xs ≢ [] → cons_head c xs ++ ys ≡ cons_head c (xs ++ ys)
cons_head-append c [] ys h = absurd (h refl)
cons_head-append c (x ∷ xs) ys h = refl

split-ne_nil : (s : Str) → split s ≢ []
unfolding split
split-ne_nil [] e = cc
split-ne_nil (c ∷ s) e = elim (List-cases (split s)) [
  | inl none' ↦ split-ne_nil s none'
  | inr (w, ws, some') ↦ ground (arith, some')
]

split-append : (x y : Str) → split (x ++ slash ∷ y) ≡ split x ++ split y
unfolding split
split-append [] y = refl
split-append (c ∷ x) y = elim (Bool-cases (c == slash)) [
  | inl t ↦ rw (t, split-append x y) refl
  | inr f ↦ rw (f, split-append x y) (sym (cons_head-append c (split x) (split y) (split-ne_nil x)))
]

All-back : (xs ys : List Str) → All IsPlain (xs ++ ys) → All IsPlain ys
All-back [] ys h = h
All-back (x ∷ xs) ys (p, h) = All-back xs ys h

IsPlain-rest :
    (path trimmed rest : Str)
    → is_abs path ≡ true
    → clean path ≡ path
    → path ≢ slash ∷ []
    → (trimmed ≡ []) ⊎ (is_abs trimmed ≡ true)
    → path ≡ trimmed ++ slash ∷ rest
    → All IsPlain (split rest)
unfolding split join
IsPlain-rest path trimmed rest rooted cleaned n t e =
    let (es, plain, e') = clean-elements path rooted in from es plain (sym cleaned ∙ e')
  where
    behind :
        (prefix : Str) (w : Str) (ws : List Str)
        → (prefix ≡ []) ⊎ (is_abs prefix ≡ true)
        → All IsPlain (w ∷ ws)
        → split prefix ++ split rest ≡ [] ∷ w ∷ ws
        → All IsPlain (split rest)
    behind [] w ws t h s = let s' : split rest ≡ w ∷ ws = ground (arith, s) in rw s' h
    behind (c ∷ x) w ws t h s =
        let s' : split x ++ split rest ≡ w ∷ ws = ground (arith, s, t) in
        All-back (split x) (split rest) (rw s' h)

    from : (es : List Str) → All IsPlain es → path ≡ slash ∷ join es → All IsPlain (split rest)
    from [] h s = absurd (n s)
    from (w ∷ ws) h s = behind trimmed w ws t h (
        sym (split-append trimmed rest)
        ∙ ap split (sym e ∙ s)
        ∙ ap (λ r. [] ∷ r) (split-join w ws (NoSlash-of_IsPlain (w ∷ ws) h)))

trimmed_root :
    (root : Str)
    → is_abs root ≡ true
    → (trim_suffix_byte root slash ≡ []) ⊎ (is_abs (trim_suffix_byte root slash) ≡ true)
unfolding trim_suffix_byte
trimmed_root [] h = cc
trimmed_root (c ∷ []) h = ground arith
trimmed_root (c ∷ d ∷ s) h = inr h

pub clean_absolute_path-checked :
    (s path : Str)
    → clean_absolute_path s ≡ ok path
    → (path ≡ s) × (is_abs path ≡ true) × (clean path ≡ path)
unfolding clean_absolute_path
clean_absolute_path-checked s path h = ground (arith, str_beq_iff (clean s) s)

-- A clean absolute path other than `/` that `UnderRoot` accepts is the root, less a trailing slash,
-- or goes on behind it with a slash and plain elements, so that no `..` leads out of the root.
pub under_root-IsPlain :
    (s path root : Str)
    → clean_absolute_path s ≡ ok path
    → path ≢ slash ∷ []
    → is_abs root ≡ true
    → under_root path root ≡ ok tt
    → (path ≡ trim_suffix_byte root slash)
      ⊎ ((rest : Str) × (path ≡ trim_suffix_byte root slash ++ slash ∷ rest)
          × All IsPlain (split rest))
unfolding under_root
under_root-IsPlain s path root h n rooted u =
    let (_, absolute, cleaned) = clean_absolute_path-checked s path h in
    let trimmed = trim_suffix_byte root slash in
    elim (Bool-cases (path == trimmed)) [
      | inl t ↦ inl ((str_beq_iff path trimmed).0 t)
      | inr f ↦
          let front : has_prefix path (trimmed ++ slash ∷ []) ≡ true = ground (arith, f) in
          let rest = drop (length (trimmed ++ slash ∷ [])) path in
          let whole : path ≡ trimmed ++ slash ∷ rest =
            sym (has_prefix-append path (trimmed ++ slash ∷ []) front)
            ∙ append_assoc trimmed (slash ∷ []) rest in
          inr (
            rest,
            whole,
            IsPlain-rest path trimmed rest absolute cleaned n (trimmed_root root rooted) whole,
          )
    ]

-- What `ChildOfRoot` returns for a clean absolute path other than `/` is made of plain elements, and
-- with the root and a slash in front it is the path.
child_of_root-IsPlain :
    (s path root rest : Str)
    → clean_absolute_path s ≡ ok path
    → path ≢ slash ∷ []
    → is_abs root ≡ true
    → child_of_root path root ≡ ok rest
    → (path ≡ trim_suffix_byte root slash ++ slash ∷ rest) × All IsPlain (split rest)
unfolding child_of_root trim_prefix
child_of_root-IsPlain s path root rest h n rooted u =
    let (_, absolute, cleaned) = clean_absolute_path-checked s path h in
    let trimmed = trim_suffix_byte root slash in
    let front : has_prefix path (trimmed ++ slash ∷ []) ≡ true = ground arith in
    let behind : drop (length (trimmed ++ slash ∷ [])) path ≡ rest = ground (arith, front) in
    let whole : path ≡ trimmed ++ slash ∷ rest =
      sym (has_prefix-append path (trimmed ++ slash ∷ []) front)
      ∙ append_assoc trimmed (slash ∷ []) (drop (length (trimmed ++ slash ∷ [])) path)
      ∙ ap (λ r. trimmed ++ slash ∷ r) behind in
    (whole, IsPlain-rest path trimmed rest absolute cleaned n (trimmed_root root rooted) whole)
