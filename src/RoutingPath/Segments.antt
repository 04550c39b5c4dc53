-- ===== src/RoutingPath/Segments.antt =====
-- Splitting, joining and cleaning rooted paths: cleaning twice is cleaning once.
use inferops.Base.{
  ℕ, List, [], ◌∷◌, ◌++◌, true, Str, ◌==◌, nat_eq, str_eq, str_beq_iff, ◌≡◌, ◌≢◌, refl, ap, ◌∙◌,
  arith, All, All-reverse, trim_suffix_byte, inl, inr, Bool-cases, reverse, reverse-cons,
  append_assoc, append-nil, reverse-reverse,
}
use inferops.RoutingPath.Clean.{
  slash, split, join, dot, dot_dot, cons_head, push, push_all, clean, is_abs,
}

abbrev pub NoSlash : Str → Type 0
NoSlash [] = Unit
NoSlash (c ∷ s) = (c ≢ slash) × NoSlash s

-- An element that a clean rooted path may hold.
abbrev pub IsPlain : Str → Type 0
IsPlain w = (w ≢ []) × (w ≢ dot) × (w ≢ dot_dot) × NoSlash w

cons_head-NoSlash :
    (c : ℕ) (ws : List Str) → c ≢ slash → All NoSlash ws → All NoSlash (cons_head c ws)
cons_head-NoSlash c [] n h = ((n, tt), tt)
cons_head-NoSlash c (w ∷ ws) n (p, h) = ((n, p), h)

split-NoSlash : (s : Str) → All NoSlash (split s)
unfolding split
split-NoSlash [] = (tt, tt)
split-NoSlash (c ∷ s) = elim (Bool-cases (c == slash)) [
  | inl t ↦ rw t (tt, split-NoSlash s)
  | inr f ↦ rw f (cons_head-NoSlash c (split s) (ground arith) (split-NoSlash s))
]

split_word : (w : Str) → NoSlash w → split w ≡ w ∷ []
unfolding split
split_word [] h = refl
split_word (c ∷ w) (n, h) = ground (arith, split_word w h)

split-append : (w t : Str) → NoSlash w → split (w ++ slash ∷ t) ≡ w ∷ split t
unfolding split
split-append [] t h = refl
split-append (c ∷ w) t (n, h) = ground (arith, split-append w t h)

pub split-join : (w : Str) (ws : List Str) → All NoSlash (w ∷ ws) → split (join (w ∷ ws)) ≡ w ∷ ws
unfolding join
split-join w [] (h, _) = split_word w h
split-join w (v ∷ ws) (h, k) =
    split-append w (join (v ∷ ws)) h ∙ ap (λ r. w ∷ r) (split-join v ws k)

push-IsPlain :
    (stack : List Str) (w : Str) → All IsPlain stack → NoSlash w → All IsPlain (push true stack w)
unfolding push
push-IsPlain [] w h n = ground (arith, str_beq_iff w dot, str_beq_iff w dot_dot)
push-IsPlain (v ∷ stack) w h n =
    ground (arith, str_beq_iff w dot, str_beq_iff w dot_dot, str_beq_iff v dot_dot)

push_all-IsPlain :
    (stack ws : List Str)
    → All IsPlain stack
    → All NoSlash ws
    → All IsPlain (push_all true stack ws)
unfolding push_all
push_all-IsPlain stack [] h k = h
push_all-IsPlain stack (w ∷ ws) h (n, k) =
    push_all-IsPlain (push true stack w) ws (push-IsPlain stack w h n) k

push_of_IsPlain : (stack : List Str) (w : Str) → IsPlain w → push true stack w ≡ w ∷ stack
unfolding push
push_of_IsPlain stack w h = ground (arith, str_beq_iff w dot, str_beq_iff w dot_dot)

push_all_of_IsPlain :
    (stack ws : List Str) → All IsPlain ws → push_all true stack ws ≡ reverse ws ++ stack
unfolding push_all
push_all_of_IsPlain stack [] h = refl
push_all_of_IsPlain stack (w ∷ ws) (p, h) =
    rw (push_of_IsPlain stack w p, push_all_of_IsPlain (w ∷ stack) ws h)
      (simp (reverse-cons, append_assoc))

-- The elements that `Clean` keeps of a rooted path, written without its first slash.
pub elements : Str → List Str
elements s = reverse (push_all true [] (split s))

pub elements-IsPlain : (s : Str) → All IsPlain (elements s)
unfolding elements
elements-IsPlain s =
    All-reverse IsPlain (push_all true [] (split s))
      (push_all-IsPlain [] (split s) tt (split-NoSlash s))

pub clean_of_abs : (s : Str) → clean (slash ∷ s) ≡ slash ∷ join (elements s)
unfolding clean elements
clean_of_abs s = refl

pub NoSlash-of_IsPlain : (ws : List Str) → All IsPlain ws → All NoSlash ws
NoSlash-of_IsPlain [] h = tt
NoSlash-of_IsPlain (w ∷ ws) (p, h) = (p.3, NoSlash-of_IsPlain ws h)

pub elements-join : (ws : List Str) → All IsPlain ws → elements (join ws) ≡ ws
unfolding elements
elements-join [] h = unfold join split push_all in refl
elements-join (w ∷ ws) h = rw (
  split-join w ws (NoSlash-of_IsPlain (w ∷ ws) h),
  push_all_of_IsPlain [] (w ∷ ws) h,
  append-nil (reverse (w ∷ ws)),
  reverse-reverse (w ∷ ws),
)

-- Cleaning a rooted path a second time changes nothing.
pub clean_idempotent : (p : Str) → is_abs p ≡ true → clean (clean p) ≡ clean p
clean_idempotent [] h = cc
clean_idempotent (c ∷ s) h =
    let e : c ≡ slash = ground arith in
    rw (
      e,
      clean_of_abs s,
      clean_of_abs (join (elements s)),
      elements-join (elements s) (elements-IsPlain s),
    )

-- A clean rooted path is a slash and plain elements between slashes: no element is empty, "." or
-- "..", so it has no trailing slash unless it is the root.
pub clean-elements :
    (p : Str) → is_abs p ≡ true → (ws : List Str) × All IsPlain ws × (clean p ≡ slash ∷ join ws)
clean-elements [] h = cc
clean-elements (c ∷ s) h =
    let e : c ≡ slash = ground arith in (elements s, elements-IsPlain s, rw e (clean_of_abs s))

trim-append :
    (s : Str) (c : ℕ) (t : Str)
    → trim_suffix_byte (s ++ c ∷ t) slash ≡ s ++ trim_suffix_byte (c ∷ t) slash
unfolding trim_suffix_byte
trim-append [] c t = refl
trim-append (a ∷ []) c t = refl
trim-append (a ∷ b ∷ s) c t = ap (λ r. a ∷ r) (trim-append (b ∷ s) c t)

trim_of_NoSlash : (w : Str) → NoSlash w → trim_suffix_byte w slash ≡ w
unfolding trim_suffix_byte
trim_of_NoSlash [] h = refl
trim_of_NoSlash (a ∷ []) h = ground arith
trim_of_NoSlash (a ∷ b ∷ w) (n, h) = ap (λ r. a ∷ r) (trim_of_NoSlash (b ∷ w) h)

-- A path of plain elements has no trailing slash.
pub trim-join :
    (w : Str) (ws : List Str)
    → All IsPlain (w ∷ ws)
    → trim_suffix_byte (slash ∷ join (w ∷ ws)) slash ≡ slash ∷ join (w ∷ ws)
unfolding join
trim-join [] ws (p, h) = absurd (p.0 refl)
trim-join (c ∷ w) [] (p, h) =
    trim-append (slash ∷ []) c w ∙ ap (λ r. slash ∷ r) (trim_of_NoSlash (c ∷ w) p.3)
trim-join (c ∷ w) (v ∷ ws) (p, h) =
    trim-append (slash ∷ c ∷ w) slash (join (v ∷ ws))
    ∙ ap (λ r. slash ∷ c ∷ w ++ r) (trim-join v ws h)
