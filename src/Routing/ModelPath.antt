-- ===== src/Routing/ModelPath.antt =====
-- `ParseModelPath` (gateway/internal/routing/router.go), and that it inverts the default route.
use inferops.Base.{
  ℕ, zero, suc, [], ◌∷◌, ◌++◌, ◌≡◌, ◌≢◌, refl, sym, ◌∙◌, ap, ◌↔◌, inl, inr, true, false, not, ◌||◌,
  if◌then◌else◌, Option, none, some, Str, ◌==◌, str_eq, str_beq_iff, nat_eq, arith, has_prefix,
  has_prefix-append, trim_prefix, index_byte, take, drop, length, Bool-cases, Option-cases,
}
use inferops.RoutingPath.Clean.{slash, dot, dot_dot, is_abs}
use inferops.RoutingPath.Segments.{IsPlain, NoSlash}
use inferops.RoutingPath.Defs.{default_model_prefix, default_model_route}

model_at : Str → Option ℕ → Option (Str × Str)
model_at remainder none = none
model_at remainder (some zero) = none
model_at remainder (some (suc n)) =
    let model = take (suc n) remainder in
    if model == dot || model == dot_dot then none else some (model, drop (suc n) remainder)

unfoldable pub parse_model_path : Str → Option (Str × Str)
unfolding model_at
parse_model_path request_path =
    if not (has_prefix request_path default_model_prefix)
    then none
    else let remainder = trim_prefix request_path default_model_prefix in
      model_at remainder (index_byte remainder slash)

drop-append : (p s : Str) → drop (length p) (p ++ s) ≡ s
unfolding drop
drop-append [] s = refl
drop-append (a ∷ p) s = drop-append p s

take-append : (p s : Str) → take (length p) (p ++ s) ≡ p
unfolding take
take-append [] s = refl
take-append (a ∷ p) s = ap (λ r. a ∷ r) (take-append p s)

index_byte-append :
    (w r : Str) → NoSlash w → is_abs r ≡ true → index_byte (w ++ r) slash ≡ some (length w)
unfolding index_byte
index_byte-append [] [] n h = cc
index_byte-append [] (c ∷ r) n h = ground (arith, h)
index_byte-append (a ∷ w) r (n, ns) h =
    let other : (a == slash) ≡ false = ground arith in rw (other, index_byte-append w r ns h) refl

-- What is at the first slash.
index_byte-parts :
    (s : Str) (n : ℕ)
    → index_byte s slash ≡ some n
    → NoSlash (take n s) × (is_abs (drop n s) ≡ true) × (take n s ++ drop n s ≡ s)
unfolding index_byte take drop
index_byte-parts [] n h = cc
index_byte-parts (a ∷ s) n h = elim (Bool-cases (a == slash)) [
  | inl t ↦ let zero' : n ≡ 0 = ground (arith, t) in rw zero' (tt, t, refl)
  | inr f ↦ elim (Option-cases (index_byte s slash)) [
    | inl e ↦ absurd (ground (arith, f, e))
    | inr (k, e) ↦
        let next : n ≡ suc k = ground (arith, f, e) in
        let (none', starts, whole) = index_byte-parts s k e in
        rw next (((λ same. ground (arith, f, same)), none'), starts, ap (λ r. a ∷ r) whole)
  ]
]

take-ne_nil : (k n : ℕ) (s : Str) → index_byte s slash ≡ some n → take (suc k) s ≢ []
unfolding take index_byte
take-ne_nil k n [] e same = cc
take-ne_nil k n (a ∷ s) e same = ground arith

model_at-parts :
    (remainder model upstream : Str) (n : ℕ)
    → index_byte remainder slash ≡ some n
    → model_at remainder (some n) ≡ some (model, upstream)
    → IsPlain model × (is_abs upstream ≡ true) × (remainder ≡ model ++ upstream)
unfolding model_at
model_at-parts remainder model upstream zero e h = cc
model_at-parts remainder model upstream (suc k) e h =
    let (no_slash, starts, whole) = index_byte-parts remainder (suc k) e in
    let taken = take (suc k) remainder in
    let equal_dot = str_beq_iff taken dot in
    let equal_dot_dot = str_beq_iff taken dot_dot in
    let taken_model : taken ≡ model = ground (arith, equal_dot, equal_dot_dot) in
    let rest : drop (suc k) remainder ≡ upstream = ground (arith, equal_dot, equal_dot_dot) in
    rw (← taken_model, ← rest)
      (
        (
          take-ne_nil k (suc k) remainder e,
          (λ same. ground (arith, equal_dot.1 same)),
          (λ same. ground (arith, equal_dot_dot.1 same)),
          no_slash,
        ),
        starts,
        sym whole,
      )

model_at_plain :
    (model upstream : Str)
    → IsPlain model
    → is_abs upstream ≡ true
    → model_at (model ++ upstream) (index_byte (model ++ upstream) slash) ≡ some (model, upstream)
unfolding model_at
model_at_plain [] upstream n h = absurd (n.0 refl)
model_at_plain (a ∷ w) upstream (_, n, m, no_slash) h =
    rw (index_byte-append (a ∷ w) upstream no_slash h) (
      rw (take-append (a ∷ w) upstream, drop-append (a ∷ w) upstream)
        (ground (arith, str_beq_iff (a ∷ w) dot, str_beq_iff (a ∷ w) dot_dot)))

parse-remainder :
    (request_path model upstream : Str)
    → parse_model_path request_path ≡ some (model, upstream)
    → (remainder : Str) × (request_path ≡ default_model_prefix ++ remainder)
      × (model_at remainder (index_byte remainder slash) ≡ some (model, upstream))
unfolding parse_model_path trim_prefix
parse-remainder request_path model upstream h =
    let front : has_prefix request_path default_model_prefix ≡ true = ground arith in
    (
      drop (length default_model_prefix) request_path,
      sym (has_prefix-append request_path default_model_prefix front),
      ground (arith, front),
    )

parse_model_path_prefixed :
    (remainder : Str)
    → parse_model_path (default_model_prefix ++ remainder)
      ≡ model_at remainder (index_byte remainder slash)
unfolding parse_model_path trim_prefix has_prefix drop
parse_model_path_prefixed remainder = refl

-- The model is one plain path element, and with `/models/` in front and the upstream path behind
-- it is the request path: `ParseModelPath` inverts the default route of a model.
pub parse_model_path_iff :
    (request_path model upstream : Str)
    → (parse_model_path request_path ≡ some (model, upstream)) ↔ (
        IsPlain model
        × (is_abs upstream ≡ true)
        × (request_path ≡ default_model_route model ++ upstream))
unfolding default_model_route
parse_model_path_iff request_path model upstream = (
  λ h.
      let (remainder, whole, at') = parse-remainder request_path model upstream h in
      elim (Option-cases (index_byte remainder slash)) [
        | inl e ↦ absurd (unfold model_at in ground (arith, rw e at at'))
        | inr (n, e) ↦
            let (plain, starts, parts) =
              model_at-parts remainder model upstream n e (rw e at at') in
            (plain, starts, whole ∙ ap (λ r. default_model_prefix ++ r) parts)
      ],
  λ (plain, starts, whole).
      rw whole (
        parse_model_path_prefixed (model ++ upstream) ∙ model_at_plain model upstream plain starts),
)
