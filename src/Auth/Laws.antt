-- ===== src/Auth/Laws.antt =====
-- What lets a request through (gateway/internal/auth/auth.go).
use inferops.Base.{
  ℕ, ◌+◌, ◌<◌, List, [], ◌∷◌, ◌≡◌, ◌≢◌, refl, ap, ◌⊎◌, ◌↔◌, inl, inr, true, Option, none, some, Str,
  ◌==◌, str_eq, str_beq_iff, is_empty, In, All, arith, Result, ok, err, Bool-cases, Option-cases,
  List-cases,
}
use inferops.Auth.Defs.{
  AuthError, FileTokenSource, forward, load, lines, trimmed_lines, is_due, outcome, tokens_at,
  bearer_token, matches_any, wrap, authorization, header_values, header_del,
}

matches_any_iff :
    (presented : Str) (tokens : List Str)
    → (matches_any presented tokens ≡ true) ↔ In presented tokens
unfolding matches_any
matches_any_iff presented [] = ground arith
matches_any_iff presented (token ∷ tokens) =
    ground (arith, str_beq_iff presented token, matches_any_iff presented tokens)

header_values-header_del :
    (name : Str) (headers : List (Str × Str)) → header_values name (header_del name headers) ≡ []
unfolding header_values header_del
header_values-header_del name [] = refl
header_values-header_del name ((key, value) ∷ headers) = elim (Bool-cases (key == name)) [
  | inl t ↦ rw t (header_values-header_del name headers)
  | inr f ↦ rw f (rw f (header_values-header_del name headers))
]

-- A request is forwarded only if the tokens could be had and its one Authorization header presents
-- one of them; what is forwarded is the request without that header, which has none left.
pub wrap-forward :
    (source : Result AuthError (List Str)) (headers forwarded : List (Str × Str))
    → wrap source headers ≡ forward forwarded
    → (tokens : List Str) × (token : Str) × (source ≡ ok tokens)
      × (bearer_token (header_values authorization headers) ≡ some token)
      × In token tokens
      × (forwarded ≡ header_del authorization headers)
      × (header_values authorization forwarded ≡ [])
unfolding wrap
wrap-forward (err e) headers forwarded h = cc
wrap-forward (ok tokens) headers forwarded h =
    elim (Option-cases (bearer_token (header_values authorization headers))) [
      | inl e ↦ absurd (ground (arith, e))
      | inr (token, e) ↦
          let matched : matches_any token tokens ≡ true = ground (arith, e) in
          let same : forwarded ≡ header_del authorization headers = ground (arith, e, matched) in
          (
            tokens,
            token,
            refl,
            e,
            (matches_any_iff token tokens).0 matched,
            same,
            (rw same (header_values-header_del authorization headers)),
          )
    ]

-- A call of `Tokens`: the time, and what the file holds then.
abbrev pub Call : Type 0
Call = ℕ × Option Str

abbrev pub after_calls : List Call → FileTokenSource → FileTokenSource
after_calls [] s = s
after_calls ((now, file) ∷ calls) s = after_calls calls (tokens_at now file s).1

-- Nothing is loaded, or what one of the calls read, to be kept for the interval.
abbrev IsLoaded : List Call → ℕ → FileTokenSource → Type 0
IsLoaded calls interval s =
    (s.reload_interval ≡ interval)
    × ((s.next_reload ≡ none)
        ⊎ ((t : ℕ) × (file : Option Str) × In (t, file) calls
            × (s.next_reload ≡ some (t + interval))
            × (s.tokens ≡ (load file).0)
            × (s.reload_err ≡ (load file).1)))

tokens_at-IsLoaded :
    (calls : List Call) (interval now : ℕ) (file : Option Str) (s : FileTokenSource)
    → In (now, file) calls
    → IsLoaded calls interval s
    → IsLoaded calls interval (tokens_at now file s).1
unfolding tokens_at
tokens_at-IsLoaded calls interval now file s m (e, l) = elim (Bool-cases (is_empty s.path)) [
  | inl t ↦ rw t (e, l)
  | inr f ↦ elim (Bool-cases (is_due now s.next_reload)) [
    | inl due ↦ rw (f, due) (e, inr (now, file, m, ap (λ i. some (now + i)) e, refl, refl))
    | inr early ↦ rw (f, early) (e, l)
  ]
]

after_calls-IsLoaded :
    (all : List Call) (interval : ℕ) (calls : List Call) (s : FileTokenSource)
    → All (λ c. In c all) calls
    → IsLoaded all interval s
    → IsLoaded all interval (after_calls calls s)
after_calls-IsLoaded all interval [] s m l = l
after_calls-IsLoaded all interval ((now, file) ∷ calls) s (m, ms) l =
    after_calls-IsLoaded all interval calls (tokens_at now file s).1 ms
      (tokens_at-IsLoaded all interval now file s m l)

All-self : (xs ys : List Call) → ((c : Call) → In c xs → In c ys) → All (λ c. In c ys) xs
All-self [] ys h = tt
All-self (x ∷ xs) ys h = (h x (inl refl), All-self xs ys (λ c m. h c (inr m)))

load_ok :
    (file : Option Str) (tokens : List Str)
    → outcome (load file).0 (load file).1 ≡ ok tokens
    → (content : Str) × (file ≡ some content)
      × (tokens ≡ trimmed_lines (lines content))
      × (tokens ≢ [])
unfolding load
load_ok none tokens h = cc
load_ok (some content) tokens h = elim (List-cases (trimmed_lines (lines content))) [
  | inl e ↦ absurd (ground (arith, e))
  | inr (y, ys, e) ↦ (content, refl, ground (arith, e), λ n. ground (arith, e))
]

-- The tokens that a call of `Tokens` returns after any calls on a new source are the lines, trimmed
-- and not empty, of the file as this call read it, or as a call before it did whose reload interval
-- has not passed; there is at least one.
pub tokens_at-fresh :
    (s : FileTokenSource) (calls : List Call) (now : ℕ) (file : Option Str) (tokens : List Str)
    → s.next_reload ≡ none
    → (tokens_at now file (after_calls calls s)).0 ≡ ok tokens
    → (t : ℕ) × (content : Str) × (((t ≡ now) × (file ≡ some content))
        ⊎ (In (t, some content) calls × (now < t + s.reload_interval)))
      × (tokens ≡ trimmed_lines (lines content))
      × (tokens ≢ [])
unfolding tokens_at
tokens_at-fresh s calls now file tokens new h =
    let s' = after_calls calls s in
    let (same, l) =
      after_calls-IsLoaded calls s.reload_interval calls s (All-self calls calls (λ c m. m))
        (refl, inl new) in
    elim (Bool-cases (is_due now s'.next_reload)) [
      | inl due ↦
          let (content, e, lines', some') = load_ok file tokens (ground (arith, due)) in
          (now, content, inl (refl, e), lines', some')
      | inr early ↦ elim l [
        | inl e ↦ absurd (ground (arith, e))
        | inr (t, old, m, next, at', err') ↦
            let found : outcome s'.tokens s'.reload_err ≡ ok tokens = ground (arith, early) in
            let (content, e, lines', some') = load_ok old tokens (rw (at', err') at found) in
            let soon : now < t + s.reload_interval = ground (arith, next) in
            (t, content, inr (rw e at m, soon), lines', some')
      ]
    ]
