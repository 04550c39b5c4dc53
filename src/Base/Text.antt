-- ===== src/Base/Text.antt =====
-- Go strings as lists of bytes, with the functions of package `strings` that the program calls.
use Prim.Native.Nat.{ℕ, zero, suc}
use Prim.Native.Char.{code}
use Prim.Native.String.{String}
use mathlib.Core.Path.{◌≡◌, refl}
use mathlib.Core.Logic.{◌↔◌}
use mathlib.Core.Bool.{Bool, true, false, ◌&&◌, ◌||◌}
use mathlib.Core.Option
use mathlib.Core.Option.{Option, none, some}
use mathlib.Core.List.{List, [], ◌∷◌, ◌++◌, reverse}
use native.Mathlib.Omega.{arith}
use inferops.Base.Tests.{if◌then◌else◌, nat_beq, ltb, Eq}
use inferops.Base.Lists.{length, any}

abbrev pub Str : Type 0
Str = List ℕ

-- The bytes of an ASCII literal.
abbrev pub codes : String → Str
codes String.[] = []
codes (String.◌∷◌ c s) = code c ∷ codes s

abbrev pub str_beq : Str → Str → Bool
str_beq [] [] = true
str_beq (a ∷ s) (b ∷ t) = nat_beq a b && str_beq s t
str_beq [] (b ∷ t) = false
str_beq (a ∷ s) [] = false

pub str_beq_iff : (s t : Str) → (str_beq s t ≡ true) ↔ (s ≡ t)
str_beq_iff [] [] = ground arith
str_beq_iff (a ∷ s) (b ∷ t) = ground (arith, str_beq_iff s t)
str_beq_iff [] (b ∷ t) = ground arith
str_beq_iff (a ∷ s) [] = ground arith

instance abbrev pub str_eq : Eq Str
str_eq = record { beq = str_beq; beq_iff = str_beq_iff }

abbrev pub is_empty : Str → Bool
is_empty [] = true
is_empty (_ ∷ _) = false

-- The order of Go's `<` on strings: byte by byte.
unfoldable pub str_lt : Str → Str → Bool
str_lt [] [] = false
str_lt [] (b ∷ t) = true
str_lt (a ∷ s) [] = false
str_lt (a ∷ s) (b ∷ t) = ltb a b || (nat_beq a b && str_lt s t)

-- `strings.HasPrefix`.
unfoldable pub has_prefix : Str → Str → Bool
has_prefix s [] = true
has_prefix [] (b ∷ t) = false
has_prefix (a ∷ s) (b ∷ t) = nat_beq a b && has_prefix s t

-- What `s` holds behind its first `n` bytes, the slice `s[n:]` at `n ≤ len(s)`.
unfoldable pub drop : ℕ → Str → Str
drop zero s = s
drop (suc n) [] = []
drop (suc n) (a ∷ s) = drop n s

-- The slice `s[:n]` at `n ≤ len(s)`.
unfoldable pub take : ℕ → Str → Str
take zero s = []
take (suc n) [] = []
take (suc n) (a ∷ s) = a ∷ take n s

-- `strings.TrimPrefix`.
unfoldable pub trim_prefix : Str → Str → Str
unfolding has_prefix drop
trim_prefix s p = if has_prefix s p then drop (length p) s else s

-- `strings.TrimSuffix` of a one-byte suffix.
unfoldable pub trim_suffix_byte : Str → ℕ → Str
trim_suffix_byte [] b = []
trim_suffix_byte (a ∷ []) b = if nat_beq a b then [] else a ∷ []
trim_suffix_byte (a ∷ c ∷ s) b = a ∷ trim_suffix_byte (c ∷ s) b

-- `strings.IndexByte`; `none` is its result -1.
unfoldable pub index_byte : Str → ℕ → Option ℕ
index_byte [] b = none
index_byte (a ∷ s) b = if nat_beq a b then some 0 else Option.map suc (index_byte s b)

-- `strings.ContainsAny` of ASCII characters, and `strings.Contains` of one.
unfoldable pub contains_any : Str → Str → Bool
contains_any s chars = any (λ a. any (nat_beq a) chars) s

-- The UTF-8 encodings of the characters that `unicode.IsSpace` accepts.
abbrev pub spaces : List Str
spaces =
    (9 ∷ [])
    ∷ (10 ∷ [])
    ∷ (11 ∷ [])
    ∷ (12 ∷ [])
    ∷ (13 ∷ [])
    ∷ (32 ∷ [])
    ∷ (0xc2 ∷ 0x85 ∷ [])
    ∷ (0xc2 ∷ 0xa0 ∷ [])
    ∷ (0xe1 ∷ 0x9a ∷ 0x80 ∷ [])
    ∷ (0xe2 ∷ 0x80 ∷ 0x80 ∷ [])
    ∷ (0xe2 ∷ 0x80 ∷ 0x81 ∷ [])
    ∷ (0xe2 ∷ 0x80 ∷ 0x82 ∷ [])
    ∷ (0xe2 ∷ 0x80 ∷ 0x83 ∷ [])
    ∷ (0xe2 ∷ 0x80 ∷ 0x84 ∷ [])
    ∷ (0xe2 ∷ 0x80 ∷ 0x85 ∷ [])
    ∷ (0xe2 ∷ 0x80 ∷ 0x86 ∷ [])
    ∷ (0xe2 ∷ 0x80 ∷ 0x87 ∷ [])
    ∷ (0xe2 ∷ 0x80 ∷ 0x88 ∷ [])
    ∷ (0xe2 ∷ 0x80 ∷ 0x89 ∷ [])
    ∷ (0xe2 ∷ 0x80 ∷ 0x8a ∷ [])
    ∷ (0xe2 ∷ 0x80 ∷ 0xa8 ∷ [])
    ∷ (0xe2 ∷ 0x80 ∷ 0xa9 ∷ [])
    ∷ (0xe2 ∷ 0x80 ∷ 0xaf ∷ [])
    ∷ (0xe2 ∷ 0x81 ∷ 0x9f ∷ [])
    ∷ (0xe3 ∷ 0x80 ∷ 0x80 ∷ [])
    ∷ []

reversed_spaces : List Str → List Str
reversed_spaces [] = []
reversed_spaces (p ∷ ps) = reverse p ∷ reversed_spaces ps

-- The length of the space character at the start, 0 if there is none.
leading : List Str → Str → ℕ
unfolding has_prefix
leading [] s = 0
leading (p ∷ ps) s = if has_prefix s p then length p else leading ps s

-- One round for each byte is enough: a round that goes on drops a byte at least.
trim_left : List Str → ℕ → Str → Str
unfolding leading drop
trim_left ps zero s = s
trim_left ps (suc fuel) s =
    let n = leading ps s in
    let rest = trim_left ps fuel (drop n s) in elim n [ zero ↦ s | suc _ ↦ rest ]

-- `strings.TrimSpace`.
unfoldable pub trim_space : Str → Str
unfolding trim_left reversed_spaces
trim_space s =
    let t = trim_left spaces (length s) s in
    reverse (trim_left (reversed_spaces spaces) (length t) (reverse t))

trim_space_test : trim_space (codes "  a b\n") ≡ codes "a b"
unfolding trim_space
trim_space_test = refl

trim_space_unicode_test :
    trim_space (0xc2 ∷ 0xa0 ∷ codes "a" ++ 0xe2 ∷ 0x80 ∷ 0xa9 ∷ []) ≡ codes "a"
unfolding trim_space
trim_space_unicode_test = refl

-- `str_lt` is a strict total order.
pub str_lt_asym : (s t : Str) → str_lt s t ≡ true → str_lt t s ≡ false
unfolding str_lt
str_lt_asym [] [] h = refl
str_lt_asym [] (b ∷ t) h = refl
str_lt_asym (a ∷ s) [] h = cc
str_lt_asym (a ∷ s) (b ∷ t) h = ground (arith, str_lt_asym s t)

pub str_lt_total : (s t : Str) → str_lt s t ≡ false → str_lt t s ≡ false → s ≡ t
unfolding str_lt
str_lt_total [] [] h k = refl
str_lt_total [] (b ∷ t) h k = cc
str_lt_total (a ∷ s) [] h k = cc
str_lt_total (a ∷ s) (b ∷ t) h k = ground (arith, str_lt_total s t)

pub str_lt_trans : (s t u : Str) → str_lt s t ≡ true → str_lt t u ≡ true → str_lt s u ≡ true
unfolding str_lt
str_lt_trans [] [] u h k = cc
str_lt_trans [] (b ∷ t) [] h k = cc
str_lt_trans [] (b ∷ t) (c ∷ u) h k = refl
str_lt_trans (a ∷ s) [] u h k = cc
str_lt_trans (a ∷ s) (b ∷ t) [] h k = cc
str_lt_trans (a ∷ s) (b ∷ t) (c ∷ u) h k = ground (arith, str_lt_trans s t u)

pub str_lt_irrefl : (s : Str) → str_lt s s ≡ false
unfolding str_lt
str_lt_irrefl [] = refl
str_lt_irrefl (a ∷ s) = ground (arith, str_lt_irrefl s)

pub str_lt_neg_trans : (s t u : Str) → str_lt t s ≡ false → str_lt u t ≡ false → str_lt u s ≡ false
unfolding str_lt
str_lt_neg_trans [] [] u h k = k
str_lt_neg_trans [] (b ∷ t) [] h k = refl
str_lt_neg_trans [] (b ∷ t) (c ∷ u) h k = refl
str_lt_neg_trans (a ∷ s) [] u h k = cc
str_lt_neg_trans (a ∷ s) (b ∷ t) [] h k = cc
str_lt_neg_trans (a ∷ s) (b ∷ t) (c ∷ u) h k = ground (arith, str_lt_neg_trans s t u)

-- A prefix and what is behind it make up the string.
pub has_prefix-append : (s p : Str) → has_prefix s p ≡ true → p ++ drop (length p) s ≡ s
unfolding has_prefix drop
has_prefix-append s [] h = refl
has_prefix-append [] (b ∷ p) h = cc
has_prefix-append (a ∷ s) (b ∷ p) h = ground (arith, has_prefix-append s p)
