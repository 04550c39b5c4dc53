-- ===== src/Base/Int.antt =====
-- Go's `int` and `int64`: integers, with the wrap-around of 64-bit two's complement.
use Prim.Native.Nat.{ℕ, suc, ◌+◌, ◌-◌, ◌*◌, ◌%◌, ◌≤◌, ◌<◌}
use mathlib.Core.Path.{◌≡◌, refl}
use mathlib.Core.Logic.{◌⊎◌}
use mathlib.Core.Bool.{Bool, true, false}
use native.Mathlib.Omega.{arith}
use inferops.Base.Tests.{ltb, leb, nat_beq, if◌then◌else◌}

-- `negsuc n` is -(n + 1).
pub data ℤ : Type 0 where
  pos : ℕ → ℤ
  negsuc : ℕ → ℤ

abbrev pub pos_part : ℤ → ℕ
pos_part (pos n) = n
pos_part (negsuc n) = 0

abbrev pub neg_part : ℤ → ℕ
neg_part (pos n) = 0
neg_part (negsuc n) = suc n

-- a - b, as an integer.
abbrev pub sub_ℕ : ℕ → ℕ → ℤ
sub_ℕ a b = if leb b a then pos (a - b) else negsuc (b - a - 1)

infix 50 ◌≤ℤ◌ ◌<ℤ◌
abbrev pub ◌≤ℤ◌ : ℤ → ℤ → Type 0
a ≤ℤ b = pos_part a + neg_part b ≤ pos_part b + neg_part a

abbrev pub ◌<ℤ◌ : ℤ → ℤ → Type 0
a <ℤ b = pos_part a + neg_part b < pos_part b + neg_part a

abbrev pub ltb_ℤ : ℤ → ℤ → Bool
ltb_ℤ a b = ltb (pos_part a + neg_part b) (pos_part b + neg_part a)

abbrev pub eqb_ℤ : ℤ → ℤ → Bool
eqb_ℤ (pos a) (pos b) = nat_beq a b
eqb_ℤ (negsuc a) (negsuc b) = nat_beq a b
eqb_ℤ (pos a) (negsuc b) = false
eqb_ℤ (negsuc a) (pos b) = false

abbrev pub int64_half : ℕ
int64_half = 9223372036854775808

abbrev pub int64_max : ℤ
int64_max = pos 9223372036854775807

-- The value of an exact result in the 64 bits of the machine.
unfoldable pub wrap64 : ℤ → ℤ
wrap64 (pos n) =
    let r = n % 18446744073709551616 in
    if ltb r int64_half then pos r else negsuc (18446744073709551615 - r)
wrap64 (negsuc n) =
    let r = n % 18446744073709551616 in
    if ltb r int64_half then negsuc r else pos (18446744073709551615 - r)

abbrev pub InRange : ℤ → Type 0
InRange a = (pos_part a < int64_half) × (neg_part a ≤ int64_half)

infixl 65 ◌+ℤ◌ ◌-ℤ◌ ◌+64◌ ◌-64◌
infixl 70 ◌*ℤ◌ ◌*64◌
unfoldable pub ◌+ℤ◌ : ℤ → ℤ → ℤ
a +ℤ b = sub_ℕ (pos_part a + pos_part b) (neg_part a + neg_part b)

unfoldable pub ◌-ℤ◌ : ℤ → ℤ → ℤ
a -ℤ b = sub_ℕ (pos_part a + neg_part b) (neg_part a + pos_part b)

-- Go's `+` and `-` on `int64` (and on `int`, which has 64 bits on every supported platform).
unfoldable pub ◌+64◌ : ℤ → ℤ → ℤ
unfolding ◌+ℤ◌ wrap64
a +64 b = wrap64 (a +ℤ b)

unfoldable pub ◌-64◌ : ℤ → ℤ → ℤ
unfolding ◌-ℤ◌ wrap64
a -64 b = wrap64 (a -ℤ b)

-- The product.
unfoldable pub ◌*ℤ◌ : ℤ → ℤ → ℤ
a *ℤ b =
    sub_ℕ (pos_part a * pos_part b + neg_part a * neg_part b)
      (pos_part a * neg_part b + neg_part a * pos_part b)

unfoldable pub ◌*64◌ : ℤ → ℤ → ℤ
unfolding ◌*ℤ◌ wrap64
a *64 b = wrap64 (a *ℤ b)

pub +ℤ_parts :
    (a b : ℤ)
    → pos_part (a +ℤ b) + neg_part a + neg_part b ≡ neg_part (a +ℤ b) + pos_part a + pos_part b
unfolding ◌+ℤ◌
+ℤ_parts a b = ground arith

pub -ℤ_parts :
    (a b : ℤ)
    → pos_part (a -ℤ b) + neg_part a + pos_part b ≡ neg_part (a -ℤ b) + pos_part a + neg_part b
unfolding ◌-ℤ◌
-ℤ_parts a b = ground arith

pub eq_of_parts : (a b : ℤ) → pos_part a + neg_part b ≡ pos_part b + neg_part a → a ≡ b
eq_of_parts a b h = ground arith

pub one_sided : (a : ℤ) → (pos_part a ≡ 0) ⊎ (neg_part a ≡ 0)
one_sided a = ground arith

pub ruleset int_laws = (arith, +ℤ_parts, -ℤ_parts, eq_of_parts, one_sided)

-- A value that fits in 64 bits is kept.
pub wrap64_of_InRange : (a : ℤ) → InRange a → wrap64 a ≡ a
unfolding wrap64
wrap64_of_InRange (pos n) h = ground arith
wrap64_of_InRange (negsuc n) h = ground arith

-- Whatever was computed, the machine holds a value of 64 bits.
pub wrap64-InRange : (a : ℤ) → InRange (wrap64 a)
unfolding wrap64
wrap64-InRange (pos n) = ground arith
wrap64-InRange (negsuc n) = ground arith

pub +64_exact : (a b : ℤ) → InRange (a +ℤ b) → a +64 b ≡ a +ℤ b
unfolding ◌+64◌
+64_exact a b h = wrap64_of_InRange (a +ℤ b) h

pub -64_exact : (a b : ℤ) → InRange (a -ℤ b) → a -64 b ≡ a -ℤ b
unfolding ◌-64◌
-64_exact a b h = wrap64_of_InRange (a -ℤ b) h

pub eqb_ℤ_iff_eq : (a b : ℤ) → eqb_ℤ a b ≡ true → a ≡ b
eqb_ℤ_iff_eq a b h = ground arith

wrap64_test : pos 9223372036854775807 +64 pos 1 ≡ negsuc 9223372036854775807
unfolding ◌+64◌
wrap64_test = refl
