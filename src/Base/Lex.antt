-- ===== src/Base/Lex.antt =====
-- `if l.key != r.key { return l.key < r.key }` in front of another comparison.
use mathlib.Core.Path.{◌≡◌}
use mathlib.Core.Bool.{Bool, true, false, not, ◌||◌}
use native.Mathlib.Omega.{arith}
use inferops.Base.Tests.{if◌then◌else◌}
use inferops.Base.Sort.{StrictWeak}

module _ {A : Type 0} (same less next : A → A → Bool) where
  unfoldable pub lex : A → A → Bool
  lex a b = if not (same a b) then less a b else next a b

  -- `same` holds where `less` has no preference.
  abbrev pub IsTie : Type 0
  IsTie = (a b : A) → same a b ≡ not (less a b || less b a)

  module _ (tie : IsTie) (first : StrictWeak less) (second : StrictWeak next) where
    lex_asym : (a b : A) → lex a b ≡ true → lex b a ≡ false
    unfolding lex
    lex_asym a b h =
        ground (arith, h, tie a b, tie b a, first.asym a b, first.asym b a, second.asym a b)

    lex_neg_trans : (a b c : A) → lex b a ≡ false → lex c b ≡ false → lex c a ≡ false
    unfolding lex
    lex_neg_trans a b c h k = ground (
      arith,
      h,
      k,
      tie b a,
      tie c b,
      tie c a,
      first.neg_trans a b c,
      first.neg_trans b c a,
      first.neg_trans c a b,
      first.neg_trans c b a,
      first.neg_trans b a c,
      first.neg_trans a c b,
      second.neg_trans a b c,
    )

    pub lex-StrictWeak : StrictWeak lex
    lex-StrictWeak = record { asym = lex_asym; neg_trans = lex_neg_trans }
