-- ===== src/Routing/Select/Balance/Bounds.antt =====
-- The scores of a route's ready candidates stay between bounds, and none of them starves
-- (gateway/internal/routing/router.go, `weightedBackendLocked`).
use inferops.Base.{
  ℕ, ◌+◌, ◌*◌, ◌≤◌, ◌<◌, List, [], ◌∷◌, ◌≡◌, ◌≢◌, refl, sym, ◌∙◌, ap, false, inl, inr, ◌==◌, str_eq,
  pair_eq, In, All, All-In, All-of_In, arith, length, ℤ, pos, pos_part, neg_part, ◌+64◌, ◌-64◌,
  ◌≤ℤ◌, ◌<ℤ◌, int64_half, +64_exact, -64_exact, int_laws, Bool-cases, ltb, ltb→lt, pair_beq_iff,
  All-imp,
}
use inferops.Routing.Types.{Backend, identity, effective_weight}
use inferops.Routing.Registry.Defs.{Scores}
use inferops.Routing.Registry.Weighted.{score_of, add_weights, highest, weighted_pick}
use inferops.Routing.Select.Balance.Rounds.{
  HasDistinct, IsPositive, weight_of, sum_over, score_of-insert_self, score_of-insert_ne,
  add_weights-member, add_weights-total, IsTop, highest-IsTop, sum_over-update,
}

-- The candidates of a route that compete by weight.
module _ (first : Backend) (others : List Backend) where
  abbrev pub candidates : List Backend
  candidates = first ∷ others

  abbrev pub total_weight : ℕ
  total_weight = sum_over weight_of candidates

  -- Distinct candidates of positive weight, few and light enough for 64 bits.
  pub record IsContest : Type 0 where
    pub distinct : HasDistinct candidates
    pub positive : All IsPositive candidates
    pub light : length candidates * total_weight + total_weight < int64_half

  module _ (scores : Scores) where
    abbrev pub above : Backend → ℕ
    above c = pos_part (score_of (identity c) scores)

    abbrev pub below : Backend → ℕ
    below c = neg_part (score_of (identity c) scores)

    -- The scores sum up to zero, and each is above minus the total weight.
    pub record IsFair : Type 0 where
      pub balanced : sum_over above candidates ≡ sum_over below candidates
      pub low : All (λ c. below c < total_weight) candidates

sum_over-ge : (f : Backend → ℕ) (c : Backend) (cs : List Backend) → In c cs → f c ≤ sum_over f cs
sum_over-ge f c [] m = elim m [ ]
sum_over-ge f c (b ∷ cs) (inl e) = rw e (omega arith)
sum_over-ge f c (b ∷ cs) (inr m) = omega (arith, sum_over-ge f c cs m)

sum_over-le :
    (f : Backend → ℕ) (w : ℕ) (cs : List Backend)
    → All (λ c. f c < w) cs
    → sum_over f cs ≤ length cs * w
sum_over-le f w [] h = omega arith
sum_over-le f w (c ∷ cs) (p, h) = let ih = sum_over-le f w cs h in grind arith

module _ (first : Backend) (others : List Backend) (scores : Scores) where
  -- In a fair state no score is above the number of candidates times the total weight.
  pub IsFair-upper :
      (c : Backend)
      → IsFair first others scores
      → In c (first ∷ others)
      → above first others scores c ≤ length (first ∷ others) * total_weight first others
  IsFair-upper c f m = omega (
    arith,
    sum_over-ge (above first others scores) c (first ∷ others) m,
    sum_over-le (below first others scores) (total_weight first others) (first ∷ others) f.low,
    f.balanced,
  )

pub sum_over-zero :
    (f : Backend → ℕ) (cs : List Backend) → All (λ c. f c ≡ 0) cs → sum_over f cs ≡ 0
sum_over-zero f [] h = refl
sum_over-zero f (c ∷ cs) (p, h) = omega (arith, sum_over-zero f cs h)

sum_over-parts :
    (f g w f' g' : Backend → ℕ) (cs : List Backend)
    → All (λ c. f' c + g c ≡ g' c + f c + w c) cs
    → sum_over f' cs + sum_over g cs ≡ sum_over g' cs + sum_over f cs + sum_over w cs
sum_over-parts f g w f' g' [] h = refl
sum_over-parts f g w f' g' (c ∷ cs) (p, h) = omega (arith, sum_over-parts f g w f' g' cs h)

add-parts :
    (s w : ℤ) (most total : ℕ)
    → pos_part s ≤ most
    → neg_part s < total
    → pos_part w ≤ total
    → pos 0 <ℤ w
    → most + total < int64_half
    → (pos_part (s +64 w) + neg_part s ≡ neg_part (s +64 w) + pos_part s + pos_part w)
      × (neg_part (s +64 w) ≤ neg_part s)
      × (pos_part (s +64 w) ≤ most + total)
add-parts s w most total a b c p h =
    rw (+64_exact s w (omega int_laws)) (omega int_laws, omega int_laws, omega int_laws)

take-parts :
    (s : ℤ) (most total : ℕ)
    → 0 < pos_part s
    → pos_part s ≤ most
    → 0 < total
    → most < int64_half
    → total ≤ most
    → (pos_part (s -64 pos total) + neg_part s + total ≡ neg_part (s -64 pos total) + pos_part s)
      × (neg_part (s -64 pos total) < total)
take-parts s most total p a t h le =
    rw (-64_exact s (pos total) (omega int_laws)) (omega int_laws, omega int_laws)

light-total : (n t : ℕ) → n * t + t < int64_half → 0 + t < int64_half
light-total n t h = omega arith

no_higher : (a b : ℤ) → ltb 0 (pos_part b) ≡ false → a ≤ℤ b → pos_part a ≡ 0
no_higher a b f le = ground arith

module _ (first : Backend) (others : List Backend) (contest : IsContest first others)
    (scores : Scores) (fair : IsFair first others scores) where
  abbrev pub cs : List Backend
  cs = first ∷ others

  abbrev pub total : ℕ
  total = total_weight first others

  abbrev pub added : Scores
  added = (add_weights scores (pos 0) cs).0

  abbrev pub chosen : Backend
  chosen = highest added first others

  abbrev pub after : Scores
  after = (weighted_pick scores first others).1

  weight-le : (c : Backend) → In c cs → weight_of c ≤ total
  weight-le c m = sum_over-ge weight_of c cs m

  weight_positive : (c : Backend) → In c cs → pos 0 <ℤ effective_weight c
  weight_positive c m = All-In IsPositive cs contest.positive m

  total_positive : 0 < total
  total_positive = omega (arith, weight_positive first (inl refl))

  -- Adding the weights is exact.
  pub added-parts :
      (c : Backend)
      → In c cs
      → (above first others added c + below first others scores c
          ≡ below first others added c + above first others scores c + weight_of c)
        × (below first others added c ≤ below first others scores c)
        × (above first others added c ≤ length cs * total + total)
  added-parts c m = rw (add_weights-member c scores (pos 0) cs contest.distinct m) (
      add-parts (score_of (identity c) scores) (effective_weight c) (length cs * total) total
        (IsFair-upper first others scores c fair m)
        (All-In (λ x. below first others scores x < total) cs fair.low m) (weight-le c m)
        (weight_positive c m) contest.light)

  total-exact : (add_weights scores (pos 0) cs).1 ≡ pos total
  total-exact =
      add_weights-total scores 0 cs contest.positive (light-total (length cs) total contest.light)
      ∙ ap pos (omega arith)

  sums : sum_over (above first others added) cs ≡ sum_over (below first others added) cs + total
  sums = omega (
    arith,
    fair.balanced,
    sum_over-parts (above first others scores) (below first others scores) weight_of
        (above first others added) (below first others added) cs
        (All-of_In _ cs (λ c m. (added-parts c m).0)),
  )

  top : IsTop added chosen cs
  top = highest-IsTop added first others

  chosen_positive : 0 < above first others added chosen
  chosen_positive = elim (Bool-cases (ltb 0 (above first others added chosen))) [
    | inl t ↦ ltb→lt 0 (above first others added chosen) t
    | inr f ↦
        let none_above = sum_over-zero (above first others added) cs (
          All-imp _ (λ c. above first others added c ≡ 0) cs
            (λ c le.
              no_higher (score_of (identity c) added) (score_of (identity chosen) added) f le)
            top.1) in
        absurd (omega (arith, sums, none_above, total_positive))
  ]

  after-chosen :
      (above first others after chosen + below first others added chosen + total
        ≡ below first others after chosen + above first others added chosen)
      × (below first others after chosen < total)
  unfolding weighted_pick
  after-chosen =
      rw
        (
          score_of-insert_self (identity chosen)
              (score_of (identity chosen) added -64 (add_weights scores (pos 0) cs).1) added,
          total-exact,
        )
        (take-parts (score_of (identity chosen) added) (length cs * total + total) total
          chosen_positive (added-parts chosen top.0).2 total_positive contest.light (omega arith))

  pub after-other :
      (c : Backend)
      → identity c ≢ identity chosen
      → score_of (identity c) after ≡ score_of (identity c) added
  unfolding weighted_pick
  after-other c n =
      score_of-insert_ne (identity chosen) (identity c)
        (score_of (identity chosen) added -64 (add_weights scores (pos 0) cs).1) added
        (λ e. n (sym e))

  after-low : (c : Backend) → In c cs → below first others after c < total
  after-low c m = elim (Bool-cases (identity c == identity chosen)) [
    | inl same ↦
        let e : identity c ≡ identity chosen =
          (pair_beq_iff (identity c) (identity chosen)).0 same in
        rw e after-chosen.1
    | inr other ↦
        rw
          (after-other c
            (λ e. ground (arith, other, (pair_beq_iff (identity c) (identity chosen)).1 e)))
          (omega (
            arith,
            (added-parts c m).1,
            All-In (λ x. below first others scores x < total) cs fair.low m,
          ))
  ]

  -- A pick in a fair contest leaves it fair.
  pub weighted_pick-IsFair : IsFair first others after
  weighted_pick-IsFair = record {
    balanced = omega (
      arith,
      sums,
      after-chosen.0,
      sum_over-update (above first others added) (above first others after) chosen cs
          contest.distinct top.0 (λ c m n. ap pos_part (after-other c n)),
      sum_over-update (below first others added) (below first others after) chosen cs
          contest.distinct top.0 (λ c m n. ap neg_part (after-other c n)),
    );
    low = All-of_In _ cs after-low;
  }
