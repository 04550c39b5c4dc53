-- ===== src/Routing/Select/Balance/Rounds.antt =====
-- What one call of `weightedBackendLocked` does to the scores (gateway/internal/routing/router.go).
use inferops.Base.{
  ℕ, ◌+◌, ◌<◌, List, [], ◌∷◌, ◌≡◌, ◌≢◌, refl, sym, ◌∙◌, ◌⊎◌, inl, inr, ◌==◌, str_eq, pair_eq,
  pair_beq_iff, In, All, All-In, ap, arith, if◌then◌else◌, insert, lookup-insert, ℤ, pos, pos_part,
  ◌+64◌, ◌≤ℤ◌, ◌<ℤ◌, int64_half, +64_exact, int_laws, ltb_ℤ,
}
use inferops.Routing.Types.{Backend, BackendKey, identity, effective_weight}
use inferops.Routing.Registry.Defs.{Scores}
use inferops.Routing.Registry.Weighted.{score_of, add_weights, highest}

-- No two candidates have the same namespace and name.
abbrev pub HasDistinct : List Backend → Type 0
HasDistinct [] = Unit
HasDistinct (c ∷ cs) = All (λ d. identity d ≢ identity c) cs × HasDistinct cs

abbrev pub IsPositive : Backend → Type 0
IsPositive c = pos 0 <ℤ effective_weight c

abbrev pub weight_of : Backend → ℕ
weight_of c = pos_part (effective_weight c)

abbrev pub sum_over : (Backend → ℕ) → List Backend → ℕ
sum_over f [] = 0
sum_over f (c ∷ cs) = f c + sum_over f cs

score_of-insert :
    (k j : BackendKey) (v : ℤ) (scores : Scores)
    → score_of j (insert k v scores) ≡ (if k == j then v else score_of j scores)
score_of-insert k j v scores = ground (arith, lookup-insert k j v scores)

pub score_of-insert_self :
    (k : BackendKey) (v : ℤ) (scores : Scores) → score_of k (insert k v scores) ≡ v
score_of-insert_self k v scores = ground (arith, score_of-insert k k v scores, pair_beq_iff k k)

pub score_of-insert_ne :
    (k j : BackendKey) (v : ℤ) (scores : Scores)
    → k ≢ j
    → score_of j (insert k v scores) ≡ score_of j scores
score_of-insert_ne k j v scores n = ground (arith, score_of-insert k j v scores, pair_beq_iff k j)

add_weights-other :
    (key : BackendKey) (scores : Scores) (total : ℤ) (cs : List Backend)
    → All (λ d. identity d ≢ key) cs
    → score_of key (add_weights scores total cs).0 ≡ score_of key scores
unfolding add_weights
add_weights-other key scores total [] h = refl
add_weights-other key scores total (c ∷ cs) (n, h) =
    add_weights-other key
      (insert (identity c) (score_of (identity c) scores +64 effective_weight c) scores)
      (total +64 effective_weight c) cs h
    ∙ score_of-insert_ne (identity c) key (score_of (identity c) scores +64 effective_weight c)
        scores n

-- Every candidate's score grows by its weight.
pub add_weights-member :
    (c : Backend) (scores : Scores) (total : ℤ) (cs : List Backend)
    → HasDistinct cs
    → In c cs
    → score_of (identity c) (add_weights scores total cs).0
      ≡ score_of (identity c) scores +64 effective_weight c
unfolding add_weights
add_weights-member c scores total [] d m = elim m [ ]
add_weights-member c scores total (b ∷ cs) (n, d) (inl e) = rw e (
    add_weights-other (identity b)
      (insert (identity b) (score_of (identity b) scores +64 effective_weight b) scores)
      (total +64 effective_weight b) cs n
    ∙ score_of-insert_self (identity b) (score_of (identity b) scores +64 effective_weight b)
        scores)
add_weights-member c scores total (b ∷ cs) (n, d) (inr m) =
    let ne : identity b ≢ identity c = λ e. All-In (λ x. identity x ≢ identity b) cs n m (sym e) in
    add_weights-member c
      (insert (identity b) (score_of (identity b) scores +64 effective_weight b) scores)
      (total +64 effective_weight b) cs d m
    ∙ (rw
        (score_of-insert_ne (identity b) (identity c)
          (score_of (identity b) scores +64 effective_weight b) scores ne)
        refl)

add_pos :
    (n : ℕ) (w : ℤ) → pos 0 <ℤ w → n + pos_part w < int64_half → pos n +64 w ≡ pos (n + pos_part w)
add_pos n w p b = +64_exact (pos n) w (omega int_laws) ∙ omega int_laws

-- The second result is the exact sum of the weights, as long as that fits in 64 bits.
pub add_weights-total :
    (scores : Scores) (n : ℕ) (cs : List Backend)
    → All IsPositive cs
    → n + sum_over weight_of cs < int64_half
    → (add_weights scores (pos n) cs).1 ≡ pos (n + sum_over weight_of cs)
unfolding add_weights
add_weights-total scores n [] h b = ground arith
add_weights-total scores n (c ∷ cs) (p, h) b =
    let scores' =
      insert (identity c) (score_of (identity c) scores +64 effective_weight c) scores in
    ap (λ t. (add_weights scores' t cs).1) (add_pos n (effective_weight c) p (omega arith))
    ∙ (add_weights-total scores' (n + weight_of c) cs h (omega arith) ∙ ap pos (omega arith))

-- A member of the list whose score no member's is above.
abbrev pub IsTop : Scores → Backend → List Backend → Type 0
IsTop scores top cs =
    In top cs × All (λ c. score_of (identity c) scores ≤ℤ score_of (identity top) scores) cs

higher : Scores → Backend → Backend → Backend
higher scores a b =
    if ltb_ℤ (score_of (identity a) scores) (score_of (identity b) scores) then b else a

higher-cases :
    (scores : Scores) (a b : Backend)
    → ((higher scores a b ≡ b) × (score_of (identity a) scores ≤ℤ score_of (identity b) scores))
      ⊎ ((higher scores a b ≡ a) × (score_of (identity b) scores ≤ℤ score_of (identity a) scores))
unfolding higher
higher-cases scores a b = ground arith

IsTop-cons :
    (scores : Scores) (w a b top : Backend) (cs : List Backend)
    → ((w ≡ b) × (score_of (identity a) scores ≤ℤ score_of (identity b) scores))
      ⊎ ((w ≡ a) × (score_of (identity b) scores ≤ℤ score_of (identity a) scores))
    → IsTop scores top (w ∷ cs)
    → IsTop scores top (a ∷ b ∷ cs)
IsTop-cons scores w a b top cs (inl (e, le)) (m, (h, r)) =
    let h' : score_of (identity b) scores ≤ℤ score_of (identity top) scores = rw e at h in
    (inr (rw e at m), (omega arith, (h', r)))
IsTop-cons scores w a b top cs (inr (e, le)) (m, (h, r)) =
    let h' : score_of (identity a) scores ≤ℤ score_of (identity top) scores = rw e at h in
    (widen (rw e at m), (h', (omega arith, r)))
  where
    widen : In top (a ∷ cs) → In top (a ∷ b ∷ cs)
    widen (inl x) = inl x
    widen (inr x) = inr (inr x)

-- The choice is a candidate, and no candidate's score is above its score.
pub highest-IsTop :
    (scores : Scores) (first : Backend) (others : List Backend)
    → IsTop scores (highest scores first others) (first ∷ others)
unfolding highest higher
highest-IsTop scores first [] = (inl refl, (omega arith, tt))
highest-IsTop scores first (c ∷ cs) =
    IsTop-cons scores (higher scores first c) first c (highest scores (higher scores first c) cs) cs
      (higher-cases scores first c) (highest-IsTop scores (higher scores first c) cs)

sum_over-same :
    (f g : Backend → ℕ) (cs : List Backend)
    → ((c : Backend) → In c cs → g c ≡ f c)
    → sum_over g cs ≡ sum_over f cs
sum_over-same f g [] k = refl
sum_over-same f g (c ∷ cs) k =
    omega (arith, k c (inl refl), sum_over-same f g cs (λ d m. k d (inr m)))

-- Two sums differ by what one member's terms differ by.
pub sum_over-update :
    (f g : Backend → ℕ) (h : Backend) (cs : List Backend)
    → HasDistinct cs
    → In h cs
    → ((c : Backend) → In c cs → identity c ≢ identity h → g c ≡ f c)
    → sum_over g cs + f h ≡ sum_over f cs + g h
sum_over-update f g h [] d m k = elim m [ ]
sum_over-update f g h (c ∷ cs) (n, d) (inl e) k =
    let rest =
      sum_over-same f g cs
        (λ x m. k x (inr m) (rw e (All-In (λ y. identity y ≢ identity c) cs n m))) in
    rw e (omega (arith, rest))
sum_over-update f g h (c ∷ cs) (n, d) (inr m) k =
    let other : identity c ≢ identity h =
      λ e. All-In (λ y. identity y ≢ identity c) cs n m (sym e) in
    omega (arith, k c (inl refl) other, sum_over-update f g h cs d m (λ x i ne. k x (inr i) ne))
