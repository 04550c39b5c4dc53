-- ===== src/Base/Sort.antt =====
-- `sort.SliceStable`, and `sort.Slice` where no two elements are equivalent: a stable insertion
-- sort by a Boolean `less`. A total order has one sorted arrangement, whatever the algorithm.
use mathlib.Core.Path.{◌≡◌, refl}
use mathlib.Core.Logic.{◌⊎◌, inl, inr}
use mathlib.Core.Bool.{Bool, true, false}
use mathlib.Core.List.{List, [], ◌∷◌}
use native.Mathlib.Omega.{arith}
use inferops.Base.Tests.{if◌then◌else◌, Bool-cases}
use inferops.Base.Lists.{In, All, All-In}

module _ {A : Type 0} (less : A → A → Bool) where
  -- Before the first element that does not come ahead of it.
  unfoldable pub insert_by : A → List A → List A
  insert_by x [] = x ∷ []
  insert_by x (y ∷ ys) = let rest = insert_by x ys in if less y x then y ∷ rest else x ∷ y ∷ ys

  unfoldable pub sort_by : List A → List A
  unfolding insert_by
  sort_by [] = []
  sort_by (x ∷ xs) = insert_by x (sort_by xs)

  -- A strict weak order: what the sort needs of `less`.
  pub record StrictWeak : Type 0 where
    pub asym : (a b : A) → less a b ≡ true → less b a ≡ false
    pub neg_trans : (a b c : A) → less b a ≡ false → less c b ≡ false → less c a ≡ false

  -- Nothing that follows an element comes ahead of it.
  abbrev pub IsSorted : List A → Type 0
  IsSorted [] = Unit
  IsSorted (x ∷ xs) = All (λ y. less y x ≡ false) xs × IsSorted xs

  In-insert_by : (x a : A) (ys : List A) → In a (insert_by x ys) → (a ≡ x) ⊎ In a ys
  unfolding insert_by
  In-insert_by x a [] m = m
  In-insert_by x a (y ∷ ys) m = ground (arith, In-insert_by x a ys)

  insert_by-In : (x a : A) (ys : List A) → (a ≡ x) ⊎ In a ys → In a (insert_by x ys)
  unfolding insert_by
  insert_by-In x a [] m = m
  insert_by-In x a (y ∷ ys) m = ground (arith, insert_by-In x a ys)

  pub In-sort_by : (a : A) (xs : List A) → In a (sort_by xs) → In a xs
  unfolding sort_by
  In-sort_by a [] m = m
  In-sort_by a (x ∷ xs) m = elim (In-insert_by x a (sort_by xs) m) [
    | inl p ↦ inl p
    | inr r ↦ inr (In-sort_by a xs r)
  ]

  pub sort_by-In : (a : A) (xs : List A) → In a xs → In a (sort_by xs)
  unfolding sort_by
  sort_by-In a [] m = m
  sort_by-In a (x ∷ xs) (inl p) = insert_by-In x a (sort_by xs) (inl p)
  sort_by-In a (x ∷ xs) (inr m) = insert_by-In x a (sort_by xs) (inr (sort_by-In a xs m))

  All-insert_by : (P : A → Type 0) (x : A) (ys : List A) → P x → All P ys → All P (insert_by x ys)
  unfolding insert_by
  All-insert_by P x [] p h = (p, tt)
  All-insert_by P x (y ∷ ys) p (q, h) = elim (Bool-cases (less y x)) [
    | inl t ↦ rw t (q, All-insert_by P x ys p h)
    | inr f ↦ rw f (p, (q, h))
  ]

  module _ (w : StrictWeak) where
    open w use {asym, neg_trans}

    All-neg_trans :
        (x y : A) (ys : List A)
        → less y x ≡ false
        → All (λ z. less z y ≡ false) ys
        → All (λ z. less z x ≡ false) ys
    All-neg_trans x y [] h k = tt
    All-neg_trans x y (z ∷ zs) h (p, k) = (neg_trans x y z h p, All-neg_trans x y zs h k)

    insert_by-IsSorted : (x : A) (ys : List A) → IsSorted ys → IsSorted (insert_by x ys)
    unfolding insert_by
    insert_by-IsSorted x [] h = (tt, tt)
    insert_by-IsSorted x (y ∷ ys) (p, h) = elim (Bool-cases (less y x)) [
      | inl t ↦
          rw t
            (All-insert_by (λ z. less z y ≡ false) x ys (asym y x t) p, insert_by-IsSorted x ys h)
      | inr f ↦ rw f ((f, All-neg_trans x y ys f p), (p, h))
    ]

    pub sort_by-IsSorted : (xs : List A) → IsSorted (sort_by xs)
    unfolding sort_by
    sort_by-IsSorted [] = tt
    sort_by-IsSorted (x ∷ xs) = insert_by-IsSorted x (sort_by xs) (sort_by-IsSorted xs)

    less_irrefl : (a : A) → less a a ≡ false
    less_irrefl a = elim (Bool-cases (less a a)) [ inl t ↦ asym a a t | inr f ↦ f ]

    -- The head of the sorted list is a member that nothing comes ahead of.
    pub sort_by-head :
        (c : A) (rest cs : List A)
        → sort_by cs ≡ c ∷ rest
        → In c cs × ((d : A) → In d cs → less d c ≡ false)
    sort_by-head c rest cs e =
        let s : IsSorted (c ∷ rest) = rw e at (sort_by-IsSorted cs) in
        (
          In-sort_by c cs (rw e (inl refl)),
          λ d m.
              let here : In d (c ∷ rest) = rw e at (sort_by-In d cs m) in
              elim here [
                | inl same ↦ rw same (less_irrefl c)
                | inr r ↦ All-In (λ y. less y c ≡ false) rest s.0 r
              ],
        )

  pub sort_by-nil : (xs : List A) → sort_by xs ≡ [] → xs ≡ []
  unfolding sort_by insert_by
  sort_by-nil [] e = refl
  sort_by-nil (x ∷ xs) e = absurd (no_nil (sort_by xs) e)
    where
      no_nil : (ys : List A) → insert_by x ys ≡ [] → ⊥
      no_nil [] e = cc
      no_nil (y ∷ ys) e = ground arith
