-- ===== src/Base/Assoc.antt =====
-- Go maps as association lists: a write replaces the entry of its key, or adds one at the end.
use mathlib.Core.Path.{◌≡◌, refl, sym}
use mathlib.Core.Logic.{◌⊎◌, inl, inr}
use mathlib.Core.Option.{Option, none, some}
use mathlib.Core.List.{List, [], ◌∷◌}
use native.Mathlib.Omega.{arith}
use inferops.Base.Tests.{Eq, ◌==◌, if◌then◌else◌, Bool-cases, ==_refl}
use inferops.Base.Lists.{In}

-- What Go reads at a missing key: the zero value of the type.
abbrev pub or_zero {ℓ} : {V : Type ℓ} → V → Option V → V
or_zero z none = z
or_zero z (some v) = v

module _ {ℓ} {K : Type 0} {V : Type ℓ} ⦃e : Eq K⦄ where
  unfoldable pub lookup : K → List (K × V) → Option V
  lookup key [] = none
  lookup key ((first, value) ∷ more) = if first == key then some value else lookup key more

  unfoldable pub insert : K → V → List (K × V) → List (K × V)
  insert key value [] = (key, value) ∷ []
  insert key value ((first, old) ∷ more) =
      if first == key then (key, value) ∷ more else (first, old) ∷ insert key value more

  unfoldable pub delete : K → List (K × V) → List (K × V)
  delete k [] = []
  delete k ((j, w) ∷ m) = if j == k then delete k m else (j, w) ∷ delete k m

  pub lookup-insert :
      (written key : K) (value : V) (m : List (K × V))
      → lookup key (insert written value m) ≡ (if written == key then some value else lookup key m)
  unfolding lookup insert
  lookup-insert written key value [] = refl
  lookup-insert written key value ((i, w) ∷ m) = ground (
    arith,
    e.beq_iff written key,
    e.beq_iff i written,
    e.beq_iff i key,
    lookup-insert written key value m,
  )

  pub lookup-delete :
      (k j : K) (m : List (K × V)) → lookup j (delete k m) ≡ (if k == j then none else lookup j m)
  unfolding lookup delete
  lookup-delete k j [] = ground arith
  lookup-delete k j ((i, w) ∷ m) =
      ground (arith, e.beq_iff k j, e.beq_iff i k, e.beq_iff i j, lookup-delete k j m)

module _ {K : Type 0} {V : Type 0} ⦃e : Eq K⦄ where
  abbrev pub keys : List (K × V) → List K
  keys [] = []
  keys ((k, v) ∷ m) = k ∷ keys m

  pub In-keys-insert :
      (k j : K) (v : V) (m : List (K × V)) → In j (keys (insert k v m)) → (j ≡ k) ⊎ In j (keys m)
  unfolding insert
  In-keys-insert k j v [] h = ground arith
  In-keys-insert k j v ((i, w) ∷ m) h = ground (arith, e.beq_iff i k, In-keys-insert k j v m)

  pub lookup-In-keys : (k : K) (v : V) (m : List (K × V)) → lookup k m ≡ some v → In k (keys m)
  unfolding lookup
  lookup-In-keys k v [] h = cc
  lookup-In-keys k v ((j, w) ∷ m) h = elim (Bool-cases (j == k)) [
    | inl same ↦ inl (sym ((e.beq_iff j k).0 same))
    | inr other ↦ inr (lookup-In-keys k v m (rw (other, lookup) at h))
  ]

  pub In-keys-lookup : (k : K) (m : List (K × V)) → In k (keys m) → (v : V) × (lookup k m ≡ some v)
  unfolding lookup
  In-keys-lookup k [] h = elim h [ ]
  In-keys-lookup k ((j, w) ∷ m) (inl p) = (w, rw (← p) (rw (==_refl k) refl))
  In-keys-lookup k ((j, w) ∷ m) (inr h) = elim (Bool-cases (j == k)) [
    | inl same ↦ (w, rw same refl)
    | inr other ↦ rw other (In-keys-lookup k m h)
  ]
