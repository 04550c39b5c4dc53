-- ===== src/Conditions/Defs.antt =====
-- `SetCondition`, `FindCondition` and `RemoveCondition` (operator/internal/status/conditions.go).
use inferops.Base.{
  List, [], ◌∷◌, ◌≡◌, Bool, true, false, not, ◌&&◌, if◌then◌else◌, Option, none, some, Str, ◌==◌,
  str_eq, ℤ, eqb_ℤ,
}

-- `metav1.Time` of k8s.io/apimachinery: `is_zero` is `IsZero` and `equal` is `Equal`.
pub record Times : Type 1 where
  pub Time : Type 0
  pub is_zero : Time → Bool
  pub equal : Time → Time → Bool
  pub equal_refl : (t : Time) → equal t t ≡ true

pub record Condition (T : Type 0) : Type 0 where
  pub type : Str
  pub status : Str
  pub observed_generation : ℤ
  pub last_transition_time : T
  pub reason : Str
  pub message : Str

-- The loops of `FindCondition` and `RemoveCondition`.
unfoldable pub find_condition : {T : Type 0} → List (Condition T) → Str → Option (Condition T)
find_condition [] type = none
find_condition (c ∷ cs) type = if c.type == type then some c else find_condition cs type

unfoldable pub remove_condition : {T : Type 0} → List (Condition T) → Str → List (Condition T)
remove_condition [] type = []
remove_condition (c ∷ cs) type =
    let rest = remove_condition cs type in if not (c.type == type) then c ∷ rest else rest

module _ (t : Times) where
  open t use {Time, is_zero, equal}

  unfoldable pub conditions_equal : Condition Time → Condition Time → Bool
  conditions_equal a b =
      a.type == b.type
      && a.status == b.status
      && eqb_ℤ a.observed_generation b.observed_generation
      && equal a.last_transition_time b.last_transition_time
      && a.reason == b.reason
      && a.message == b.message

  -- The condition with `metav1.Now()` for a time that is zero.
  abbrev pub stamped : Time → Condition Time → Condition Time
  stamped now condition =
      if is_zero condition.last_transition_time
      then record condition { last_transition_time = now }
      else condition

  -- What replaces a condition of the same type.
  unfoldable pub merged : Time → Condition Time → Condition Time → Condition Time
  merged now old condition =
      if old.status == condition.status
      then record condition { last_transition_time = old.last_transition_time }
      else stamped now condition

  -- The loop, and the append behind it: the list, and whether it changed.
  unfoldable pub set_in :
      Time → Condition Time → List (Condition Time) → List (Condition Time) × Bool
  unfolding merged conditions_equal
  set_in now condition [] = (stamped now condition ∷ [], true)
  set_in now condition (c ∷ cs) =
      let rest = set_in now condition cs in
      let next = merged now c condition in
      if c.type == condition.type
      then (if conditions_equal c next then (c ∷ cs, false) else (next ∷ cs, true))
      else (c ∷ rest.0, rest.1)

  unfoldable pub set_condition :
      Time → List (Condition Time) → ℤ → Condition Time → List (Condition Time) × Bool
  unfolding set_in
  set_condition now conditions observed_generation condition =
      set_in now (record condition { observed_generation = observed_generation }) conditions
