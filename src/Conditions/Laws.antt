-- ===== src/Conditions/Laws.antt =====
-- What the conditions are after an update (operator/internal/status/conditions.go).
use inferops.Base.{
  List, [], ◌∷◌, ◌≡◌, ◌≢◌, refl, sym, ◌∙◌, ap, inl, inr, true, false, none, some, Str, ◌==◌, str_eq,
  str_beq_iff, ℤ, eqb_ℤ_iff_eq, arith, Bool-cases,
}
use inferops.Conditions.Defs.{
  Times, Condition, find_condition, remove_condition, conditions_equal, merged, set_in,
  set_condition, stamped,
}

module _ (t : Times) (now : t.Time) where
  -- What a condition says, its time left aside.
  abbrev pub SaysSame : Condition t.Time → Condition t.Time → Type 0
  SaysSame a b =
      (a.type ≡ b.type)
      × (a.status ≡ b.status)
      × (a.observed_generation ≡ b.observed_generation)
      × (a.reason ≡ b.reason)
      × (a.message ≡ b.message)

  conditions_equal-SaysSame :
      (a b : Condition t.Time) → conditions_equal t a b ≡ true → SaysSame a b
  unfolding conditions_equal
  conditions_equal-SaysSame a b h = (
    (str_beq_iff a.type b.type).0 (ground arith),
    (str_beq_iff a.status b.status).0 (ground arith),
    eqb_ℤ_iff_eq a.observed_generation b.observed_generation (ground arith),
    (str_beq_iff a.reason b.reason).0 (ground arith),
    (str_beq_iff a.message b.message).0 (ground arith),
  )

  merged-SaysSame : (old c : Condition t.Time) → SaysSame (merged t now old c) c
  unfolding merged
  merged-SaysSame old c = ground arith

  stamped-SaysSame : (c : Condition t.Time) → SaysSame (stamped t now c) c
  stamped-SaysSame c = ground arith

  SaysSame-trans : (a b c : Condition t.Time) → SaysSame a b → SaysSame b c → SaysSame a c
  SaysSame-trans a b c (p, q, r, u, v) (p', q', r', u', v') =
      (p ∙ p', q ∙ q', r ∙ r', u ∙ u', v ∙ v')

  found_head :
      (d c : Condition t.Time) (cs : List (Condition t.Time))
      → d.type ≡ c.type
      → find_condition (d ∷ cs) c.type ≡ some d
  unfolding find_condition
  found_head d c cs e =
      let same : (d.type == c.type) ≡ true = (str_beq_iff d.type c.type).1 e in rw same refl

  missed : (d : Condition t.Time) (type : Str) → d.type ≢ type → find_condition (d ∷ []) type ≡ none
  unfolding find_condition
  missed d type n = ground (arith, str_beq_iff d.type type)

  merged-time :
      (old c : Condition t.Time)
      → old.status ≡ c.status
      → (merged t now old c).last_transition_time ≡ old.last_transition_time
  unfolding merged
  merged-time old c e = ground (arith, str_beq_iff old.status c.status)

  -- After an update the condition of the type says what was given, and keeps the time of the last
  -- transition if the status is the one it had.
  set_in-find :
      (c : Condition t.Time) (cs : List (Condition t.Time))
      → (d : Condition t.Time) × (find_condition (set_in t now c cs).0 c.type ≡ some d)
        × SaysSame d c
        × ((old : Condition t.Time)
            → find_condition cs c.type ≡ some old
            → old.status ≡ c.status
            → d.last_transition_time ≡ old.last_transition_time)
  unfolding set_in find_condition
  set_in-find c [] = (
    stamped t now c,
    found_head (stamped t now c) c [] (stamped-SaysSame c).0,
    stamped-SaysSame c,
    λ old e. cc,
  )
  set_in-find c (o ∷ cs) = elim (Bool-cases (o.type == c.type)) [
    | inl here ↦ elim (Bool-cases (conditions_equal t o (merged t now o c))) [
      | inl same ↦
          rw (here, same)
            (
              o,
              rw here refl,
              SaysSame-trans o (merged t now o c) c
                  (conditions_equal-SaysSame o (merged t now o c) same) (merged-SaysSame o c),
              λ old e s. ground arith,
            )
      | inr other ↦
          rw (here, other)
            (
              merged t now o c,
              found_head (merged t now o c) c cs (merged-SaysSame o c).0,
              merged-SaysSame o c,
              λ old e s.
                  let same : o ≡ old = ground arith in
                  merged-time o c (ap (λ (x : Condition t.Time). x.status) same ∙ s)
                  ∙ ap (λ (x : Condition t.Time). x.last_transition_time) same,
            )
    ]
    | inr f ↦ rw f (let (d, e, s, time) = set_in-find c cs in (d, rw f e, s, time))
  ]

  set_in_other :
      (c : Condition t.Time) (cs : List (Condition t.Time)) (type : Str)
      → type ≢ c.type
      → find_condition (set_in t now c cs).0 type ≡ find_condition cs type
  unfolding set_in find_condition
  set_in_other c [] type n = missed (stamped t now c) type (λ e. n (sym e ∙ (stamped-SaysSame c).0))
  set_in_other c (o ∷ cs) type n = elim (Bool-cases (o.type == c.type)) [
    | inl here ↦
        let o_not : (o.type == type) ≡ false =
          ground (arith, str_beq_iff o.type c.type, str_beq_iff o.type type) in
        let m_not : ((merged t now o c).type == type) ≡ false =
          rw (merged-SaysSame o c).0 (ground (arith, str_beq_iff c.type type)) in
        elim (Bool-cases (conditions_equal t o (merged t now o c))) [
          | inl same ↦ rw (here, same) refl
          | inr other ↦ rw (here, other) (rw (o_not, m_not) refl)
        ]
    | inr f ↦ rw (f, set_in_other c cs type n) refl
  ]

  -- After `SetCondition` the condition of the type says what was given, with the generation, and
  -- keeps the time of its last transition if it had the same status; what is found of any other
  -- type is as before.
  pub set_condition-find :
      (cs : List (Condition t.Time)) (generation : ℤ) (c : Condition t.Time)
      → ((d : Condition t.Time) × (find_condition (set_condition t now cs generation c).0 c.type
            ≡ some d)
          × SaysSame d (record c { observed_generation = generation })
          × ((old : Condition t.Time)
              → find_condition cs c.type ≡ some old
              → old.status ≡ c.status
              → d.last_transition_time ≡ old.last_transition_time))
        × ((type : Str)
            → type ≢ c.type
            → find_condition (set_condition t now cs generation c).0 type ≡ find_condition cs type)
  unfolding set_condition
  set_condition-find cs generation c = (
    set_in-find (record c { observed_generation = generation }) cs,
    λ type n. set_in_other (record c { observed_generation = generation }) cs type n,
  )

-- After `RemoveCondition` no condition of the type is found, and any other is found as before.
find_condition-remove_condition :
    {T : Type 0} (cs : List (Condition T)) (type : Str)
    → (find_condition (remove_condition cs type) type ≡ none)
      × ((other : Str)
          → other ≢ type
          → find_condition (remove_condition cs type) other ≡ find_condition cs other)
unfolding find_condition remove_condition
find_condition-remove_condition [] type = (refl, λ other n. refl)
find_condition-remove_condition (c ∷ cs) type =
    let (gone, kept) = find_condition-remove_condition cs type in
    elim (Bool-cases (c.type == type)) [
      | inl t ↦ rw t (
        gone,
        λ other n.
            let not' : (c.type == other) ≡ false =
              ground (arith, str_beq_iff c.type type, str_beq_iff c.type other) in
            rw (not', kept other n) refl,
      )
      | inr f ↦ rw f (rw (f, gone) refl, λ other n. rw (kept other n) refl)
    ]
