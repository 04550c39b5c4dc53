-- ===== src/Lifecycle/Target/Laws.antt =====
-- The deployment that makes room (operator/controllers/modeldeployment_lifecycle_transitions.go).
use inferops.Base.{
  List, [], ◌∷◌, ◌≡◌, ◌≢◌, ap, ◌⊎◌, inl, inr, true, false, not, ◌||◌, some, str_lt_asym,
  str_lt_neg_trans, str_lt_total, str_lt_irrefl, str_beq_iff, keep, In, In-keep, keep-In, sort_by,
  sort_by-head, sort_by-nil, StrictWeak, lex, IsTie, lex-StrictWeak, pos, ◌<ℤ◌, Bool-cases,
  List-cases, arith,
}
use inferops.Api.Spec.{WhenFull, desired_active}
use inferops.Api.Status.{phase_active}
use inferops.Lifecycle.Effective.{
  effective_desired_state, effective_when_full, is_lowest_priority, gpu_resource_name,
  effective_gpu_reservation,
}
use inferops.Lifecycle.Status.{Clock}
use inferops.Lifecycle.Target.{
  Deployment, active_since, is_candidate, same_priority, less_priority, same_age, less_age,
  same_namespace, less_namespace, less_name, older, comes_first, select_replacement_target,
  first_of,
}

-- `Before` orders the times, and times that it does not order are `Equal`.
pub record ClockOrder (clock : Clock) : Type 0 where
  pub before_asym : (a b : clock.times.Time) → clock.before a b ≡ true → clock.before b a ≡ false
  pub before_neg_trans :
      (a b c : clock.times.Time)
      → clock.before b a ≡ false
      → clock.before c b ≡ false
      → clock.before c a ≡ false
  pub equal_tie :
      (a b : clock.times.Time) → clock.times.equal a b ≡ not (clock.before a b || clock.before b a)

In-ne_nil : {A : Type 0} (x : A) {xs : List A} → In x xs → xs ≢ []
In-ne_nil x {xs = []} m e = m
In-ne_nil x {xs = y ∷ ys} m e = cc

module _ (clock : Clock) (order : ClockOrder clock) where
  priority_tie : IsTie (same_priority clock) (less_priority clock) (older clock)
  priority_tie a b = ground arith

  priority-StrictWeak : StrictWeak (less_priority clock)
  priority-StrictWeak = record {
    asym = λ a b h. ground (arith, h);
    neg_trans = λ a b c h k. ground (arith, h, k);
  }

  age_tie :
      IsTie
        (same_age clock)
        (less_age clock)
        (lex (same_namespace clock) (less_namespace clock) (less_name clock))
  unfolding same_age less_age
  age_tie a b = order.equal_tie (active_since clock a) (active_since clock b)

  age-StrictWeak : StrictWeak (less_age clock)
  unfolding less_age
  age-StrictWeak = record {
    asym = λ a b. order.before_asym (active_since clock a) (active_since clock b);
    neg_trans = λ a b c.
        order.before_neg_trans (active_since clock a) (active_since clock b) (active_since clock c);
  }

  namespace_tie : IsTie (same_namespace clock) (less_namespace clock) (less_name clock)
  namespace_tie a b = ground (
    arith,
    str_lt_total a.namespace b.namespace,
    str_lt_irrefl a.namespace,
    str_beq_iff a.namespace b.namespace,
  )

  namespace-StrictWeak : StrictWeak (less_namespace clock)
  namespace-StrictWeak = record {
    asym = λ a b. str_lt_asym a.namespace b.namespace;
    neg_trans = λ a b c. str_lt_neg_trans a.namespace b.namespace c.namespace;
  }

  name-StrictWeak : StrictWeak (less_name clock)
  name-StrictWeak = record {
    asym = λ a b. str_lt_asym a.name b.name;
    neg_trans = λ a b c. str_lt_neg_trans a.name b.name c.name;
  }

  older-StrictWeak : StrictWeak (older clock)
  unfolding older
  older-StrictWeak =
      lex-StrictWeak (same_age clock) (less_age clock)
        (lex (same_namespace clock) (less_namespace clock) (less_name clock)) age_tie age-StrictWeak
        (lex-StrictWeak (same_namespace clock) (less_namespace clock) (less_name clock)
          namespace_tie namespace-StrictWeak name-StrictWeak)

  comes_first-StrictWeak : (policy : WhenFull) → StrictWeak (comes_first clock policy)
  unfolding comes_first
  comes_first-StrictWeak policy = elim (Bool-cases (is_lowest_priority policy)) [
    | inl e ↦ rw e (
        lex-StrictWeak (same_priority clock) (less_priority clock) (older clock) priority_tie
          priority-StrictWeak older-StrictWeak)
    | inr e ↦ rw e older-StrictWeak
  ]

  -- What the target of a requester is.
  abbrev pub IsEligible : Deployment clock → Deployment clock → Type 0
  IsEligible requester d =
      (d.namespace ≡ requester.namespace)
      × (d.name ≢ requester.name)
      × (effective_desired_state d ≡ desired_active)
      × (d.status.phase ≡ phase_active)
      × (d.status.assigned_node ≡ requester.status.cache.node_name)
      × (gpu_resource_name d ≡ gpu_resource_name requester)
      × (effective_gpu_reservation d ≡ pos 1)
      × ((is_lowest_priority (effective_when_full requester) ≡ false)
          ⊎ (d.spec.activation.priority <ℤ requester.spec.activation.priority))

  is_candidate-IsEligible :
      (requester d : Deployment clock)
      → is_candidate clock requester d ≡ true
      → IsEligible requester d
  unfolding is_candidate
  is_candidate-IsEligible requester d h = ground (
    arith,
    h,
    str_beq_iff d.namespace requester.namespace,
    str_beq_iff d.name requester.name,
    str_beq_iff d.status.assigned_node requester.status.cache.node_name,
    str_beq_iff (gpu_resource_name d) (gpu_resource_name requester),
  )

  -- By priority if the policy says so, and then by age.
  abbrev pub IsAhead : Deployment clock → Deployment clock → Deployment clock → Type 0
  IsAhead requester target d =
      ((is_lowest_priority (effective_when_full requester) ≡ true)
        × (target.spec.activation.priority <ℤ d.spec.activation.priority))
      ⊎ (((is_lowest_priority (effective_when_full requester) ≡ false)
            ⊎ (target.spec.activation.priority ≡ d.spec.activation.priority))
          × (clock.before (active_since clock d) (active_since clock target) ≡ false))

  older-age :
      (d target : Deployment clock)
      → older clock d target ≡ false
      → clock.before (active_since clock d) (active_since clock target) ≡ false
  unfolding older same_age less_age lex
  older-age d target h =
      ground (arith, h, order.equal_tie (active_since clock d) (active_since clock target))

  comes_first-IsAhead :
      (requester target d : Deployment clock)
      → comes_first clock (effective_when_full requester) d target ≡ false
      → IsAhead requester target d
  unfolding comes_first lex
  comes_first-IsAhead requester target d h = ground (arith, h, older-age d target)

  -- As soon as a listed deployment passes the tests, a target is chosen, for times that are ordered.
  -- It is in the list, is an active deployment of the requester's namespace other than the
  -- requester, on the node of the requester's cache, with one GPU of the same resource, and below
  -- the requester's priority under the policy `ReplaceLowestPriority`. That deployment does not
  -- come before it: under this policy it has no lower priority, and otherwise, or at the same
  -- priority, it has not been active for longer.
  pub select_replacement_target-IsAhead :
      (requester d : Deployment clock) (items : List (Deployment clock))
      → In d items
      → is_candidate clock requester d ≡ true
      → (target : Deployment clock) × (select_replacement_target clock requester items
          ≡ some target)
        × In target items
        × IsEligible requester target
        × IsAhead requester target d
  unfolding select_replacement_target
  select_replacement_target-IsAhead requester d items m h =
      let less = comes_first clock (effective_when_full requester) in
      let kept = keep (is_candidate clock requester) items in
      let here : In d kept = keep-In (is_candidate clock requester) items m h in
      elim (List-cases (sort_by less kept)) [
        | inl e ↦ absurd (In-ne_nil d here (sort_by-nil less kept e))
        | inr (target, rest, e) ↦
            let (found, ahead) =
              sort_by-head less (comes_first-StrictWeak (effective_when_full requester)) target rest
                kept e in
            let (listed, eligible) = In-keep (is_candidate clock requester) items found in
            (
              target,
              ap first_of e,
              listed,
              is_candidate-IsEligible requester target eligible,
              comes_first-IsAhead requester target d (ahead d here),
            )
      ]
