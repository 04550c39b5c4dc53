-- ===== src/Scheduler/Gpu/Scan.antt =====
-- One node, and the loop over the nodes (operator/internal/scheduler/gpu.go, `Plan`).
use inferops.Base.{
  List, [], ◌∷◌, ◌≡◌, ◌≢◌, refl, ◌∙◌, true, false, ◌⊎◌, inl, inr, some, Str, ◌==◌, str_eq,
  str_beq_iff, lookup, or_zero, arith, In, ℤ, pos, ◌-64◌, ◌≤ℤ◌, ◌<ℤ◌, Option-cases,
}
use inferops.Kube.{Quantities, Node}
use inferops.Scheduler.Nodes.{is_node_eligible_for_cache, node_matches_selector}
use inferops.Scheduler.Gpu.Defs.{
  GpuRequest, GpuPlanner, Candidate, Verdict, incompatible, full, fits, verdict, scan,
}

Verdict-cases : (v : Verdict) → (v ≡ incompatible) ⊎ ((v ≡ full) ⊎ ((c : Candidate) × (v ≡ fits c)))
Verdict-cases incompatible = inl refl
Verdict-cases full = inr (inl refl)
Verdict-cases (fits c) = inr (inr (c, refl))

module _ (q : Quantities) (p : GpuPlanner) (request : GpuRequest) where
  open q use {Quantity, sign, value}

  -- A Ready schedulable node with the planner's labels and the requested type, which advertises a
  -- positive quantity of the requested resource.
  pub record IsCompatible (node : Node Quantity) (quantity : Quantity) : Type 0 where
    pub eligible : is_node_eligible_for_cache node ≡ true
    pub selected : node_matches_selector node p.node_selector ≡ true
    pub typed :
        (request.type ≡ []) ⊎ (or_zero [] (lookup p.gpu_type_label node.labels) ≡ request.type)
    pub advertised : lookup request.resource_name node.allocatable ≡ some quantity
    pub positive : pos 0 <ℤ sign quantity

  module _ (occupied : List (Str × ℤ)) where
    abbrev pub used : Node Quantity → ℤ
    used node = or_zero (pos 0) (lookup node.name occupied)

    -- What the planner records of a node that it can use.
    abbrev pub candidate_of : Node Quantity → Quantity → Candidate
    candidate_of node quantity = record {
      placement = record {
        node_name = node.name;
        total = value quantity;
        occupied = used node;
        available = value quantity -64 used node;
      };
      preferred = node.name == request.preferred_node;
    }

    abbrev pub HasRoom : Node Quantity → Quantity → Type 0
    HasRoom node quantity = request.count ≤ℤ value quantity -64 used node

    pub verdict_of_IsCompatible :
        (node : Node Quantity) (quantity : Quantity)
        → IsCompatible node quantity
        → (HasRoom node quantity
            × (verdict q p request occupied node ≡ fits (candidate_of node quantity)))
          ⊎ ((¬ HasRoom node quantity) × (verdict q p request occupied node ≡ full))
    unfolding verdict
    verdict_of_IsCompatible node quantity c =
        ground
          (arith, c, str_beq_iff (or_zero [] (lookup p.gpu_type_label node.labels)) request.type)

    pub IsCompatible-of_verdict :
        (node : Node Quantity)
        → verdict q p request occupied node ≢ incompatible
        → (quantity : Quantity) × IsCompatible node quantity
    unfolding verdict
    IsCompatible-of_verdict node h =
        let typed = str_beq_iff (or_zero [] (lookup p.gpu_type_label node.labels)) request.type in
        elim (Option-cases (lookup request.resource_name node.allocatable)) [
          | inl missing ↦ absurd (ground (arith, missing))
          | inr (quantity, found) ↦ (
            quantity,
            record {
              eligible = ground arith;
              selected = ground arith;
              typed = ground (arith, typed);
              advertised = found;
              positive = ground (arith, found);
            },
          )
        ]

    abbrev pub Found : Candidate → List (Node Quantity) → Type 0
    Found c nodes =
        (node : Node Quantity) × (quantity : Quantity) × In node nodes
        × IsCompatible node quantity
        × HasRoom node quantity
        × (c ≡ candidate_of node quantity)

    later :
        (c : Candidate) (n : Node Quantity) (nodes : List (Node Quantity))
        → Found c nodes
        → Found c (n ∷ nodes)
    later c n nodes (node, quantity, m, ok, room, e) = (node, quantity, inr m, ok, room, e)

    fits_sound :
        (node : Node Quantity) (c : Candidate)
        → verdict q p request occupied node ≡ fits c
        → (quantity : Quantity) × IsCompatible node quantity
          × HasRoom node quantity
          × (c ≡ candidate_of node quantity)
    fits_sound node c e =
        let (quantity, ok) = IsCompatible-of_verdict node (λ none'. cc) in
        elim (verdict_of_IsCompatible node quantity ok) [
          | inl (room, found) ↦ (quantity, ok, room, cc)
          | inr (_, found) ↦ absurd (ground (arith, found))
        ]

    -- The loop's result: a candidate for each node with room, in the order of the nodes.
    pub In-scan :
        (c : Candidate) (nodes : List (Node Quantity))
        → In c (scan q p request occupied nodes).1
        → Found c nodes
    unfolding scan
    In-scan c [] m = elim m [ ]
    In-scan c (node ∷ nodes) m = elim (Verdict-cases (verdict q p request occupied node)) [
      | inl skipped ↦ later c node nodes (In-scan c nodes (ground arith))
      | inr (inl short) ↦ later c node nodes (In-scan c nodes (ground arith))
      | inr (inr (d, found)) ↦
          let here : (c ≡ d) ⊎ In c (scan q p request occupied nodes).1 = ground arith in
          elim here [
            | inl same ↦
                let (quantity, ok, room, e) = fits_sound node d found in
                (node, quantity, inl refl, ok, room, same ∙ e)
            | inr r ↦ later c node nodes (In-scan c nodes r)
          ]
    ]

    pub scan-In :
        (node : Node Quantity) (quantity : Quantity) (nodes : List (Node Quantity))
        → In node nodes
        → IsCompatible node quantity
        → HasRoom node quantity
        → In (candidate_of node quantity) (scan q p request occupied nodes).1
    unfolding scan
    scan-In node quantity [] m c r = elim m [ ]
    scan-In node quantity (n ∷ nodes) (inl e) c r =
        ground (arith, verdict_of_IsCompatible node quantity c)
    scan-In node quantity (n ∷ nodes) (inr m) c r =
        ground (arith, scan-In node quantity nodes m c r)

    pub incompatible_nodes :
        (nodes : List (Node Quantity))
        → ((node : Node Quantity) (k : Quantity) → In node nodes → ¬ IsCompatible node k)
        → ((scan q p request occupied nodes).0 ≡ false) × ((scan q p request occupied nodes).1 ≡ [])
    unfolding scan
    incompatible_nodes [] h = (refl, refl)
    incompatible_nodes (node ∷ nodes) h =
        let rest = incompatible_nodes nodes (λ n k m. h n k (inr m)) in
        elim (Verdict-cases (verdict q p request occupied node)) [
          | inl skipped ↦ ground arith
          | inr other ↦
              let (k, c) = IsCompatible-of_verdict node (λ s. ground (arith, other)) in
              absurd (h node k (inl refl) c)
        ]

    pub IsCompatible-node :
        (nodes : List (Node Quantity))
        → (scan q p request occupied nodes).0 ≡ true
        → (node : Node Quantity) × (k : Quantity) × In node nodes × IsCompatible node k
    unfolding scan
    IsCompatible-node [] h = cc
    IsCompatible-node (node ∷ nodes) h = elim (Verdict-cases (verdict q p request occupied node)) [
      | inl skipped ↦ let (n, k, m, c) = IsCompatible-node nodes (ground arith) in (n, k, inr m, c)
      | inr other ↦
          let (k, c) = IsCompatible-of_verdict node (λ s. ground (arith, other)) in
          (node, k, inl refl, c)
    ]

    pub scan-compatible :
        (node : Node Quantity) (k : Quantity) (nodes : List (Node Quantity))
        → In node nodes
        → IsCompatible node k
        → (scan q p request occupied nodes).0 ≡ true
    unfolding scan
    scan-compatible node k [] m c = elim m [ ]
    scan-compatible node k (n ∷ nodes) (inl e) c = ground (arith, verdict_of_IsCompatible node k c)
    scan-compatible node k (n ∷ nodes) (inr m) c = ground (arith, scan-compatible node k nodes m c)
