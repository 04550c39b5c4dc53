-- ===== src/Tests/Gpu.antt =====
-- The GPU planner at work.
use inferops.Base.{
  ℕ, List, [], ◌∷◌, ◌≡◌, refl, some, codes, pos, ok, err, arith, inl, inr, In, ◌↔◌, ◌≤ℤ◌, ◌-64◌,
  ◌+ℤ◌, lookup, str_eq,
}
use inferops.Kube.{Node}
use inferops.Scheduler.Nodes.{is_node_eligible_for_cache, node_matches_selector}
use inferops.Scheduler.Gpu.Defs.{
  GpuPlanner, GpuRequest, GpuAllocation, GpuPlacement, plan, snapshot, no_compatible_gpu_node,
  insufficient_gpu_capacity, occupied_from, occupy,
}
use inferops.Scheduler.Gpu.Scan.{IsCompatible, HasRoom}
use inferops.Scheduler.Gpu.Occupied.{reserved_on}
use inferops.Scheduler.Gpu.Laws.{
  IsBest, plan-IsBest, plan_outcome, plan_total, plan-no_oversubscription, occupied,
}
use inferops.Tests.Fixtures.{decimal_quantities, gpu_resource, gpu_node}

abbrev planner : GpuPlanner
planner = record { node_selector = []; gpu_type_label = codes "inferops.dev/gpu-type" }

abbrev request : GpuRequest
request = record {
  resource_name = gpu_resource;
  count = pos 2;
  type = codes "L4";
  preferred_node = codes "a";
}

abbrev nodes : List (Node ℕ)
nodes = gpu_node (codes "a") 4 ∷ gpu_node (codes "b") 8 ∷ []

abbrev allocations : List GpuAllocation
allocations =
    record { node_name = codes "a"; resource_name = gpu_resource; count = pos 3 }
    ∷ record { node_name = codes "b"; resource_name = gpu_resource; count = pos 1 }
    ∷ []

abbrev placement : GpuPlacement
placement = record { node_name = codes "b"; total = pos 8; occupied = pos 1; available = pos 7 }

-- The preferred node is too full, so the other one is taken.
plan_test : plan decimal_quantities (some planner) request nodes allocations ≡ ok placement
unfolding plan
plan_test = refl

snapshot_test : snapshot decimal_quantities gpu_resource nodes allocations ≡ (pos 12, pos 4, pos 8)
unfolding snapshot
snapshot_test = refl

plan-IsBest_example : IsBest decimal_quantities planner request nodes allocations placement
plan-IsBest_example =
    plan-IsBest decimal_quantities planner request nodes allocations placement
      ((λ e. cc), omega arith) plan_test

plan-no_oversubscription_example :
    (node : Node ℕ) × (k : ℕ) × In node nodes
    × (node.name ≡ codes "b")
    × (lookup gpu_resource node.allocatable ≡ some k)
    × (reserved_on gpu_resource (codes "b") allocations +ℤ pos 2 ≤ℤ decimal_quantities.value k)
unfolding ◌+ℤ◌
plan-no_oversubscription_example =
    plan-no_oversubscription decimal_quantities planner request nodes allocations placement
      ((λ e. cc), omega arith) plan_test (omega arith)

compatible : IsCompatible decimal_quantities planner request (gpu_node (codes "b") 8) 8
unfolding is_node_eligible_for_cache node_matches_selector lookup
compatible = record {
  eligible = refl;
  selected = refl;
  typed = inr refl;
  advertised = refl;
  positive = omega arith;
}

room :
    HasRoom decimal_quantities planner request
      (occupied decimal_quantities planner request nodes allocations)
      (gpu_node (codes "b") 8)
      8
unfolding occupied_from occupy ◌-64◌
room = omega arith

plan_total_example :
    (p : GpuPlacement) × (plan decimal_quantities (some planner) request nodes allocations ≡ ok p)
plan_total_example =
    plan_total decimal_quantities planner request nodes allocations (gpu_node (codes "b") 8) 8
      ((λ e. cc), omega arith) (inr (inl refl)) compatible room

plan_outcome_example :
    ((plan decimal_quantities (some planner) request [] allocations ≡ err no_compatible_gpu_node)
      ↔ ((node : Node ℕ) (k : ℕ)
          → In node []
          → ¬ IsCompatible decimal_quantities planner request node k))
    × ((plan decimal_quantities (some planner) request [] allocations
          ≡ err insufficient_gpu_capacity)
        ↔ (((node : Node ℕ) × (k : ℕ) × In node []
              × IsCompatible decimal_quantities planner request node k)
            × ((node : Node ℕ) (k : ℕ)
                → In node []
                → IsCompatible decimal_quantities planner request node k
                → ¬ HasRoom decimal_quantities planner request
                    (occupied decimal_quantities planner request [] allocations)
                    node
                    k)))
plan_outcome_example =
    plan_outcome decimal_quantities planner request [] allocations ((λ e. cc), omega arith)
