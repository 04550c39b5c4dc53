-- ===== src/Tests/Caches.antt =====
-- The cache planner and the preflight checks at work.
use inferops.Base.{
  ℕ, List, [], ◌∷◌, ◌++◌, ◌≡◌, ◌≢◌, refl, ◌⊎◌, ◌↔◌, inl, inr, true, false, some, Str, str_eq, codes,
  ℤ, pos, ok, arith, In, All, ◌≤ℤ◌, ◌+ℤ◌, ◌-64◌, lookup, insert, has_prefix, trim_suffix_byte,
  trim_prefix, sort_by, insert_by,
}
use inferops.Kube.{Node}
use inferops.RoutingPath.Clean.{clean, slash, split}
use inferops.RoutingPath.Segments.{IsPlain}
use inferops.Paths.Defs.{clean_absolute_path, under_root, child_of_root}
use inferops.Paths.Laws.{under_root-IsPlain}
use inferops.Scheduler.Nodes.{
  is_node_eligible_for_cache, node_matches_selector, has_untolerated_scheduling_taint,
}
use inferops.Scheduler.Cache.Types.{ModelCache, PlannerConfig, Placement, pending}
use inferops.Scheduler.Cache.Reserve.{
  held, reserved_bytes_by_node, conflicting_nodes_for_path, collect_ready_copy_nodes, owns_path,
  reserve, reserved_from,
}
use inferops.Scheduler.Cache.Rank.{
  rank_nodes, rank_all, rank_one, ranked_less, node_cache_capacity, has_existing_placement,
}
use inferops.Scheduler.Cache.Reserved.{IsSized, held_on}
use inferops.Scheduler.Cache.Ranking.{owned_on}
use inferops.Scheduler.Cache.Defs.{plan_cache, plan_path, is_candidate, pin, first_ranked}
use inferops.Scheduler.Cache.Laws.{IsSafe, plan_cache-IsSafe, plan_cache-no_overcommit}
use inferops.Scheduler.Cache.Best.{free, plan_cache-best, plan_cache_total}
use inferops.Scheduler.Preflight.{RuntimeSpec, validate_runtime_node, runtime_replica_count}
use inferops.Scheduler.Preflight.Laws.{Affords, validate_runtime_node_iff}
use inferops.Tests.Fixtures.{decimal_quantities, parse_decimal, gpu_node}

abbrev config : PlannerConfig
config = record {
  cache_root = codes "/c";
  node_selector = [];
  capacity_annotation = codes "inferops.dev/cache-capacity";
  required_resources = [];
}

abbrev cache_of : Str → Str → Str → ModelCache
cache_of uid node path = record {
  uid = uid;
  spec = record {
    model_repo = codes "r";
    revision = [];
    storage = record {
      type = codes "nodeLocal";
      size = codes "600";
      node_name = [];
      node_selector = [];
      tolerations = [];
      path = path;
    };
  };
  status = record {
    phase = pending;
    revision = [];
    node_name = node;
    path = path;
    reserved_size = [];
    conditions = [];
  };
}

abbrev wanted : ModelCache
wanted = cache_of (codes "w") [] (codes "/c/w")

-- Each node has room for one cache of 600 bytes, and this one is on the first.
abbrev others : List ModelCache
others = cache_of (codes "o") (codes "a") (codes "/c/o") ∷ []

abbrev second : Node ℕ
second = gpu_node (codes "b") 1

abbrev nodes : List (Node ℕ)
nodes = gpu_node (codes "a") 1 ∷ second ∷ []

abbrev placement : Placement ℕ
placement = record {
  node_name = codes "b";
  node_uid = codes "b";
  path = codes "/c/w";
  reserved_size = 600;
}

plan_cache_test : plan_cache decimal_quantities config (some wanted) nodes others ≡ ok placement
unfolding plan_cache clean_absolute_path clean under_root trim_suffix_byte has_prefix parse_decimal
    is_candidate is_node_eligible_for_cache node_matches_selector has_untolerated_scheduling_taint
    pin first_ranked rank_nodes rank_all rank_one node_cache_capacity ranked_less sort_by insert_by
    conflicting_nodes_for_path collect_ready_copy_nodes reserved_bytes_by_node reserve reserved_from
    ◌-64◌ lookup insert
plan_cache_test = refl

sized : All (IsSized decimal_quantities (codes "w")) others
unfolding held parse_decimal
sized = (omega arith, tt)

plan_cache-IsSafe_example :
    (node : Node ℕ) × (capacity : ℤ) × IsSafe decimal_quantities config wanted nodes others
      placement node capacity
plan_cache-IsSafe_example =
    plan_cache-IsSafe decimal_quantities config wanted nodes others placement plan_cache_test

plan_cache-no_overcommit_example :
    (node : Node ℕ) × (capacity : ℤ) × In node nodes
    × (codes "b" ≡ node.name)
    × (node_cache_capacity decimal_quantities node (codes "inferops.dev/cache-capacity")
        ≡ some capacity)
    × (held_on decimal_quantities (codes "w") node.name others +ℤ pos 600 ≤ℤ capacity)
plan_cache-no_overcommit_example =
    plan_cache-no_overcommit decimal_quantities config wanted nodes others placement sized
      plan_cache_test

candidate : is_candidate decimal_quantities config wanted.spec.storage second ≡ true
unfolding is_candidate is_node_eligible_for_cache node_matches_selector
    has_untolerated_scheduling_taint
candidate = refl

unowned : owned_on (codes "w") (codes "/c/w") (codes "b") others ≡ false
unfolding owns_path
unowned = refl

advertised :
    node_cache_capacity decimal_quantities second (codes "inferops.dev/cache-capacity")
    ≡ some (pos 1000)
unfolding node_cache_capacity parse_decimal lookup
advertised = refl

room : pos 600 ≤ℤ free decimal_quantities config wanted nodes others second (pos 1000)
unfolding reserved_bytes_by_node ◌-64◌ lookup insert parse_decimal
room = omega arith

plan_cache-best_example :
    (node : Node ℕ) × (capacity : ℤ) × In node nodes
    × (codes "b" ≡ node.name)
    × (node_cache_capacity decimal_quantities node (codes "inferops.dev/cache-capacity")
        ≡ some capacity)
    × (has_existing_placement wanted (collect_ready_copy_nodes wanted others) second ≡ true
        → has_existing_placement wanted (collect_ready_copy_nodes wanted others) node ≡ true)
    × (has_existing_placement wanted (collect_ready_copy_nodes wanted others) second
          ≡ has_existing_placement wanted (collect_ready_copy_nodes wanted others) node
        → free decimal_quantities config wanted nodes others second (pos 1000)
          ≤ℤ free decimal_quantities config wanted nodes others node capacity)
plan_cache-best_example =
    plan_cache-best decimal_quantities config wanted nodes others placement second (pos 1000)
      plan_cache_test refl (inr (inl refl)) candidate unowned advertised room

plan_path_test : plan_path config (some wanted) ≡ ok (codes "/c/w")
unfolding plan_path clean_absolute_path under_root clean trim_suffix_byte has_prefix
plan_path_test = refl

parsed_test : parse_decimal (codes "600") ≡ some 600
unfolding parse_decimal
parsed_test = refl

plan_cache_total_example :
    (p : Placement ℕ) × (plan_cache decimal_quantities config (some wanted) nodes others ≡ ok p)
plan_cache_total_example =
    plan_cache_total decimal_quantities config wanted nodes others (codes "/c/w") 600 second
      (pos 1000) refl plan_path_test parsed_test (omega arith) refl (inr (inl refl)) candidate
      unowned advertised room

clean_absolute_path_test : clean_absolute_path (codes "/c/w") ≡ ok (codes "/c/w")
unfolding clean_absolute_path clean
clean_absolute_path_test = refl

under_root_test : under_root (codes "/c/w") (codes "/c") ≡ ok tt
unfolding under_root trim_suffix_byte has_prefix
under_root_test = refl

under_root-IsPlain_example :
    (codes "/c/w" ≡ trim_suffix_byte (codes "/c") slash)
    ⊎ ((rest : Str) × (codes "/c/w" ≡ trim_suffix_byte (codes "/c") slash ++ slash ∷ rest)
        × All IsPlain (split rest))
under_root-IsPlain_example =
    under_root-IsPlain (codes "/c/w") (codes "/c/w") (codes "/c") clean_absolute_path_test (λ e. cc)
      refl under_root_test

child_of_root_test : child_of_root (codes "/c/w") (codes "/c") ≡ ok (codes "w")
unfolding child_of_root trim_suffix_byte has_prefix trim_prefix
child_of_root_test = refl

abbrev deployment : RuntimeSpec
deployment = record {
  node_selector = [];
  tolerations = [];
  cpu = [];
  memory = codes "600";
  desired_replicas = pos 0;
  min_replicas = pos 2;
}

validate_runtime_node_iff_example :
    (validate_runtime_node decimal_quantities (some deployment) (some second) ≡ ok tt) ↔ (
      (second.name ≢ [])
      × (node_matches_selector second deployment.node_selector ≡ true)
      × (has_untolerated_scheduling_taint second deployment.tolerations ≡ false)
      × Affords decimal_quantities
          (runtime_replica_count deployment)
          second.allocatable
          (codes "cpu")
          deployment.cpu
      × Affords decimal_quantities
          (runtime_replica_count deployment)
          second.allocatable
          (codes "memory")
          deployment.memory)
validate_runtime_node_iff_example = validate_runtime_node_iff decimal_quantities deployment second
