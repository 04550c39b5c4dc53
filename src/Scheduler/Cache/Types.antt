-- ===== src/Scheduler/Cache/Types.antt =====
-- What the planner reads of a `ModelCache` (operator/api/v1alpha1/modelcache_types.go), and its
-- configuration and result (operator/internal/scheduler/planner.go).
use inferops.Base.{
  List, [], ◌∷◌, Bool, true, false, if◌then◌else◌, Str, ◌==◌, str_eq, is_empty, codes,
}
use inferops.Kube.{condition_true}
use inferops.Paths.Defs.{RootError}
use inferops.Scheduler.Nodes.{Toleration}

pub record CacheStorage : Type 0 where
  pub type : Str
  pub size : Str
  pub node_name : Str
  pub node_selector : List (Str × Str)
  pub tolerations : List Toleration
  pub path : Str

pub record CacheSpec : Type 0 where
  pub model_repo : Str
  pub revision : Str
  pub storage : CacheStorage

-- A `ModelCachePhase` is a string: `other_phase` is any but the four constants.
pub data CachePhase : Type 0 where
  pending downloading ready failed : CachePhase
  other_phase : Str → CachePhase

pub record CacheCondition : Type 0 where
  pub type : Str
  pub status : Str

pub record CacheStatus : Type 0 where
  pub phase : CachePhase
  pub revision : Str
  pub node_name : Str
  pub path : Str
  pub reserved_size : Str
  pub conditions : List CacheCondition

pub record ModelCache : Type 0 where
  pub uid : Str
  pub spec : CacheSpec
  pub status : CacheStatus

abbrev pub is_failed : CachePhase → Bool
is_failed failed = true
is_failed _ = false

abbrev pub is_ready_phase : CachePhase → Bool
is_ready_phase ready = true
is_ready_phase _ = false

abbrev pub cache_condition_downloaded : Str
cache_condition_downloaded = codes "Downloaded"

abbrev pub cache_condition_ready : Str
cache_condition_ready = codes "Ready"

-- The first condition of the type decides.
unfoldable pub cache_condition_true : List CacheCondition → Str → Bool
cache_condition_true [] type = false
cache_condition_true (c ∷ cs) type =
    if c.type == type then c.status == condition_true else cache_condition_true cs type

unfoldable pub effective_revision : ModelCache → Str
effective_revision cache =
    if is_empty cache.spec.revision then codes "main" else cache.spec.revision

-- `PlannerConfig`, and the planner that `NewCachePlanner` makes of it.
pub record PlannerConfig : Type 0 where
  pub cache_root : Str
  pub node_selector : List (Str × Str)
  pub capacity_annotation : Str
  pub required_resources : List Str

pub record Placement (Q : Type 0) : Type 0 where
  pub node_name : Str
  pub node_uid : Str
  pub path : Str
  pub reserved_size : Q

pub data CacheError : Type 0 where
  cache_required : CacheError
  invalid_path : RootError → CacheError
  root_is_filesystem_root invalid_annotation : CacheError
  invalid_selector_key invalid_selector_value invalid_resource : CacheError
  unsupported_storage invalid_size size_not_positive : CacheError
  no_eligible_node pinned_node_unavailable : CacheError
  insufficient_capacity path_conflict : CacheError
