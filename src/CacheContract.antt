-- ===== src/CacheContract.antt =====
-- The contract between a deployment and its cache (operator/internal/cachecontract/cache.go).
pub mod Laws
use inferops.Base.{
  ℕ, List, [], ◌∷◌, ◌++◌, Bool, true, false, not, ◌&&◌, ◌||◌, if◌then◌else◌, Option, none, some,
  Str, ◌==◌, str_eq, is_empty, codes, Result, ok, err, ◌>>=◌, ◌>>◌, fail_if,
}
use inferops.Kube.{condition_true}
use inferops.Scheduler.Cache.Types.{
  ModelCache, CacheCondition, is_ready_phase, cache_condition_ready,
}

-- What is read of a `ModelDeployment`.
pub record ArtifactSpec : Type 0 where
  pub namespace : Str
  pub name : Str
  pub repo : Str
  pub revision : Str

pub data ContractError : Type 0 where
  deployment_required name_required repo_required : ContractError

abbrev pub newline : ℕ
newline = 10

abbrev pub default_revision : Str
default_revision = codes "main"

abbrev pub revision_of : ArtifactSpec → Str
revision_of deployment =
    if is_empty deployment.revision then default_revision else deployment.revision

-- `Identity`; `none` is a nil pointer.
unfoldable pub identity_of : Option ArtifactSpec → Result ContractError Str
identity_of none = err deployment_required
identity_of (some deployment) = do
  fail_if (is_empty deployment.namespace || is_empty deployment.name) name_required
  fail_if (is_empty deployment.repo) repo_required
  ok (
      deployment.namespace
      ++ newline
        ∷ (deployment.name ++ newline ∷ (deployment.repo ++ newline ∷ revision_of deployment)))

-- `Result`, the handoff.
pub record Handoff : Type 0 where
  pub is_ready : Bool
  pub node_name : Str
  pub path : Str
  pub revision : Str

abbrev pub no_handoff : Handoff
no_handoff = record { is_ready = false; node_name = []; path = []; revision = [] }

-- The loop of `Lookup`: whether some condition is Ready and True.
unfoldable pub has_ready_condition : List CacheCondition → Bool
has_ready_condition [] = false
has_ready_condition (c ∷ cs) =
    if c.type == cache_condition_ready && c.status == condition_true
    then true
    else has_ready_condition cs

unfoldable pub find_handoff : Option ModelCache → Handoff
find_handoff none = no_handoff
find_handoff (some cache) =
    if not (is_ready_phase cache.status.phase)
    then no_handoff
    else if is_empty cache.status.node_name
        || is_empty cache.status.path
        || is_empty cache.status.revision
    then no_handoff
    else if has_ready_condition cache.status.conditions
    then record {
      is_ready = true;
      node_name = cache.status.node_name;
      path = cache.status.path;
      revision = cache.status.revision;
    }
    else no_handoff
