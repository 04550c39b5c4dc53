-- ===== src/Validation/Reconcile.antt =====
-- `ReconciliationValidator` (operator/internal/validation/validation.go).
use inferops.Base.{
  [], ◌∷◌, not, ◌||◌, if◌then◌else◌, Option, none, some, Str, ◌==◌, str_eq, is_empty, codes, ℤ, pos,
  ltb_ℤ, Result, ok, err, ◌>>=◌, ◌>>◌, fail_if,
}
use inferops.Kube.{ObjectRules}
use inferops.RoutingPath.Clean.{slash}
use inferops.Paths.Defs.{RootError, clean_absolute_path, under_root}
use inferops.Api.Status.{ModelDeployment}

-- The reason of a `ValidationError`; a missing validator or deployment has none.
pub data Unreconcilable : Type 0 where
  deployment_missing : Unreconcilable
  invalid_drain_timeout invalid_cache_path secret_required : Unreconcilable

pub data ValidatorError : Type 0 where
  invalid_root : RootError → ValidatorError
  filesystem_root : ValidatorError

-- `NewReconciliationValidator`: the root that it keeps.
unfoldable pub new_reconciliation_validator : Str → Result ValidatorError Str
new_reconciliation_validator cache_root = elim (clean_absolute_path cache_root) [
  | err e ↦ err (invalid_root e)
  | ok clean_root ↦ if clean_root == slash ∷ [] then err filesystem_root else ok clean_root
]

parsed_timeout : Option ℤ → Result Unreconcilable (Unit {0})
parsed_timeout none = err invalid_drain_timeout
parsed_timeout (some parsed) = fail_if (not (ltb_ℤ (pos 0) parsed)) invalid_drain_timeout

path_reason {ℓ} : {A : Type ℓ} → Result RootError A → Result Unreconcilable A
path_reason (ok a) = ok a
path_reason (err e) = err invalid_cache_path

-- `validateDrainTimeout`.
unfoldable pub validate_drain_timeout : ObjectRules → Str → Result Unreconcilable (Unit {0})
unfolding parsed_timeout
validate_drain_timeout objects drain_timeout =
    if is_empty drain_timeout then ok tt else parsed_timeout (objects.parse_duration drain_timeout)

-- `validateCachePath`.
unfoldable pub validate_cache_path : Str → Str → Result Unreconcilable (Unit {0})
unfolding path_reason
validate_cache_path cache_root cache_path =
    if is_empty cache_path
    then ok tt
    else path_reason (clean_absolute_path cache_path) >>= λ clean_path.
        path_reason (under_root clean_path cache_root)

-- `validateSecrets`, of the source and the name of the Secret.
unfoldable pub validate_secrets : ObjectRules → Str → Str → Result Unreconcilable (Unit {0})
validate_secrets objects source secret_name =
    if not (source == codes "huggingface") || is_empty secret_name
    then ok tt
    else fail_if (not (objects.is_dns1123_subdomain secret_name)) secret_required

-- `ValidateForReconciliation`.
unfoldable pub validate_for_reconciliation :
    {T : Type 0} → ObjectRules → Str → Option (ModelDeployment T) → Result Unreconcilable (Unit {0})
unfolding validate_drain_timeout validate_cache_path validate_secrets
validate_for_reconciliation objects cache_root none = err deployment_missing
validate_for_reconciliation objects cache_root (some d) = do
  validate_drain_timeout objects d.spec.activation.drain_timeout
  validate_cache_path cache_root d.spec.cache.path
  validate_secrets objects d.spec.model.source d.spec.secret_name
