-- ===== src/Validation/Resources.antt =====
-- `ValidateModelRuntime` and `ValidateModelCache` (operator/internal/validation/validation.go).
use inferops.Base.{
  [], ◌∷◌, not, ◌&&◌, ◌||◌, Option, none, some, Str, ◌==◌, str_eq, is_empty, codes, has_prefix, pos,
  ltb_ℤ, Result, ok, err, ◌>>◌, fail_if, for_each,
}
use inferops.Kube.{Quantities, NameRules, ObjectRules}
use inferops.RoutingPath.Clean.{slash}
use inferops.Paths.Defs.{RootError, clean_absolute_path}
use inferops.Image.{validate_pinned_image}
use inferops.Scheduler.Cache.Types.{ModelCache}
use inferops.Api.Runtime.{ModelRuntime, protocol_openai}
use inferops.Validation.Scheduling.{
  name_required, repo_required, quantity_not_positive, bad_quantity, engine_required,
  protocol_required, bad_protocol, image_required, bad_port, health_path_required,
  path_without_slash, bad_env_name, bad_storage_type, size_required, path_required, bad_path,
  bad_secret_ref, Check, validate_node_scheduling,
}
use inferops.Validation.Deployment.{image_checked}

-- A path that is set starts with a slash; the three paths are a Go map.
abbrev check_slash : Str → Check
check_slash path =
    fail_if (not (is_empty path) && not (has_prefix path (slash ∷ []))) path_without_slash

-- `ValidateModelRuntime`.
unfoldable pub validate_model_runtime : ObjectRules → ModelRuntime → Check
validate_model_runtime objects runtime =
    let spec = runtime.spec in
    do
      fail_if (is_empty runtime.name) name_required
      fail_if (is_empty spec.engine) engine_required
      fail_if (is_empty spec.protocol) protocol_required
      fail_if (not (spec.protocol == protocol_openai)) bad_protocol
      fail_if (is_empty spec.default_image) image_required
      image_checked (validate_pinned_image spec.default_image)
      fail_if (ltb_ℤ spec.port (pos 1) || ltb_ℤ (pos 65535) spec.port) bad_port
      fail_if (is_empty spec.health_path) health_path_required
      check_slash spec.health_path
      check_slash spec.readiness_path
      check_slash spec.metrics_path
      for_each (λ entry. fail_if (not (objects.is_env_var_name entry.0)) bad_env_name) spec.env

-- The fields of a `ModelCache` that only its validation reads, beside those of the planner.
pub record NamedCache : Type 0 where
  pub name : Str
  pub secret_ref : Str
  pub cache : ModelCache

path_ok : Result RootError Str → Check
path_ok (ok _) = ok tt
path_ok (err e) = err (bad_path e)

module _ (q : Quantities) (rules : NameRules) (objects : ObjectRules) where
  check_size : Option q.Quantity → Check
  check_size none = err bad_quantity
  check_size (some size) = fail_if (not (ltb_ℤ (pos 0) (q.sign size))) quantity_not_positive

  -- `ValidateModelCache`.
  unfoldable pub validate_model_cache : NamedCache → Check
  unfolding check_size path_ok
  validate_model_cache c =
      let spec = c.cache.spec in
      do
        fail_if (is_empty c.name) name_required
        fail_if (is_empty spec.model_repo) repo_required
        fail_if (not (spec.storage.type == codes "nodeLocal")) bad_storage_type
        fail_if (is_empty spec.storage.size) size_required
        check_size (q.parse spec.storage.size)
        fail_if (is_empty spec.storage.path) path_required
        path_ok (clean_absolute_path spec.storage.path)
        validate_node_scheduling rules spec.storage.node_selector spec.storage.tolerations
        fail_if (not (is_empty c.secret_ref) && not (objects.is_dns1123_subdomain c.secret_ref))
            bad_secret_ref
