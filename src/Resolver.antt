-- ===== src/Resolver.antt =====
-- The resolution of a deployment's runtime (operator/internal/runtime/resolver.go, resolved.go).
pub mod Laws
pub mod Valid
use inferops.Base.{
  List, [], ◌∷◌, Bool, not, ◌&&◌, ◌||◌, if◌then◌else◌, Option, none, some, Str, ◌==◌, str_eq,
  is_empty, has_prefix, ℤ, pos, ltb_ℤ, eqb_ℤ, Result, ok, err, ◌>>=◌, ◌>>◌, fail_if,
}
use inferops.RoutingPath.Clean.{slash}
use inferops.Image.{ImageError, validate_pinned_image}
use inferops.Api.Spec.{RuntimeOverrides, GpuResourceRequest}
use inferops.Api.Status.{ModelDeployment}
use inferops.Api.Runtime.{
  ModelRuntime, protocol_openai, runtime_http_port, runtime_health_path, runtime_metrics_path,
}

pub data ResolveError : Type 0 where
  deployment_required ref_required runtime_not_found get_failed : ResolveError
  engine_required protocol_required bad_protocol image_required : ResolveError
  bad_image : ImageError → ResolveError
  bad_port bad_health_path bad_readiness_path bad_metrics_path : ResolveError
  tensor_parallel_needs_gpu memory_utilization_needs_gpu too_much_tensor_parallel : ResolveError

-- `ResolvedSpec`.
pub record ResolvedSpec : Type 0 where
  pub engine : Str
  pub protocol : Str
  pub image : Str
  pub port : ℤ
  pub health_path : Str
  pub readiness_path : Str
  pub metrics_path : Str
  pub command : List Str
  pub args : List Str
  pub env : List (Str × Str)

-- An empty string stands for its default.
abbrev pub or_default : Str → Str → Str
or_default s default = if is_empty s then default else s

abbrev pub is_nonzero : ℤ → Bool
is_nonzero n = not (eqb_ℤ n (pos 0))

abbrev pub starts_with_slash : Str → Bool
starts_with_slash path = has_prefix path (slash ∷ [])

unfoldable pub image_ok : Result ImageError (Unit {0}) → Result ResolveError (Unit {0})
image_ok (ok _) = ok tt
image_ok (err e) = err (bad_image e)

needs_gpu : RuntimeOverrides → Result ResolveError (Unit {0})
needs_gpu runtime =
    fail_if (is_nonzero runtime.tensor_parallel_size) tensor_parallel_needs_gpu
    >> fail_if runtime.has_gpu_memory_utilization memory_utilization_needs_gpu

-- The branches on the GPU request.
unfoldable pub check_request :
    Option GpuResourceRequest → RuntimeOverrides → Result ResolveError (Unit {0})
unfolding needs_gpu
check_request none runtime = needs_gpu runtime
check_request (some gpu) runtime =
    if eqb_ℤ gpu.count (pos 0)
    then needs_gpu runtime
    else fail_if (ltb_ℤ gpu.count runtime.tensor_parallel_size) too_much_tensor_parallel

-- `resolveAgainstRuntime`.
unfoldable pub resolve_against_runtime :
    {T : Type 0} → ModelDeployment T → ModelRuntime → Result ResolveError ResolvedSpec
unfolding image_ok check_request
resolve_against_runtime d runtime =
    let spec = runtime.spec in
    let image = or_default d.spec.runtime.image spec.default_image in
    let port = if eqb_ℤ spec.port (pos 0) then runtime_http_port else spec.port in
    let health_path = or_default spec.health_path runtime_health_path in
    let readiness_path = or_default spec.readiness_path health_path in
    let metrics_path = or_default spec.metrics_path runtime_metrics_path in
    do
      fail_if (is_empty spec.engine) engine_required
      fail_if (is_empty spec.protocol) protocol_required
      fail_if (not (spec.protocol == protocol_openai)) bad_protocol
      fail_if (is_empty image) image_required
      image_ok (validate_pinned_image image)
      fail_if (ltb_ℤ port (pos 1) || ltb_ℤ (pos 65535) port) bad_port
      fail_if (not (starts_with_slash health_path)) bad_health_path
      fail_if (not (starts_with_slash readiness_path)) bad_readiness_path
      fail_if (not (starts_with_slash metrics_path)) bad_metrics_path
      check_request d.spec.resources.gpu d.spec.runtime
      ok (record {
        engine = spec.engine;
        protocol = spec.protocol;
        image = image;
        port = port;
        health_path = health_path;
        readiness_path = readiness_path;
        metrics_path = metrics_path;
        command = spec.command;
        args = spec.args;
        env = spec.env;
      })

-- What the getter returns: not found, another error, or an object that may be nil.
pub data Fetched : Type 0 where
  not_found failed : Fetched
  fetched : Option ModelRuntime → Fetched

resolve_fetched : {T : Type 0} → ModelDeployment T → Fetched → Result ResolveError ResolvedSpec
resolve_fetched d not_found = err runtime_not_found
resolve_fetched d failed = err get_failed
resolve_fetched d (fetched none) = err runtime_not_found
resolve_fetched d (fetched (some runtime)) = resolve_against_runtime d runtime

-- `Resolve`, with the getter as an argument of the namespace and the name.
unfoldable pub resolve :
    {T : Type 0}
    → (Str → Str → Fetched)
    → Option (ModelDeployment T)
    → Result ResolveError ResolvedSpec
unfolding resolve_fetched
resolve get_runtime none = err deployment_required
resolve get_runtime (some d) =
    fail_if (is_empty d.spec.runtime.runtime_ref) ref_required
    >> resolve_fetched d (get_runtime d.namespace d.spec.runtime.runtime_ref)

-- The accessors of `ResolvedRuntime`, with their defaults for a zero value.
unfoldable pub resolved_port : ResolvedSpec → ℤ
resolved_port spec = if is_nonzero spec.port then spec.port else runtime_http_port

unfoldable pub resolved_health_path : ResolvedSpec → Str
resolved_health_path spec = or_default spec.health_path runtime_health_path

unfoldable pub resolved_readiness_path : ResolvedSpec → Str
unfolding resolved_health_path
resolved_readiness_path spec = or_default spec.readiness_path (resolved_health_path spec)

unfoldable pub resolved_metrics_path : ResolvedSpec → Str
resolved_metrics_path spec = or_default spec.metrics_path runtime_metrics_path
