-- ===== src/Resolver/Valid.antt =====
-- Validated objects resolve (operator/internal/runtime/resolver.go,
-- operator/internal/validation/validation.go).
use inferops.Base.{
  ◌≡◌, ◌≢◌, ◌⊎◌, inl, inr, true, false, some, Str, ◌==◌, str_eq, is_empty, has_prefix, pos, ◌≤ℤ◌,
  arith, Option-cases, Result-cases, ok, err, str_beq_iff,
}
use inferops.Kube.{Quantities, NameRules, ObjectRules}
use inferops.Image.{validate_pinned_image}
use inferops.Api.Spec.{RuntimeOverrides, ResourceRequirements}
use inferops.Api.Status.{ModelDeployment}
use inferops.Api.Runtime.{ModelRuntime, protocol_openai}
use inferops.Validation.Deployment.{
  image_checked, validate_positive_quantity, check_gpu, check_names, check_duration,
  validate_model_deployment,
}
use inferops.Validation.Resources.{validate_model_runtime}
use inferops.Resolver.{
  ResolveError, ResolvedSpec, or_default, starts_with_slash, check_request, resolve_against_runtime,
  fetched, Fetched, resolve, image_ok,
}
use inferops.Resolver.Laws.{IsResolved, resolve_against_runtime-IsResolved}

module _ {T : Type 0} (q : Quantities) (rules : NameRules) (objects : ObjectRules)
    (d : ModelDeployment T) where
  validate_model_deployment-parts :
      validate_model_deployment q rules objects d ≡ ok tt
      → (check_names rules objects d ≡ ok tt)
        × (check_gpu rules d.spec.resources d.spec.runtime ≡ ok tt)
        × (check_duration objects d.spec.activation.drain_timeout ≡ ok tt)
  unfolding validate_model_deployment
  validate_model_deployment-parts h = elim (Result-cases (check_names rules objects d)) [
    | inr (x, e) ↦ absurd (ground (arith, h, e))
    | inl (_, e) ↦ elim (Result-cases (validate_positive_quantity q d.spec.resources.cpu)) [
      | inr (x, f) ↦ absurd (ground (arith, h, e, f))
      | inl (_, f) ↦ elim (Result-cases (validate_positive_quantity q d.spec.resources.memory)) [
        | inr (x, g) ↦ absurd (ground (arith, h, e, f, g))
        | inl (_, g) ↦ ground (arith, h, e, f, g)
      ]
    ]
  ]

  check_names-parts :
      check_names rules objects d ≡ ok tt
      → (is_empty d.spec.runtime.runtime_ref ≡ false)
        × ((is_empty d.spec.runtime.image ≡ true)
            ⊎ (validate_pinned_image d.spec.runtime.image ≡ ok tt))
  unfolding check_names image_checked
  check_names-parts h = elim (Result-cases (validate_pinned_image d.spec.runtime.image)) [
    | inl (_, e) ↦ ground (arith, h, e)
    | inr (x, e) ↦ ground (arith, h, e)
  ]

check_gpu-check_request :
    (rules : NameRules) (resources : ResourceRequirements) (runtime : RuntimeOverrides)
    → check_gpu rules resources runtime ≡ ok tt
    → check_request resources.gpu runtime ≡ ok tt
unfolding check_gpu check_request
check_gpu-check_request rules resources runtime h = elim (Option-cases resources.gpu) [
  | inl e ↦ ground (arith, h, e)
  | inr (gpu, e) ↦ ground (arith, h, e)
]

-- The fields of a runtime that passes.
validate_model_runtime-parts :
    (objects : ObjectRules) (runtime : ModelRuntime)
    → validate_model_runtime objects runtime ≡ ok tt
    → (is_empty runtime.spec.engine ≡ false)
      × (runtime.spec.protocol == protocol_openai ≡ true)
      × (is_empty runtime.spec.default_image ≡ false)
      × (validate_pinned_image runtime.spec.default_image ≡ ok tt)
      × (pos 1 ≤ℤ runtime.spec.port)
      × (runtime.spec.port ≤ℤ pos 65535)
      × (starts_with_slash runtime.spec.health_path ≡ true)
      × ((is_empty runtime.spec.readiness_path ≡ true)
          ⊎ (starts_with_slash runtime.spec.readiness_path ≡ true))
      × ((is_empty runtime.spec.metrics_path ≡ true)
          ⊎ (starts_with_slash runtime.spec.metrics_path ≡ true))
unfolding validate_model_runtime image_checked
validate_model_runtime-parts objects runtime h =
    elim (Result-cases (validate_pinned_image runtime.spec.default_image)) [
      | inr (x, e) ↦ absurd (ground (arith, h, e))
      | inl (_, e) ↦ ground (arith, h, e)
    ]

image_ok_of :
    (image : Str)
    → validate_pinned_image image ≡ ok tt
    → image_ok (validate_pinned_image image) ≡ ok tt
unfolding image_ok
image_ok_of image h = ground (arith, h)

-- The image is that of the deployment, or the default: both are checked.
or_default-pinned :
    (image default : Str)
    → (is_empty image ≡ true) ⊎ (validate_pinned_image image ≡ ok tt)
    → validate_pinned_image default ≡ ok tt
    → is_empty default ≡ false
    → (validate_pinned_image (or_default image default) ≡ ok tt)
      × (is_empty (or_default image default) ≡ false)
or_default-pinned image default h k n = ground (arith, h, k, n)

resolve_against_runtime-no_error :
    {T : Type 0} (d : ModelDeployment T) (runtime : ModelRuntime) (x : ResolveError)
    → let image = or_default d.spec.runtime.image runtime.spec.default_image in
      image_ok (validate_pinned_image image) ≡ ok tt
      → is_empty image ≡ false
      → check_request d.spec.resources.gpu d.spec.runtime ≡ ok tt
      → is_empty runtime.spec.engine ≡ false
      → (runtime.spec.protocol == protocol_openai) ≡ true
      → (pos 1 ≤ℤ runtime.spec.port) × (runtime.spec.port ≤ℤ pos 65535)
      → starts_with_slash runtime.spec.health_path ≡ true
      → (is_empty runtime.spec.readiness_path ≡ true)
        ⊎ (starts_with_slash runtime.spec.readiness_path ≡ true)
      → (is_empty runtime.spec.metrics_path ≡ true)
        ⊎ (starts_with_slash runtime.spec.metrics_path ≡ true)
      → resolve_against_runtime d runtime ≢ err x
unfolding resolve_against_runtime has_prefix
resolve_against_runtime-no_error d runtime x pinned set request engine protocol port health
      readiness metrics e =
    ground (arith, e, pinned, set, request, str_beq_iff runtime.spec.protocol protocol_openai)

-- A deployment and a runtime that pass their validation resolve, when the getter finds the runtime
-- that the deployment names, to a safe configuration.
pub validated-resolves :
    {T : Type 0} (q : Quantities) (rules : NameRules) (objects : ObjectRules)
    (d : ModelDeployment T) (runtime : ModelRuntime) (get_runtime : Str → Str → Fetched)
    → validate_model_deployment q rules objects d ≡ ok tt
    → validate_model_runtime objects runtime ≡ ok tt
    → get_runtime d.namespace d.spec.runtime.runtime_ref ≡ fetched (some runtime)
    → (spec : ResolvedSpec) × (resolve get_runtime (some d) ≡ ok spec) × IsResolved d runtime spec
unfolding resolve
validated-resolves q rules objects d runtime get_runtime valid valid_runtime found =
    let (names, gpu, _) = validate_model_deployment-parts q rules objects d valid in
    let (named, image) = check_names-parts q rules objects d names in
    let (engine, protocol, default_set, default_image, low, high, health, readiness, metrics) =
      validate_model_runtime-parts objects runtime valid_runtime in
    let (pinned, set) =
      or_default-pinned d.spec.runtime.image runtime.spec.default_image image default_image
        default_set in
    let request = check_gpu-check_request rules d.spec.resources d.spec.runtime gpu in
    elim (Result-cases (resolve_against_runtime d runtime)) [
      | inl (spec, e) ↦ (
        spec,
        ground (arith, found, named, e),
        resolve_against_runtime-IsResolved d runtime spec e,
      )
      | inr (x, e) ↦ absurd (
          resolve_against_runtime-no_error d runtime x
            (image_ok_of (or_default d.spec.runtime.image runtime.spec.default_image) pinned) set
            request engine protocol (low, high) health readiness metrics e)
    ]
