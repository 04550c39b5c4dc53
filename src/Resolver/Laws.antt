-- ===== src/Resolver/Laws.antt =====
-- What a resolved runtime is, and that validated objects resolve
-- (operator/internal/runtime/resolver.go, operator/internal/validation/validation.go).
use inferops.Base.{
  ◌≡◌, ◌⊎◌, inl, inr, true, false, Str, str_eq, is_empty, has_prefix, pos, ◌≤ℤ◌, arith,
  Result-cases, ok,
}
use inferops.Image.{validate_pinned_image}
use inferops.Image.Laws.{HasDigest, HasTag, validate_pinned_image-IsPinned}
use inferops.Api.Status.{ModelDeployment}
use inferops.Api.Runtime.{ModelRuntime}
use inferops.Validation.Deployment.{}
use inferops.Resolver.{
  ResolvedSpec, or_default, starts_with_slash, check_request, resolve_against_runtime, image_ok,
  resolved_port, resolved_health_path, resolved_readiness_path, resolved_metrics_path,
}

-- What the builder of the runtime pods relies on.
pub record IsResolved {T : Type 0} (d : ModelDeployment T) (runtime : ModelRuntime)
    (spec : ResolvedSpec) : Type 0 where
  pub image : spec.image ≡ or_default d.spec.runtime.image runtime.spec.default_image
  pub pinned : HasDigest spec.image ⊎ HasTag spec.image
  pub port : (pos 1 ≤ℤ spec.port) × (spec.port ≤ℤ pos 65535)
  pub paths :
      (starts_with_slash spec.health_path ≡ true)
      × (starts_with_slash spec.readiness_path ≡ true)
      × (starts_with_slash spec.metrics_path ≡ true)
  pub accessors :
      (resolved_port spec ≡ spec.port)
      × (resolved_health_path spec ≡ spec.health_path)
      × (resolved_readiness_path spec ≡ spec.readiness_path)
      × (resolved_metrics_path spec ≡ spec.metrics_path)

image_ok-ok :
    (image : Str)
    → image_ok (validate_pinned_image image) ≡ ok tt
    → validate_pinned_image image ≡ ok tt
unfolding image_ok
image_ok-ok image h = elim (Result-cases (validate_pinned_image image)) [
  | inl (u, e) ↦ e
  | inr (x, e) ↦ absurd (ground (arith, h, e))
]

starts_with_slash-not_empty : (path : Str) → starts_with_slash path ≡ true → is_empty path ≡ false
unfolding has_prefix
starts_with_slash-not_empty path h = ground (arith, h)

accessors_agree :
    (spec : ResolvedSpec)
    → pos 1 ≤ℤ spec.port
    → starts_with_slash spec.health_path ≡ true
    → starts_with_slash spec.readiness_path ≡ true
    → starts_with_slash spec.metrics_path ≡ true
    → (resolved_port spec ≡ spec.port)
      × (resolved_health_path spec ≡ spec.health_path)
      × (resolved_readiness_path spec ≡ spec.readiness_path)
      × (resolved_metrics_path spec ≡ spec.metrics_path)
unfolding resolved_port resolved_health_path resolved_readiness_path resolved_metrics_path
accessors_agree spec h a b c = ground (
  arith,
  h,
  starts_with_slash-not_empty spec.health_path a,
  starts_with_slash-not_empty spec.readiness_path b,
  starts_with_slash-not_empty spec.metrics_path c,
)

module _ {T : Type 0} (d : ModelDeployment T) (runtime : ModelRuntime) where
  -- A runtime configuration that is resolved has a pinned image, the deployment's own if it names
  -- one, a port of 1 to 65535 and paths that start with a slash; its accessors return these.
  pub resolve_against_runtime-IsResolved :
      (spec : ResolvedSpec)
      → resolve_against_runtime d runtime ≡ ok spec
      → IsResolved d runtime spec
  unfolding resolve_against_runtime
  resolve_against_runtime-IsResolved spec h =
      let image = or_default d.spec.runtime.image runtime.spec.default_image in
      elim (Result-cases (image_ok (validate_pinned_image image))) [
        | inr (x, e) ↦ absurd (ground (arith, h, e))
        | inl (_, e) ↦ elim (Result-cases (check_request d.spec.resources.gpu d.spec.runtime)) [
          | inr (x, f) ↦ absurd (ground (arith, h, e, f))
          | inl (_, f) ↦
              let same : spec.image ≡ image = ground (arith, h, e, f) in
              record {
                image = same;
                pinned = rw same (validate_pinned_image-IsPinned image (image_ok-ok image e));
                port = ground (arith, h, e, f);
                paths = ground (arith, h, e, f);
                accessors =
                    accessors_agree spec (ground (arith, h, e, f)) (ground (arith, h, e, f))
                      (ground (arith, h, e, f)) (ground (arith, h, e, f));
              }
        ]
      ]
