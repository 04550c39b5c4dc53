-- ===== src/Validation/Deployment.antt =====
-- `ValidateModelDeployment` (operator/internal/validation/validation.go).
use inferops.Base.{
  ◌++◌, Bool, true, false, not, ◌&&◌, ◌||◌, if◌then◌else◌, Option, none, some, Str, ◌==◌, str_eq,
  is_empty, codes, ℤ, pos, ltb_ℤ, Result, ok, err, ◌>>◌, fail_if,
}
use inferops.Kube.{Quantities, NameRules, ObjectRules}
use inferops.RoutingPath.Defs.{PathError, normalize}
use inferops.Image.{ImageError, validate_pinned_image}
use inferops.Api.Spec.{
  RuntimeOverrides, GpuResourceRequest, ResourceRequirements, DesiredState, other_desired, WhenFull,
  other_when_full, ScalingSpec, RolloutStrategy, other_rollout, WhenNoCapacity, other_no_capacity,
  RolloutSpec, DeploymentSpec, is_active_desired, is_canary,
}
use inferops.Api.Status.{ModelDeployment}
use inferops.Api.Runtime.{service_name_of, default_gpu_vendor}
use inferops.Validation.Scheduling.{
  name_required, bad_resource_name, bad_label_name, repo_required, bad_source, ref_required,
  bad_ref, bad_image, bad_quantity, quantity_not_positive, cpu_required, memory_required,
  tensor_parallel_needs_gpu, memory_utilization_needs_gpu, bad_gpu_count, bad_gpu_vendor,
  too_much_tensor_parallel, bad_desired_state, bad_when_full, bad_duration, duration_not_positive,
  negative_min_replicas, max_below_min, negative_pending, no_active_replicas, bad_cache_type,
  bad_route, negative_min_available, too_many_available, bad_strategy, bad_when_capacity,
  bad_canary_weight, canary_weight_needs_canary, Check, validate_scheduling,
}

unfoldable pub image_checked : Result ImageError (Unit {0}) → Check
image_checked (ok _) = ok tt
image_checked (err e) = err (bad_image e)

route_checked : Result PathError Str → Check
route_checked (ok _) = ok tt
route_checked (err e) = err (bad_route e)

abbrev is_desired_state : DesiredState → Bool
is_desired_state (other_desired _) = false
is_desired_state _ = true

abbrev is_when_full : WhenFull → Bool
is_when_full (other_when_full _) = false
is_when_full _ = true

abbrev is_strategy : RolloutStrategy → Bool
is_strategy (other_rollout _) = false
is_strategy _ = true

abbrev is_when_capacity : WhenNoCapacity → Bool
is_when_capacity (other_no_capacity _) = false
is_when_capacity _ = true

check_canary_weight : Option ℤ → RolloutStrategy → Check
check_canary_weight none strategy = ok tt
check_canary_weight (some weight) strategy =
    fail_if (ltb_ℤ weight (pos 1) || ltb_ℤ (pos 99) weight) bad_canary_weight
    >> fail_if (not (is_canary strategy)) canary_weight_needs_canary

-- `validateRollout`.
unfoldable pub validate_rollout : RolloutSpec → Check
unfolding check_canary_weight
validate_rollout rollout = do
  fail_if (not (is_strategy rollout.strategy)) bad_strategy
  fail_if (not (is_when_capacity rollout.when_capacity_unavailable)) bad_when_capacity
  check_canary_weight rollout.canary_weight_percent rollout.strategy

-- `validateAvailability`, of `MinAvailable` and the least number of replicas.
unfoldable pub validate_availability : Option ℤ → ℤ → Check
validate_availability none min_replicas = ok tt
validate_availability (some min_available) min_replicas =
    let replicas = if ltb_ℤ min_replicas (pos 1) then pos 1 else min_replicas in
    fail_if (ltb_ℤ min_available (pos 0)) negative_min_available
    >> fail_if (ltb_ℤ replicas min_available) too_many_available

unfoldable pub validate_scaling : ScalingSpec → Check
validate_scaling scaling = do
  fail_if (ltb_ℤ scaling.min_replicas (pos 0)) negative_min_replicas
  fail_if (ltb_ℤ scaling.max_replicas scaling.min_replicas) max_below_min
  fail_if (ltb_ℤ scaling.target_pending_requests (pos 0)) negative_pending

abbrev pub effective_vendor : GpuResourceRequest → Str
effective_vendor gpu = if is_empty gpu.vendor then default_gpu_vendor else gpu.vendor

abbrev check_parsed : Option ℤ → Check
check_parsed none = err bad_duration
check_parsed (some duration) = fail_if (not (ltb_ℤ (pos 0) duration)) duration_not_positive

module _ (objects : ObjectRules) where
  -- A duration that is set is positive.
  unfoldable pub check_duration : Str → Check
  check_duration text = if is_empty text then ok tt else check_parsed (objects.parse_duration text)

module _ (q : Quantities) where
  check_quantity : Option q.Quantity → Check
  check_quantity none = err bad_quantity
  check_quantity (some quantity) =
      fail_if (not (ltb_ℤ (pos 0) (q.sign quantity))) quantity_not_positive

  -- `validatePositiveQuantity`.
  unfoldable pub validate_positive_quantity : Str → Check
  unfolding check_quantity
  validate_positive_quantity text = if is_empty text then ok tt else check_quantity (q.parse text)

module _ (rules : NameRules) where
  -- The branches on the GPU request.
  unfoldable pub check_gpu : ResourceRequirements → RuntimeOverrides → Check
  check_gpu resources runtime = elim resources.gpu [
    | none ↦
        fail_if (is_empty resources.cpu) cpu_required
        >> fail_if (is_empty resources.memory) memory_required
        >> fail_if
            (ltb_ℤ runtime.tensor_parallel_size (pos 0)
              || ltb_ℤ (pos 0) runtime.tensor_parallel_size)
            tensor_parallel_needs_gpu
        >> fail_if runtime.has_gpu_memory_utilization memory_utilization_needs_gpu
    | some gpu ↦
        fail_if (ltb_ℤ gpu.count (pos 1)) bad_gpu_count
        >> fail_if (not (rules.is_qualified_name (effective_vendor gpu ++ codes ".com/gpu")))
            bad_gpu_vendor
        >> fail_if (ltb_ℤ gpu.count runtime.tensor_parallel_size) too_much_tensor_parallel
  ]

module _ (q : Quantities) (rules : NameRules) where
  -- From the scaling on.
  unfoldable pub check_rest : DeploymentSpec → Check
  unfolding route_checked
  check_rest spec = do
    fail_if
        (is_active_desired spec.activation.desired_state && ltb_ℤ spec.scaling.max_replicas (pos 1))
        no_active_replicas
    fail_if (not (is_empty spec.cache.type) && not (spec.cache.type == codes "nodeLocal"))
        bad_cache_type
    validate_positive_quantity q spec.cache.size
    (if is_empty spec.routing.path then ok tt else route_checked (normalize spec.routing.path))
    validate_scheduling rules spec.scheduling
    validate_availability spec.availability.min_available spec.scaling.min_replicas
    validate_rollout spec.rollout

module _ {T : Type 0} (rules : NameRules) (objects : ObjectRules) where
  -- Up to the image.
  unfoldable pub check_names : ModelDeployment T → Check
  check_names d =
      let runtime = d.spec.runtime in
      do
        fail_if (is_empty d.name) name_required
        fail_if (not (objects.is_dns1035_label (service_name_of d.name))) bad_resource_name
        fail_if (not (rules.is_valid_label_value d.name)) bad_label_name
        fail_if (is_empty d.spec.model.repo) repo_required
        fail_if
            (not (is_empty d.spec.model.source) && not (d.spec.model.source == codes "huggingface"))
            bad_source
        fail_if (is_empty runtime.runtime_ref) ref_required
        fail_if (not (objects.is_dns1123_subdomain runtime.runtime_ref)) bad_ref
        (if is_empty runtime.image
            then ok tt
            else image_checked (validate_pinned_image runtime.image))

module _ {T : Type 0} (q : Quantities) (rules : NameRules) (objects : ObjectRules) where
  -- `ValidateModelDeployment`.
  unfoldable pub validate_model_deployment : ModelDeployment T → Check
  unfolding check_names check_rest
  validate_model_deployment d =
      let spec = d.spec in
      do
        check_names rules objects d
        validate_positive_quantity q spec.resources.cpu
        validate_positive_quantity q spec.resources.memory
        check_gpu rules spec.resources spec.runtime
        fail_if (not (is_desired_state spec.activation.desired_state)) bad_desired_state
        fail_if (not (is_when_full spec.activation.when_full)) bad_when_full
        check_duration objects spec.activation.drain_timeout
        validate_scaling spec.scaling
        check_duration objects spec.scaling.idle_timeout
        check_rest q rules spec
