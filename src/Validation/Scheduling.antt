-- ===== src/Validation/Scheduling.antt =====
-- `validateNodeScheduling` and `validateScheduling` (operator/internal/validation/validation.go), and
-- the errors of the validators, without their texts. A Go map is read in the order of its list here;
-- the order decides only which of several errors is returned.
use inferops.Base.{
  List, [], ◌∷◌, Bool, not, ◌&&◌, ◌||◌, if◌then◌else◌, Option, none, some, Str, ◌==◌, str_eq,
  is_empty, codes, any, ℤ, pos, ltb_ℤ, Result, ok, err, ◌>>◌, fail_if, for_each,
}
use inferops.Kube.{NameRules, effect_no_schedule, effect_no_execute, effect_prefer_no_schedule}
use inferops.Paths.Defs.{RootError}
use inferops.RoutingPath.Defs.{PathError}
use inferops.Image.{ImageError}
use inferops.Scheduler.Nodes.{Toleration, effective_operator, toleration_exists, toleration_equal}
use inferops.Api.Spec.{TopologySpreadConstraint, SchedulingSpec}

pub data Invalid : Type 0 where
  name_required bad_resource_name bad_label_name repo_required bad_source : Invalid
  ref_required bad_ref : Invalid
  bad_image : ImageError → Invalid
  bad_quantity quantity_not_positive : Invalid
  cpu_required memory_required tensor_parallel_needs_gpu memory_utilization_needs_gpu : Invalid
  bad_gpu_count bad_gpu_vendor too_much_tensor_parallel : Invalid
  bad_desired_state bad_when_full bad_duration duration_not_positive : Invalid
  negative_min_replicas max_below_min negative_pending no_active_replicas : Invalid
  bad_cache_type : Invalid
  bad_route : PathError → Invalid
  bad_selector_key bad_selector_value bad_toleration_key key_required : Invalid
  value_with_exists bad_operator bad_toleration_value bad_effect : Invalid
  negative_seconds seconds_need_no_execute : Invalid
  bad_skew bad_topology_key repeated_topology_key bad_unsatisfiable : Invalid
  negative_min_available too_many_available : Invalid
  bad_strategy bad_when_capacity bad_canary_weight canary_weight_needs_canary : Invalid
  engine_required protocol_required bad_protocol image_required bad_port : Invalid
  health_path_required path_without_slash bad_env_name : Invalid
  bad_storage_type size_required path_required : Invalid
  bad_path : RootError → Invalid
  bad_secret_ref : Invalid

abbrev pub Check : Type 0
Check = Result Invalid (Unit {0})

module _ (rules : NameRules) where
  open rules use {is_qualified_name, is_valid_label_value}

  abbrev check_entry : Str × Str → Check
  check_entry (key, value) =
      fail_if (not (is_qualified_name key)) bad_selector_key
      >> fail_if (not (is_valid_label_value value)) bad_selector_value

  check_operator : Toleration → Check
  check_operator t =
      if effective_operator t == toleration_equal
      then fail_if (is_empty t.key) key_required
      else if effective_operator t == toleration_exists
      then fail_if (not (is_empty t.value)) value_with_exists
      else err bad_operator

  abbrev is_effect : Str → Bool
  is_effect effect =
      is_empty effect
      || effect == effect_no_schedule
      || effect == effect_prefer_no_schedule
      || effect == effect_no_execute

  check_seconds : Option ℤ → Str → Check
  check_seconds none effect = ok tt
  check_seconds (some seconds) effect =
      fail_if (ltb_ℤ seconds (pos 0)) negative_seconds
      >> fail_if (not (effect == effect_no_execute)) seconds_need_no_execute

  -- One round of the loop over the tolerations.
  unfoldable pub check_toleration : Toleration → Check
  unfolding check_operator check_seconds
  check_toleration t = do
    fail_if (not (is_empty t.key) && not (is_qualified_name t.key)) bad_toleration_key
    check_operator t
    fail_if (not (is_empty t.value) && not (is_valid_label_value t.value)) bad_toleration_value
    fail_if (not (is_effect t.effect)) bad_effect
    check_seconds t.toleration_seconds t.effect

  -- `validateNodeScheduling`.
  unfoldable pub validate_node_scheduling : List (Str × Str) → List Toleration → Check
  unfolding check_toleration
  validate_node_scheduling node_selector tolerations =
      for_each check_entry node_selector >> for_each check_toleration tolerations

  -- The loop over the topology constraints, with the keys seen so far.
  unfoldable pub check_constraints : List TopologySpreadConstraint → List Str → Check
  check_constraints [] seen = ok tt
  check_constraints (c ∷ cs) seen =
      fail_if (ltb_ℤ c.max_skew (pos 1)) bad_skew
      >> fail_if (not (is_qualified_name c.topology_key)) bad_topology_key
      >> fail_if (any (λ key. key == c.topology_key) seen) repeated_topology_key
      >> fail_if
          (not (c.when_unsatisfiable == codes "DoNotSchedule")
            && not (c.when_unsatisfiable == codes "ScheduleAnyway"))
          bad_unsatisfiable
      >> check_constraints cs (c.topology_key ∷ seen)

  -- `validateScheduling`.
  unfoldable pub validate_scheduling : SchedulingSpec → Check
  unfolding validate_node_scheduling check_constraints
  validate_scheduling scheduling =
      validate_node_scheduling scheduling.node_selector scheduling.tolerations
      >> check_constraints scheduling.topology_spread_constraints []
