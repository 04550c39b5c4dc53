-- ===== src/Lifecycle/Replicas.antt =====
-- The replicas of a deployment and the GPUs that it reserves
-- (operator/controllers/modeldeployment_lifecycle_controller.go).
use native.Mathlib.Nat.{mul-le-mul_right, mul-le-mul_left, mul-add}
use inferops.Base.{
  ℕ, suc, zero, ◌+◌, ◌*◌, ◌≤◌, ◌<◌, ◌≡◌, refl, ap, sym, ◌∙◌, some, ℤ, pos, negsuc, ◌≤ℤ◌, ◌*ℤ◌,
  ◌*64◌, ◌+ℤ◌, ◌+64◌, wrap64, arith,
}
use inferops.Api.Spec.{
  GpuResourceRequest, RolloutStrategy, rollout_unset, recreate, rolling, blue_green, canary,
  other_rollout,
}
use inferops.Api.Status.{ModelDeployment}
use inferops.Lifecycle.Effective.{
  effective_max_replicas, base_runtime_replicas, effective_runtime_replicas,
  effective_gpu_reservation,
}
use inferops.Lifecycle.Rollout.{
  effective_rollout_strategy, per_replica, rollout_surge_gpu_reservation,
}

abbrev pub int32_max : ℕ
int32_max = 2147483647

product_bound : (a b : ℕ) → a ≤ int32_max → b ≤ int32_max → a * b ≤ 4611686014132420609
product_bound a b h k = omega (arith, mul-le-mul_right b h, mul-le-mul_left int32_max k)

small_product : (a b : ℕ) → a * b < 9223372036854775808 → pos a *64 pos b ≡ pos (a * b)
unfolding ◌*64◌ ◌*ℤ◌ wrap64
small_product a b h = ground (arith, h)

small_sum : (a b : ℕ) → a + b < 9223372036854775808 → pos a +64 pos b ≡ pos (a + b)
unfolding ◌+64◌ ◌+ℤ◌ wrap64
small_sum a b h = ground (arith, h)

exact_product : (a b : ℕ) → pos a *ℤ pos b ≡ pos (a * b)
unfolding ◌*ℤ◌
exact_product a b = ground arith

positive : (n : ℤ) → pos 1 ≤ℤ n → (k : ℕ) × (n ≡ pos k) × (1 ≤ k)
positive (pos k) h = (k, refl, omega arith)
positive (negsuc k) h = absurd (omega arith)

-- How many replicas run beside those of a deployment while a rollout goes on.
abbrev pub extra_replicas : RolloutStrategy → ℤ → ℤ
extra_replicas blue_green replicas = replicas
extra_replicas rolling replicas = pos 1
extra_replicas canary replicas = pos 1
extra_replicas _ replicas = pos 0

exact_sum : (n m : ℕ) → pos n +ℤ pos m ≡ pos (n + m)
unfolding ◌+ℤ◌
exact_sum n m = ground arith

sum_product : (c n m : ℕ) → pos c *ℤ (pos n +ℤ pos m) ≡ pos (c * n + c * m)
sum_product c n m =
    ap (λ x. pos c *ℤ x) (exact_sum n m) ∙ exact_product c (n + m) ∙ ap pos (mul-add c n m)

positive_product : (c n : ℕ) → 1 ≤ c → 1 ≤ n → 1 ≤ c * n
positive_product zero n h k = absurd (omega arith)
positive_product (suc c) zero h k = absurd (omega arith)
positive_product (suc c) (suc n) h k = omega arith

module _ {T : Type 0} (d : ModelDeployment T) where
  replicas_bounded :
      (pos 1 ≤ℤ effective_runtime_replicas d)
      × (effective_runtime_replicas d ≤ℤ effective_max_replicas d)
  unfolding effective_runtime_replicas base_runtime_replicas effective_max_replicas
  replicas_bounded = ground arith

  surge_at_least :
      (c n : ℕ)
      → 1 ≤ c
      → c ≤ int32_max
      → c * n ≤ 4611686014132420609
      → effective_gpu_reservation d ≡ pos (c * n)
      → per_replica d.spec.resources.gpu ≡ pos c
      → effective_gpu_reservation d ≤ℤ rollout_surge_gpu_reservation d
  unfolding rollout_surge_gpu_reservation
  surge_at_least c n low high room same each =
      ground (
        arith,
        same,
        each,
        small_sum (c * n) c (omega arith),
        small_product (c * n) 2 (omega arith),
      )

  surge_in :
      (strategy : RolloutStrategy) (c n : ℕ)
      → 1 ≤ c
      → 1 ≤ n
      → c ≤ int32_max
      → c * n ≤ 4611686014132420609
      → effective_rollout_strategy d ≡ strategy
      → effective_gpu_reservation d ≡ pos (c * n)
      → per_replica d.spec.resources.gpu ≡ pos c
      → rollout_surge_gpu_reservation d ≡ pos c *ℤ (pos n +ℤ extra_replicas strategy (pos n))
  unfolding rollout_surge_gpu_reservation
  surge_in blue_green c n low one high room by same each =
      let double = small_product (c * n) 2 (omega (arith, room)) in
      ground (arith, by, same, double, sum_product c n n, positive_product c n low one)
  surge_in rolling c n low one high room by same each =
      let more = small_sum (c * n) c (omega (arith, room, high)) in
      ground (arith, by, same, each, more, sum_product c n 1, positive_product c n low one)
  surge_in canary c n low one high room by same each =
      let more = small_sum (c * n) c (omega (arith, room, high)) in
      ground (arith, by, same, each, more, sum_product c n 1, positive_product c n low one)
  surge_in rollout_unset c n low one high room by same each =
      ground (arith, by, same, sum_product c n 0)
  surge_in recreate c n low one high room by same each = ground (arith, by, same, sum_product c n 0)
  surge_in (other_rollout s) c n low one high room by same each =
      ground (arith, by, same, sum_product c n 0)

  -- With a GPU request of one GPU at least, and 32-bit numbers, a deployment has one replica at
  -- least and no more than its largest number, it reserves the GPUs of all of them, without an
  -- overflow, and never fewer while a rollout has a surge: then those of as many replicas more for
  -- blue and green, of one more for a rolling or canary rollout, and of none otherwise.
  pub reservation-IsExact :
      (gpu : GpuResourceRequest)
      → d.spec.resources.gpu ≡ some gpu
      → (pos 1 ≤ℤ gpu.count) × (gpu.count ≤ℤ pos int32_max)
      → d.spec.scaling.max_replicas ≤ℤ pos int32_max
      → (pos 1 ≤ℤ effective_runtime_replicas d)
        × (effective_runtime_replicas d ≤ℤ effective_max_replicas d)
        × (effective_gpu_reservation d ≡ gpu.count *ℤ effective_runtime_replicas d)
        × (effective_gpu_reservation d ≤ℤ rollout_surge_gpu_reservation d)
        × (rollout_surge_gpu_reservation d
            ≡ gpu.count
              *ℤ (effective_runtime_replicas d
                  +ℤ extra_replicas (effective_rollout_strategy d) (effective_runtime_replicas d)))
  reservation-IsExact gpu requested (low, high) max_high =
      let (least, most) = replicas_bounded in
      let (n, same_n, n_low) = positive (effective_runtime_replicas d) least in
      let (c, same_c, c_low) = positive gpu.count low in
      let cap : effective_max_replicas d ≤ℤ pos int32_max =
        unfold effective_max_replicas in ground (arith, max_high) in
      let room =
        product_bound c n (ground (arith, same_c, high)) (ground (arith, same_n, most, cap)) in
      let exact : effective_gpu_reservation d ≡ pos (c * n) =
        unfold effective_gpu_reservation in
        ground (arith, requested, same_c, same_n, small_product c n (omega (arith, room))) in
      (
        least,
        most,
        rw (same_c, same_n) (exact ∙ sym (exact_product c n)),
        surge_at_least c n c_low (ground (arith, same_c, high)) room exact
            (ground (arith, requested, same_c, c_low)),
        rw (same_c, same_n)
            (surge_in (effective_rollout_strategy d) c n c_low n_low (ground (arith, same_c, high))
              room refl exact (ground (arith, requested, same_c, c_low))),
      )
