-- ===== src/Scheduler/Cache/Order.antt =====
-- The order in which `rankNodes` sorts (operator/internal/scheduler/planner.go).
use inferops.Base.{◌≡◌, true, false, arith, StrictWeak, str_lt_asym, ◌≤ℤ◌, str_lt_neg_trans}
use inferops.Scheduler.Cache.Rank.{RankedNode, ranked_less}

module _ {Q : Type 0} where
  asym : (a b : RankedNode Q) → ranked_less a b ≡ true → ranked_less b a ≡ false
  unfolding ranked_less
  asym a b h = ground (arith, str_lt_asym a.node.name b.node.name)

  neg_trans :
      (a b c : RankedNode Q)
      → ranked_less b a ≡ false
      → ranked_less c b ≡ false
      → ranked_less c a ≡ false
  unfolding ranked_less
  neg_trans a b c h k = ground (arith, str_lt_neg_trans a.node.name b.node.name c.node.name)

  pub ranked_less-StrictWeak : StrictWeak (ranked_less {Q = Q})
  ranked_less-StrictWeak = record { asym = asym; neg_trans = neg_trans }

  -- What it means that an entry does not come ahead of the one selected.
  pub not_before :
      (best other : RankedNode Q)
      → ranked_less other best ≡ false
      → (other.has_existing_placement ≡ true → best.has_existing_placement ≡ true)
        × (other.has_existing_placement ≡ best.has_existing_placement
            → other.free_capacity ≤ℤ best.free_capacity)
  unfolding ranked_less
  not_before best other h = ground arith
