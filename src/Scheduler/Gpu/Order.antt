-- ===== src/Scheduler/Gpu/Order.antt =====
-- The order in which `Plan` sorts its candidates (operator/internal/scheduler/gpu.go).
use inferops.Base.{◌≡◌, true, false, arith, StrictWeak, str_lt_asym, ◌≤ℤ◌, str_lt_neg_trans}
use inferops.Scheduler.Gpu.Defs.{Candidate, candidate_less}

less_asym : (a b : Candidate) → candidate_less a b ≡ true → candidate_less b a ≡ false
unfolding candidate_less
less_asym a b h = ground (arith, str_lt_asym a.placement.node_name b.placement.node_name)

less-neg_trans :
    (a b c : Candidate)
    → candidate_less b a ≡ false
    → candidate_less c b ≡ false
    → candidate_less c a ≡ false
unfolding candidate_less
less-neg_trans a b c h k =
    ground
      (arith, str_lt_neg_trans a.placement.node_name b.placement.node_name c.placement.node_name)

pub candidate_less-StrictWeak : StrictWeak candidate_less
candidate_less-StrictWeak = record { asym = less_asym; neg_trans = less-neg_trans }

-- What it means that a candidate does not come ahead of another.
pub not_ahead :
    (best other : Candidate)
    → candidate_less other best ≡ false
    → (other.preferred ≡ true → best.preferred ≡ true)
      × (other.preferred ≡ best.preferred → other.placement.available ≤ℤ best.placement.available)
unfolding candidate_less
not_ahead best other h = ground arith
