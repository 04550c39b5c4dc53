-- ===== src/Tests/Fixtures.antt =====
-- Values for the tests: quantities without suffixes, backends, nodes.
use inferops.Base.{
  ℕ, ◌+◌, ◌*◌, ◌-◌, min, [], ◌∷◌, false, ◌&&◌, if◌then◌else◌, Option, none, some, Str, codes, ℤ,
  pos, negsuc, InRange, ◌<ℤ◌, arith, ltb, leb,
}
use inferops.Kube.{Quantities, Node, node_ready, condition_true}
use inferops.Routing.Types.{Backend, State, TrafficPolicy, least_loaded, RoutingStrategy}

digits : ℕ → Str → Option ℕ
digits n [] = some n
digits n (c ∷ s) = if leb 48 c && leb c 57 then digits (n * 10 + (c - 48)) s else none

-- A quantity that is a plain decimal number.
unfoldable pub parse_decimal : Str → Option ℕ
unfolding digits
parse_decimal [] = none
parse_decimal (c ∷ s) = digits 0 (c ∷ s)

abbrev pub int64_of : ℕ → ℤ
int64_of n = pos (min n 9223372036854775807)

pub value_range : (n : ℕ) → InRange (int64_of n)
value_range n = omega arith

pub sign_positive : (n : ℕ) → pos 0 <ℤ pos (min n 1) → pos 0 <ℤ int64_of n
sign_positive n h = omega arith

unfoldable pub mul_checked : ℕ → ℤ → Option ℕ
mul_checked n (pos k) = if ltb (n * k) 9223372036854775808 then some (n * k) else none
mul_checked n (negsuc k) = none

abbrev pub decimal_quantities : Quantities
decimal_quantities = record {
  Quantity = ℕ;
  zero_quantity = 0;
  parse = parse_decimal;
  sign = λ n. pos (min n 1);
  value = int64_of;
  mul = mul_checked;
  cmp_lt = ltb;
  value-InRange = value_range;
  value_positive = sign_positive;
}

abbrev pub gpu_resource : Str
gpu_resource = codes "nvidia.com/gpu"

-- A Ready node with so many GPUs and a label for their type.
abbrev pub gpu_node : Str → ℕ → Node ℕ
gpu_node name gpus = record {
  name = name;
  uid = name;
  labels = (codes "inferops.dev/gpu-type", codes "L4") ∷ [];
  annotations = (codes "inferops.dev/cache-capacity", codes "1000") ∷ [];
  unschedulable = false;
  taints = [];
  conditions = record { type = node_ready; status = condition_true } ∷ [];
  allocatable = (gpu_resource, gpus) ∷ [];
}

abbrev pub policy_of : RoutingStrategy → ℕ → TrafficPolicy
policy_of strategy weight = record {
  routing_strategy = strategy;
  weight = some (pos weight);
  rate_limit = none;
  request_logging = none;
}

abbrev pub backend_of : Str → Str → State → ℕ → Backend
backend_of name prefix state weight = record {
  name = name;
  namespace = codes "ns";
  route_prefix = prefix;
  endpoint = some (record { scheme = codes "http"; host = codes "10.0.0.1:80"; path = [] });
  state = state;
  message = [];
  policy = policy_of least_loaded weight;
}
