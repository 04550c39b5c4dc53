-- ===== src/Kube.antt =====
-- The parts of Kubernetes objects that the program reads (k8s.io/api/core/v1), and the functions
-- of k8s.io/apimachinery that it calls. Those functions are not part of the repository: they are
-- parameters, the fields of `Quantities` and `NameRules`.
use inferops.Base.{ℤ, pos, ◌<ℤ◌, Bool, List, Option, none, some, Str, InRange, codes}

-- `resource.Quantity`: `sign` and `value` are `Sign()` and `Value()`, `parse` is `ParseQuantity`
-- with `none` for an error, `mul` is `Mul` with `none` for an overflow, `cmp_lt a b` is
-- `a.Cmp(b) < 0`, and `zero_quantity` is the zero value that Go reads at a missing key.
pub record Quantities : Type 1 where
  pub Quantity : Type 0
  pub zero_quantity : Quantity
  pub parse : Str → Option Quantity
  pub sign : Quantity → ℤ
  pub value : Quantity → ℤ
  pub mul : Quantity → ℤ → Option Quantity
  pub cmp_lt : Quantity → Quantity → Bool
  -- `Value` is an `int64`, and rounds away from zero.
  pub value-InRange : (q : Quantity) → InRange (value q)
  pub value_positive : (q : Quantity) → pos 0 <ℤ sign q → pos 0 <ℤ value q

-- Package validation: whether `IsQualifiedName` and `IsValidLabelValue` return no message.
pub record NameRules : Type 0 where
  pub is_qualified_name : Str → Bool
  pub is_valid_label_value : Str → Bool

-- Package validation again: whether `IsDNS1035Label`, `IsDNS1123Subdomain` and `IsEnvVarName` return
-- no message; and `time.ParseDuration`, `none` for an error.
pub record ObjectRules : Type 0 where
  pub is_dns1035_label : Str → Bool
  pub is_dns1123_subdomain : Str → Bool
  pub is_env_var_name : Str → Bool
  pub parse_duration : Str → Option ℤ

pub record NodeCondition : Type 0 where
  pub type : Str
  pub status : Str

pub record Taint : Type 0 where
  pub key : Str
  pub value : Str
  pub effect : Str

pub record Node (Q : Type 0) : Type 0 where
  pub name : Str
  pub uid : Str
  pub labels : List (Str × Str)
  pub annotations : List (Str × Str)
  pub unschedulable : Bool
  pub taints : List Taint
  pub conditions : List NodeCondition
  pub allocatable : List (Str × Q)

abbrev pub node_ready : Str
node_ready = codes "Ready"

abbrev pub condition_true : Str
condition_true = codes "True"

abbrev pub condition_false : Str
condition_false = codes "False"

abbrev pub effect_no_schedule : Str
effect_no_schedule = codes "NoSchedule"

abbrev pub effect_no_execute : Str
effect_no_execute = codes "NoExecute"

-- `discoveryv1.EndpointSlice`: a deletion timestamp counts as set or not, and `service_label` is
-- what `Labels` has at `LabelServiceName`, empty if it has nothing there.
pub record EndpointPort : Type 0 where
  pub name : Option Str
  pub protocol : Option Str
  pub port : Option ℤ

pub record Endpoint : Type 0 where
  pub addresses : List Str
  pub ready : Option Bool
  pub terminating : Option Bool

pub record EndpointSlice : Type 0 where
  pub service_label : Str
  pub is_deleting : Bool
  pub ports : List EndpointPort
  pub endpoints : List Endpoint

-- The fields `Conditions.Terminating` and `Conditions.Ready` of an endpoint.
abbrev pub or_bool : Bool → Option Bool → Bool
or_bool default none = default
or_bool default (some value) = value

-- `corev1.Service` and its parts. `target_port` is `TargetPort` if that is a string.
pub record OwnerReference : Type 0 where
  pub api_version : Str
  pub kind : Str
  pub name : Str
  pub uid : Str
  pub controller : Option Bool

pub record ServicePort : Type 0 where
  pub name : Str
  pub protocol : Str
  pub port : ℤ
  pub target_port : Option Str

pub record Service : Type 0 where
  pub namespace : Str
  pub name : Str
  pub is_deleting : Bool
  pub labels : List (Str × Str)
  pub owner_references : List OwnerReference
  pub selector : List (Str × Str)
  pub type : Str
  pub cluster_ip : Str
  pub ports : List ServicePort

abbrev pub protocol_tcp : Str
protocol_tcp = codes "TCP"

abbrev pub effect_prefer_no_schedule : Str
effect_prefer_no_schedule = codes "PreferNoSchedule"
