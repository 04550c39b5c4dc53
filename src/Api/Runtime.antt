-- ===== src/Api/Runtime.antt =====
-- `ModelRuntime` (operator/api/v1alpha1/modelruntime_types.go), and the names that the operator and
-- the gateway share (internal/runtimecontract/service.go, operator/internal/templates/templates.go).
use inferops.Base.{◌++◌, List, Str, codes, ℤ, pos}

pub record ModelRuntimeSpec : Type 0 where
  pub engine : Str
  pub protocol : Str
  pub default_image : Str
  pub port : ℤ
  pub health_path : Str
  pub readiness_path : Str
  pub metrics_path : Str
  pub command : List Str
  pub args : List Str
  pub env : List (Str × Str)

-- Of the object's metadata, the name.
pub record ModelRuntime : Type 0 where
  pub name : Str
  pub spec : ModelRuntimeSpec

abbrev pub protocol_openai : Str
protocol_openai = codes "openai"

abbrev pub http_port_name : Str
http_port_name = codes "http"

abbrev pub model_deployment_label : Str
model_deployment_label = codes "inferops.dev/modeldeployment"

-- `ServiceName`.
abbrev pub service_name_of : Str → Str
service_name_of deployment_name = deployment_name ++ codes "-runtime"

abbrev pub runtime_http_port : ℤ
runtime_http_port = pos 8000

abbrev pub runtime_health_path : Str
runtime_health_path = codes "/health"

abbrev pub runtime_metrics_path : Str
runtime_metrics_path = codes "/metrics"

abbrev pub default_gpu_vendor : Str
default_gpu_vendor = codes "nvidia"
