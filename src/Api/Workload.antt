-- ===== src/Api/Workload.antt =====
-- The Deployments and Services that the controllers apply, by the fields that they set (packages
-- appsv1ac and corev1ac).
use netbird_operator.Prelude.{ℕ, Bool, Option, List, Str}

pub data EnvValue : Type 0 where
  text : Str → EnvValue
  -- the name of the Secret and the key
  secret_key : Str → Str → EnvValue
  field_path : Str → EnvValue

pub record EnvVar : Type 0 where
  pub name : Str
  pub value : EnvValue

-- A probe by HTTP; a threshold or period that is not set is `none`.
pub record Probe : Type 0 where
  pub path : Str
  pub port : ℕ
  pub failure_threshold : Option ℕ
  pub period_seconds : Option ℕ

pub record SecurityContext : Type 0 where
  pub allow_privilege_escalation : Option Bool
  pub read_only_root_filesystem : Option Bool
  pub run_as_non_root : Option Bool
  pub dropped : List Str
  pub added : List Str

pub record VolumeMount : Type 0 where
  pub name : Str
  pub mount_path : Str
  pub read_only : Bool

pub record Container : Type 0 where
  pub name : Str
  pub image : Str
  pub args : List Str
  pub ports : List (Str × ℕ)
  pub env : List EnvVar
  pub startup_probe : Option Probe
  pub readiness_probe : Option Probe
  pub liveness_probe : Option Probe
  pub security_context : SecurityContext
  -- resource name and quantity
  pub requests : List (Str × Str)
  pub volume_mounts : List VolumeMount

pub record TopologySpread : Type 0 where
  pub max_skew : ℕ
  pub topology_key : Str
  pub when_unsatisfiable : Str
  pub match_labels : List (Str × Str)

pub record PodSpec : Type 0 where
  pub container : Container
  pub dns_options : List (Str × Str)
  -- volumes of a Secret, by name and Secret
  pub volumes : List (Str × Str)
  pub service_account_name : Str
  pub topology_spread : List TopologySpread

-- `labels` are those of the object, of its selector and of its pods.
pub record Deployment : Type 0 where
  pub labels : List (Str × Str)
  pub replicas : ℕ
  pub pod : PodSpec

pub record ServicePort : Type 0 where
  pub name : Str
  pub port : ℕ
  pub target_port : ℕ

pub record ServiceSpec : Type 0 where
  pub type : Str
  pub ip_family_policy : Str
  pub selector : List (Str × Str)
  pub ports : List ServicePort
  pub annotations : List (Str × Str)
