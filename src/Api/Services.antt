-- ===== src/Api/Services.antt =====
-- Backend Services of the cluster and reverse-proxy services of the NetBird API.
use netbird_operator.Prelude.Int.{ℤ}
use netbird_operator.Prelude.{ℕ, Bool, Option, List, Str}

-- `corev1.ServicePort`, whose port is an int32.
pub record ServicePort : Type 0 where
  pub port : ℤ
  pub name : Str

-- `corev1.Service` as a backend.
pub record BackendService : Type 0 where
  pub is_load_balancer : Bool
  -- the text of its type
  pub type_text : Str
  pub ports : List ServicePort

-- `api.ServiceRequestMode`
pub data ServiceMode : Type 0 where
  http tcp tls udp : ServiceMode

-- `api.ServiceTargetProtocol`
pub data TargetProtocol : Type 0 where
  http tcp udp : TargetProtocol

pub data TargetType : Type 0 where
  cluster host : TargetType

-- `api.ServiceTargetOptions`
pub record TargetOptions : Type 0 where
  pub direct_upstream : Option Bool
  pub proxy_protocol : Option Bool

-- `api.ServiceTarget`
pub record ServiceTarget : Type 0 where
  pub enabled : Bool
  pub host : Option Str
  pub path : Option Str
  pub port : ℤ
  pub protocol : TargetProtocol
  pub target_type : TargetType
  pub target_id : Str
  pub options : Option TargetOptions

-- `api.AccessRestrictions`
pub record ApiRestrictions : Type 0 where
  pub crowdsec_mode : Option Str
  pub allowed_cidrs : Option (List Str)
  pub blocked_cidrs : Option (List Str)
  pub allowed_countries : Option (List Str)
  pub blocked_countries : Option (List Str)

-- `api.ServiceRequest`
pub record ServiceRequest : Type 0 where
  pub domain : Str
  pub enabled : Bool
  pub mode : ServiceMode
  pub name : Str
  pub targets : List ServiceTarget
  pub pass_host_header : Option Bool
  pub rewrite_redirects : Option Bool
  pub private : Option Bool
  pub access_groups : Option (List Str)
  pub listen_port : Option ℕ
  pub access_restrictions : Option ApiRestrictions
