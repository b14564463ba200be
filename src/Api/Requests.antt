-- ===== src/Api/Requests.antt =====
-- The request and answer types of the NetBird API, by the fields that the operator uses, and the
-- children that the operator applies to the cluster.
use netbird_operator.Prelude.Int.{ℤ}
use netbird_operator.Prelude.{ℕ, Bool, Option, List, Str}

pub record NetworkRequest : Type 0 where
  pub name : Str
  pub description : Option Str

pub record ResourceRequest : Type 0 where
  pub address : Str
  pub enabled : Bool
  pub groups : List Str
  pub name : Str
  pub description : Option Str

pub record ZoneRequest : Type 0 where
  pub name : Str
  pub domain : Str
  pub distribution_groups : List Str
  pub enable_search_domain : Bool
  pub enabled : Bool

pub record RecordRequest : Type 0 where
  pub content : Str
  pub name : Str
  pub ttl : ℕ
  pub type : Str

pub record RouterRequest : Type 0 where
  pub enabled : Bool
  pub masquerade : Bool
  pub metric : ℕ
  pub peer_groups : List Str

-- `Peers` and `Resources` are sent back as they were read; a create leaves them out.
pub record GroupRequest : Type 0 where
  pub name : Str
  pub peers : Option (List Str)
  pub resources : Option (List Str)

pub record SetupKeyRequest : Type 0 where
  pub allow_extra_dns_labels : Bool
  pub auto_groups : List Str
  pub ephemeral : Bool
  pub expires_in : ℤ
  pub name : Str
  pub type : Str
  pub usage_limit : ℕ

-- `api.Zone`
pub record Zone : Type 0 where
  pub id : Str
  pub name : Str

-- `api.DNSRecord`
pub record Record : Type 0 where
  pub id : Str
  pub name : Str
  pub type : Str
  pub content : Str

-- `api.Group`
pub record GroupInfo : Type 0 where
  pub id : Str
  pub peers : List Str
  pub resources : List Str

pub data KeyState : Type 0 where
  valid overused other : KeyState

-- `api.SetupKey`
pub record KeyInfo : Type 0 where
  pub id : Str
  pub key : Str
  pub state : KeyState

-- `api.ProxyCluster`
pub record ProxyCluster : Type 0 where
  pub address : Str
  pub online : Bool
  pub connected_proxies : ℕ

-- The owner reference that `k8sutil.ControllerReference` builds.
pub record OwnerReference : Type 0 where
  pub api_version : Str
  pub kind : Str
  pub name : Str
  pub uid : Str
  pub controller : Bool
  pub block_owner_deletion : Bool

-- `appsv1.DaemonSet` status.
pub record DaemonSetStatus : Type 0 where
  pub desired_number_scheduled : ℕ
  pub number_ready : ℕ
