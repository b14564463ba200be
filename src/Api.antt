-- ===== src/Api.antt =====
-- api/v1alpha1: the custom resources that the controllers reconcile, by the fields that they read
-- or write, and the requests that they send to the NetBird API.
pub mod Requests
pub mod Services
pub mod Proxies
pub mod Workload
use netbird_operator.Prelude.Int.{ℤ}
use netbird_operator.Prelude.{ℕ, Bool, Option, List, Str}

-- `metav1.ObjectMeta`; `deleting` is a deletion timestamp that is set.
pub record Meta : Type 0 where
  pub name : Str
  pub namespace : Str
  pub uid : Str
  pub deleting : Bool
  pub finalizers : List Str

-- The Ready condition: absent, True with reason Reconciled, False with reason Dependency.
pub data Ready : Type 0 where
  unset : Ready
  reconciled : Ready
  dependency : Str → Ready

pub record Object (S T : Type 0) : Type 0 where
  pub meta : Meta
  pub ready : Ready
  pub spec : S
  pub status : T

-- `CrossNamespaceReference`
pub record Reference : Type 0 where
  pub name : Str
  pub namespace : Str

-- `GroupReference`; the CRD admits exactly one field that is set.
pub record GroupReference : Type 0 where
  pub name : Option Str
  pub id : Option Str
  pub local_ref : Option Str

pub record NetworkSpec : Type 0 where
  pub name : Str
  pub description : Str

pub record NetworkStatus : Type 0 where
  pub network_id : Str

pub record NetworkResourceSpec : Type 0 where
  pub network_ref : Reference
  pub name : Str
  pub address : Str
  pub description : Str
  pub groups : List GroupReference
  pub enabled : Bool

pub record NetworkResourceStatus : Type 0 where
  pub network_id : Str
  pub resource_id : Str

pub record DnsZoneSpec : Type 0 where
  pub name : Str
  pub domain : Str
  pub distribution_groups : List GroupReference
  pub enable_search_domain : Option Bool
  pub enabled : Bool

pub record DnsZoneStatus : Type 0 where
  pub zone_id : Str

pub record DnsRecordSpec : Type 0 where
  pub zone_ref : Reference
  pub name : Str
  pub type : Str
  pub content : Str
  pub ttl : ℕ

pub record DnsRecordStatus : Type 0 where
  pub zone_id : Str
  pub record_id : Str

pub record GroupSpec : Type 0 where
  pub name : Str

pub record GroupStatus : Type 0 where
  pub group_id : Str

pub record SetupKeySpec : Type 0 where
  pub name : Str
  pub ephemeral : Bool
  pub allow_extra_dns_labels : Bool
  -- nanoseconds
  pub duration : Option ℤ
  pub auto_groups : List GroupReference

pub record SetupKeyStatus : Type 0 where
  pub setup_key_id : Str

pub record RouterDeploy : Type 0 where
  pub node_selector : List (Str × Str)
  pub image : Str
  pub log_level : Str

pub record NetworkRouterSpec : Type 0 where
  pub network_ref : Reference
  pub group : Option GroupReference
  pub deploy : Option RouterDeploy
  pub masquerade : Bool
  pub metric : ℕ
  pub enabled : Bool

pub record NetworkRouterStatus : Type 0 where
  pub network_id : Str
  pub group_id : Str
  pub router_id : Str

abbrev pub Network : Type 0
Network = Object NetworkSpec NetworkStatus

abbrev pub NetworkResource : Type 0
NetworkResource = Object NetworkResourceSpec NetworkResourceStatus

abbrev pub DnsZone : Type 0
DnsZone = Object DnsZoneSpec DnsZoneStatus

abbrev pub DnsRecord : Type 0
DnsRecord = Object DnsRecordSpec DnsRecordStatus

abbrev pub Group : Type 0
Group = Object GroupSpec GroupStatus

abbrev pub SetupKey : Type 0
SetupKey = Object SetupKeySpec SetupKeyStatus

abbrev pub NetworkRouter : Type 0
NetworkRouter = Object NetworkRouterSpec NetworkRouterStatus
