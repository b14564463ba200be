-- ===== src/Api/Proxies.antt =====
-- api/v1alpha1: the reverse-proxy clusters, their parameters and the cluster proxy.
use netbird_operator.Prelude.{ℕ, Bool, Option, List, Str}
use netbird_operator.Api.{Object, Reference, GroupReference}

pub record ReverseProxyClusterSpec : Type 0 where
  pub cluster_address : Str
  pub domain : Str
  pub zone_ref : Option Reference
  pub cert_secret_name : Str
  pub groups : List GroupReference
  pub private : Bool
  pub replicas : Option ℕ
  pub image : Str
  pub log_level : Str
  pub service_annotations : List (Str × Str)

pub record ReverseProxyClusterStatus : Type 0 where
  pub cluster_address : Str
  pub token_id : Str
  pub domain_id : Str
  pub load_balancer_ip : Str
  pub online : Bool
  pub connected_proxies : ℕ

abbrev pub ReverseProxyCluster : Type 0
ReverseProxyCluster = Object ReverseProxyClusterSpec ReverseProxyClusterStatus

pub record ReverseProxyClusterParametersSpec : Type 0 where
  pub image : Str
  pub replicas : Option ℕ
  pub log_level : Str
  pub groups : List GroupReference
  pub private : Bool
  pub service_annotations : List (Str × Str)

pub record ClusterProxySpec : Type 0 where
  pub cluster_name : Str
  pub api_server : Str
  pub service_account_name : Str
  pub groups : List GroupReference
  pub replicas : Option ℕ

-- The status has only its conditions.
abbrev pub ClusterProxy : Type 0
ClusterProxy = Object ClusterProxySpec (Unit {0})

-- `api.ReverseProxyDomain`
pub record ProxyDomain : Type 0 where
  pub id : Str
  pub domain : Str
  pub target_cluster : Option Str

-- `api.ReverseProxyDomainRequest`
pub record DomainRequest : Type 0 where
  pub domain : Str
  pub target_cluster : Str

-- The answer to a new enrollment token: `api.ProxyTokenCreated`.
pub record TokenInfo : Type 0 where
  pub id : Str
  pub plain_token : Str
