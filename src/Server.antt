-- ===== src/Server.antt =====
-- What the controllers call: the NetBird API, the Kubernetes API, and a few library functions. A
-- call is recorded, newest first, and a `Server` answers it from the calls that went before, so
-- that a theorem over every `Server` covers whatever the outside world does between two calls.
use netbird_operator.Prelude.{ℕ, Bool, true, false, List, ◌∷◌, Str}
use netbird_operator.Runtime.{Error, Result, ok, err}
use netbird_operator.Runtime.Exec.{Exec}
use netbird_operator.Cache.{ListCache}
use netbird_operator.Api.{
  SetupKeySpec, NetworkResource, DnsRecord, NetworkResourceSpec, DnsRecordSpec, DnsZoneSpec,
  Reference, Network, DnsZone, Group, SetupKey,
}
use netbird_operator.Api.Proxies.{
  ReverseProxyCluster, ReverseProxyClusterSpec, ReverseProxyClusterParametersSpec, ProxyDomain,
  DomainRequest, TokenInfo,
}
use netbird_operator.Api.Workload.{Deployment, ServiceSpec}
use netbird_operator.Gateway.Types.{Gateway, Route, ProxyBackend}
use netbird_operator.Api.Services.{ServiceRequest, BackendService}
use netbird_operator.Api.Requests.{
  NetworkRequest, ResourceRequest, ZoneRequest, RecordRequest, RouterRequest, GroupRequest,
  SetupKeyRequest, Zone, Record, GroupInfo, KeyInfo, ProxyCluster, OwnerReference, DaemonSetStatus,
}

-- The spec of a ReverseProxyService that an HTTPRoute makes; the others of its fields are not set.
pub record RouteServiceSpec : Type 0 where
  pub domain : Str
  pub proxy_cluster : Str
  pub pass_host_header : Bool
  pub backends : List ProxyBackend

-- The children applied to the cluster, owner first.
pub data Child : Type 0 where
  -- namespace, name, group name
  group : OwnerReference → Str → Str → Str → Child
  -- namespace, name, key name, local group reference
  setup_key : OwnerReference → Str → Str → Str → Str → Child
  -- namespace, name, image, log level, management URL, secret, node selector
  daemon_set : OwnerReference → Str → Str → Str → Str → Str → Str → List (Str × Str) → Child
  -- namespace, name, key
  secret : OwnerReference → Str → Str → Str → Child
  -- the object's key and the value of its load balancer label
  network_resource : OwnerReference → Reference → Str → NetworkResourceSpec → Child
  dns_record : OwnerReference → Reference → Str → DnsRecordSpec → Child
  -- the same without the label
  address_record : OwnerReference → Reference → DnsRecordSpec → Child
  owned_zone : OwnerReference → Reference → DnsZoneSpec → Child
  -- a Secret with one entry
  secret_entry : OwnerReference → Reference → Str × Str → Child
  deployment : OwnerReference → Reference → Deployment → Child
  service : OwnerReference → Reference → ServiceSpec → Child
  proxy_setup_key : OwnerReference → Reference → SetupKeySpec → Child
  proxy_cluster : OwnerReference → Reference → ReverseProxyClusterSpec → Child
  -- with the value of its route label
  proxy_service : OwnerReference → Reference → Str → RouteServiceSpec → Child
  -- without an owner: name, controller name and description
  gateway_class : Str → Str → Str → Child
  -- without an owner
  dns_zone : Reference → DnsZoneSpec → Child

-- `O` is the object under reconciliation; the flag of `patch` is `WithStatusObservedGeneration`.
pub data Call (O : Type 0) : Type 0 where
  get : Reference → Call O
  patch : Bool → O → Call O
  event : Str → Call O
  networks_get : Str → Call O
  networks_update : Str → NetworkRequest → Call O
  networks_create : NetworkRequest → Call O
  networks_delete : Str → Call O
  resources_get : Str → Str → Call O
  resources_update : Str → Str → ResourceRequest → Call O
  resources_create : Str → ResourceRequest → Call O
  resources_delete : Str → Str → Call O
  routers_get : Str → Str → Call O
  routers_update : Str → Str → RouterRequest → Call O
  routers_create : Str → RouterRequest → Call O
  routers_delete : Str → Str → Call O
  zones_list : Call O
  zones_get : Str → Call O
  zones_update : Str → ZoneRequest → Call O
  zones_create : ZoneRequest → Call O
  zones_delete : Str → Call O
  records_list : Str → Call O
  records_get : Str → Str → Call O
  records_update : Str → Str → RecordRequest → Call O
  records_create : Str → RecordRequest → Call O
  records_delete : Str → Str → Call O
  groups_get : Str → Call O
  groups_get_by_name : Str → Call O
  groups_update : Str → GroupRequest → Call O
  groups_create : GroupRequest → Call O
  groups_delete : Str → Call O
  keys_get : Str → Call O
  keys_update : Str → List Str → Call O
  keys_create : SetupKeyRequest → Call O
  keys_delete : Str → Call O
  clusters_list : Call O
  kube_network : Reference → Call O
  kube_zone : Reference → Call O
  kube_zones : Call O
  kube_group : Reference → Call O
  kube_setup_key : Reference → Call O
  kube_secret : Reference → Call O
  kube_daemon_set : Reference → Call O
  apply : Child → Call O
  -- the annotations of a namespace
  kube_namespace : Str → Call O
  kube_networks : Call O
  -- by namespace and the value of the load balancer label
  list_resources : Str → Str → Call O
  list_records : Str → Str → Call O
  delete_resource : Reference → Call O
  delete_record : Reference → Call O
  kube_service : Reference → Call O
  services_update : Str → ServiceRequest → Call O
  services_create : ServiceRequest → Call O
  services_delete : Str → Call O
  -- the name of the token
  tokens_create : Str → Call O
  tokens_delete : Str → Call O
  domains_list : Call O
  domains_create : DomainRequest → Call O
  domains_delete : Str → Call O
  domains_validate : Str → Call O
  clusters_delete : Str → Call O
  kube_clusters : Call O
  kube_cluster : Reference → Call O
  -- the IPs of the ingress of a Service
  kube_ingress : Reference → Call O
  kube_gateway : Reference → Call O
  -- the controller name of a GatewayClass
  kube_class : Str → Call O
  kube_parameters : Reference → Call O
  kube_routes : Call O
  kube_has_secret : Reference → Call O
  status_update : O → Call O
  -- the names of the ReverseProxyServices, by namespace and the value of the route label
  list_services : Str → Str → Call O
  delete_service : Reference → Call O

-- The answers; an API that returns an object of which only the id is read returns the id.
pub record Server (O : Type 0) : Type 0 where
  pub now : List (Call O) → ℕ
  pub get : List (Call O) → Reference → Result O
  pub patch : List (Call O) → Bool → O → Result (Unit {0})
  pub networks_get : List (Call O) → Str → Result (Unit {0})
  pub networks_update : List (Call O) → Str → NetworkRequest → Result Str
  pub networks_create : List (Call O) → NetworkRequest → Result Str
  pub networks_delete : List (Call O) → Str → Result (Unit {0})
  pub resources_get : List (Call O) → Str → Str → Result (Unit {0})
  pub resources_update : List (Call O) → Str → Str → ResourceRequest → Result Str
  pub resources_create : List (Call O) → Str → ResourceRequest → Result Str
  pub resources_delete : List (Call O) → Str → Str → Result (Unit {0})
  pub routers_get : List (Call O) → Str → Str → Result (Unit {0})
  pub routers_update : List (Call O) → Str → Str → RouterRequest → Result Str
  pub routers_create : List (Call O) → Str → RouterRequest → Result Str
  pub routers_delete : List (Call O) → Str → Str → Result (Unit {0})
  pub zones_list : List (Call O) → Result (List Zone)
  pub zones_get : List (Call O) → Str → Result Zone
  pub zones_update : List (Call O) → Str → ZoneRequest → Result Str
  pub zones_create : List (Call O) → ZoneRequest → Result Str
  pub zones_delete : List (Call O) → Str → Result (Unit {0})
  pub records_list : List (Call O) → Str → Result (List Record)
  pub records_get : List (Call O) → Str → Str → Result (Unit {0})
  pub records_update : List (Call O) → Str → Str → RecordRequest → Result Str
  pub records_create : List (Call O) → Str → RecordRequest → Result Str
  pub records_delete : List (Call O) → Str → Str → Result (Unit {0})
  pub groups_get : List (Call O) → Str → Result GroupInfo
  pub groups_get_by_name : List (Call O) → Str → Result GroupInfo
  pub groups_update : List (Call O) → Str → GroupRequest → Result Str
  pub groups_create : List (Call O) → GroupRequest → Result Str
  pub groups_delete : List (Call O) → Str → Result (Unit {0})
  pub keys_get : List (Call O) → Str → Result KeyInfo
  pub keys_update : List (Call O) → Str → List Str → Result (Unit {0})
  pub keys_create : List (Call O) → SetupKeyRequest → Result KeyInfo
  pub keys_delete : List (Call O) → Str → Result (Unit {0})
  pub clusters_list : List (Call O) → Result (List ProxyCluster)
  pub kube_network : List (Call O) → Reference → Result Network
  pub kube_zone : List (Call O) → Reference → Result DnsZone
  pub kube_zones : List (Call O) → Result (List DnsZone)
  pub kube_group : List (Call O) → Reference → Result Group
  pub kube_setup_key : List (Call O) → Reference → Result SetupKey
  -- the value under the setup-key entry of the Secret
  pub kube_secret : List (Call O) → Reference → Result Str
  pub kube_daemon_set : List (Call O) → Reference → Result DaemonSetStatus
  pub apply : List (Call O) → Child → Result (Unit {0})
  pub kube_namespace : List (Call O) → Str → Result (List (Str × Str))
  pub kube_networks : List (Call O) → Result (List Network)
  pub list_resources : List (Call O) → Str → Str → Result (List NetworkResource)
  pub list_records : List (Call O) → Str → Str → Result (List DnsRecord)
  pub delete_resource : List (Call O) → Reference → Result (Unit {0})
  pub delete_record : List (Call O) → Reference → Result (Unit {0})
  pub kube_service : List (Call O) → Reference → Result BackendService
  pub services_update : List (Call O) → Str → ServiceRequest → Result Str
  pub services_create : List (Call O) → ServiceRequest → Result Str
  pub services_delete : List (Call O) → Str → Result (Unit {0})
  pub tokens_create : List (Call O) → Str → Result TokenInfo
  pub tokens_delete : List (Call O) → Str → Result (Unit {0})
  pub domains_list : List (Call O) → Result (List ProxyDomain)
  pub domains_create : List (Call O) → DomainRequest → Result Str
  pub domains_delete : List (Call O) → Str → Result (Unit {0})
  pub domains_validate : List (Call O) → Str → Result (Unit {0})
  pub clusters_delete : List (Call O) → Str → Result (Unit {0})
  pub kube_clusters : List (Call O) → Result (List ReverseProxyCluster)
  pub kube_cluster : List (Call O) → Reference → Result ReverseProxyCluster
  pub kube_ingress : List (Call O) → Reference → Result (List Str)
  pub kube_gateway : List (Call O) → Reference → Result Gateway
  pub kube_class : List (Call O) → Str → Result Str
  pub kube_parameters : List (Call O) → Reference → Result ReverseProxyClusterParametersSpec
  pub kube_routes : List (Call O) → Result (List Route)
  pub kube_has_secret : List (Call O) → Reference → Result (Unit {0})
  pub status_update : List (Call O) → O → Result (Unit {0})
  pub list_services : List (Call O) → Str → Str → Result (List Str)
  pub delete_service : List (Call O) → Reference → Result (Unit {0})

-- Library functions that the controllers call.
pub record Library : Type 0 where
  -- `netbird.IsNotFound` and `kerrors.IsNotFound`
  pub is_not_found : Error → Bool
  pub kube_is_not_found : Error → Bool
  -- `controllerutil.AddFinalizer` and `RemoveFinalizer`, on the list of finalizers
  pub add_finalizer : Str → List Str → List Str
  pub remove_finalizer : Str → List Str → List Str
  -- `apiutil.GVKForObject`: API version and kind of the object under reconciliation
  pub gvk : Result (Str × Str)

pub record World (O : Type 0) : Type 0 where
  pub object : O
  pub zones : ListCache Zone
  pub clusters : ListCache ProxyCluster
  pub history : List (Call O)

-- Make a call: record it, and go on with the answer.
abbrev pub ask : {O A : Type 0} → Call O → (List (Call O) → Result A) → Exec (World O) A
ask c answer w = (answer w.history, record w { history = c ∷ w.history })

-- `client.IgnoreNotFound`
abbrev pub ignore_not_found : {W A : Type 0} → Library → Error → A → Exec W A
ignore_not_found lib e a w = elim (lib.kube_is_not_found e) [
  | true ↦ (ok a, w)
  | false ↦ (err e, w)
]
