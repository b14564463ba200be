-- ===== src/LoadBalancer.antt =====
-- internal/controller/loadbalancer_controller.go, and the names of internal/controller/serviceaddr.go:
-- the addresses of a LoadBalancer Service, advertised as resources and records.
pub mod Words
pub mod Reconcile
pub mod Laws
use netbird_operator.Prelude.{
  ℕ, ◌+◌, Bool, true, false, not, ◌&&◌, Option, none, some, List, [], ◌∷◌, ◌++◌, map, Str, bytes,
  is_empty, str_eq, if◌then◌else◌, get_or,
}
use netbird_operator.Runtime.{Error, Result, ok, err, dependency_not_ready}
use netbird_operator.Runtime.Exec.{Exec, pure, raise, modify, gets, attempt, continue, ◌>>=◌, ◌>>◌}
use netbird_operator.Api.{
  Meta, Reference, GroupReference, Network, NetworkResourceSpec, DnsRecordSpec, DnsZoneSpec,
}
use netbird_operator.Api.Requests.{OwnerReference}
use netbird_operator.Server.{Call, Server, Library, World, Child, ask, ignore_not_found}
use netbird_operator.Gateway.Collect.{mem}
use netbird_operator.Mirror.{Requeue, done, requeue_after, resync_interval, dependency_retry}
use netbird_operator.SetupKeyController.{controller_reference}
use netbird_operator.LoadBalancer.Words.{to_lower, words}

-- `corev1.Service`, by what the controller reads; the last field has the `IP` of each ingress.
pub record Service : Type 0 where
  pub meta : Meta
  pub is_load_balancer : Bool
  pub annotations : List (Str × Str)
  pub ingress : List Str

-- The configuration of `LoadBalancerReconciler`.
pub record Config : Type 0 where
  pub default_advertise : Bool
  pub namespace : Str
  pub network : Str
  pub dns_zone : Str
  pub dns_zone_groups : List Str
  pub default_groups : List Str

pub data IpFamily : Type 0 where
  ipv4 ipv6 : IpFamily

abbrev family_text : IpFamily → Str
family_text ipv4 = bytes "IPv4"
family_text ipv6 = bytes "IPv6"

-- `familyAddress`
pub record FamilyAddress : Type 0 where
  pub family : IpFamily
  pub address : Str

-- `childName`
abbrev pub child_name : Str → IpFamily → Str
child_name svc_name family = svc_name ++ (b'-' ∷ to_lower (family_text family))

-- `serviceFQDN`
abbrev pub service_fqdn : Str → Str → Str → Str
service_fqdn svc_name svc_namespace zone_domain =
    svc_name ++ (b'-' ∷ (svc_namespace ++ (b'.' ∷ zone_domain)))

-- `dnsRecordTTL`, in seconds
abbrev pub dns_record_ttl : ℕ
dns_record_ttl = 300

-- `v, ok := annotations[key]`
abbrev pub get_annotation : Str → List (Str × Str) → Option Str
get_annotation key [] = none
get_annotation key ((k, v) ∷ rest) = if str_eq k key then some v else get_annotation key rest

abbrev pub advertise_annotation : Str
advertise_annotation = bytes "netbird.io/advertise"

abbrev pub groups_annotation : Str
groups_annotation = bytes "netbird.io/groups"

abbrev advertise_value : Option Str → Option Str → Bool → Bool
advertise_value (some v) o default = str_eq v (bytes "true")
advertise_value none (some v) default = str_eq v (bytes "true")
advertise_value none none default = default

-- `shouldAdvertise`, from the annotations of the Service and of its namespace.
unfoldable pub should_advertise : List (Str × Str) → List (Str × Str) → Bool → Bool
should_advertise svc ns default =
    advertise_value (get_annotation advertise_annotation svc)
      (get_annotation advertise_annotation ns) default

-- `annotation`: a missing key of the namespace is the empty text.
abbrev pub annotation : List (Str × Str) → List (Str × Str) → Str → Str
annotation svc ns key = get_or (get_annotation key svc) (get_or (get_annotation key ns) [])

-- `resourceGroups`
unfoldable pub resource_groups : Config → List (Str × Str) → List (Str × Str) → List Str
resource_groups cfg svc ns =
    let v = annotation svc ns groups_annotation in
    if is_empty v then cfg.default_groups else words v

-- `groupReferences`
abbrev pub group_references : List Str → List GroupReference
group_references names = map (λ n. record { name = some n; id = none; local_ref = none }) names

-- `ip_family` is `net.ParseIP` and `To4`: the family of a text that is an IP.
module _ (ip_family : Str → Option IpFamily) where
  abbrev address_of : Str → Option FamilyAddress
  address_of ip = elim (ip_family ip) [
    | none ↦ none
    | some family ↦ if is_empty ip then none else some (record { family = family; address = ip })
  ]

  -- `lbIngressAddresses`, on the ingress of the Service.
  unfoldable pub lb_ingress_addresses : List Str → List FamilyAddress
  lb_ingress_addresses [] = []
  lb_ingress_addresses (ip ∷ ips) = elim (address_of ip) [
    | none ↦ lb_ingress_addresses ips
    | some fa ↦ fa ∷ lb_ingress_addresses ips
  ]

  abbrev pub record_type : IpFamily → Str
  record_type ipv4 = bytes "A"
  record_type ipv6 = bytes "AAAA"

  -- `dnsRecordTypeFor`
  abbrev pub dns_record_type_for : Str → Option Str
  dns_record_type_for ip = elim (ip_family ip) [
    | none ↦ none
    | some family ↦ some (record_type family)
  ]

-- The NetworkResource of one address.
abbrev pub resource_child :
    OwnerReference → Service → Network → List GroupReference → FamilyAddress → Child
resource_child owner svc network groups fa =
    Child.network_resource owner
      (record { name = child_name svc.meta.name fa.family; namespace = svc.meta.namespace })
      svc.meta.name
      (record {
        network_ref = record { name = network.meta.name; namespace = network.meta.namespace };
        name = svc.meta.name ++ (b'-' ∷ (svc.meta.namespace ++ (b'-' ∷ family_text fa.family)));
        address = fa.address;
        description = [];
        groups = groups;
        enabled = true;
      })

-- The DNSRecord of one address, in the zone that the operator owns.
abbrev pub record_child : OwnerReference → Service → Config → FamilyAddress → Str → Child
record_child owner svc cfg fa type =
    Child.dns_record owner
      (record { name = child_name svc.meta.name fa.family; namespace = svc.meta.namespace })
      svc.meta.name
      (record {
        zone_ref = record { name = cfg.dns_zone; namespace = cfg.namespace };
        name = service_fqdn svc.meta.name svc.meta.namespace cfg.dns_zone;
        type = type;
        content = fa.address;
        ttl = dns_record_ttl;
      })

abbrev pub zone_child : Config → Child
zone_child cfg =
    Child.dns_zone (record { name = cfg.dns_zone; namespace = cfg.namespace })
      (record {
        name = cfg.dns_zone;
        domain = cfg.dns_zone;
        distribution_groups = group_references cfg.dns_zone_groups;
        enable_search_domain = none;
        enabled = true;
      })
