-- ===== src/ProxyCluster/Address.antt =====
-- The addresses of a reverse-proxy cluster and the records that publish them
-- (reverseproxycluster_controller.go).
use netbird_operator.Prelude.{
  Bool, true, false, Option, none, some, List, [], ◌∷◌, ◌++◌, any, Str, bytes, if◌then◌else◌,
}
use netbird_operator.Runtime.{Result, ok, err}
use netbird_operator.Runtime.Exec.{Exec, pure, raise, attempt, ◌>>=◌, ◌>>◌}
use netbird_operator.Api.{Reference}
use netbird_operator.Api.Requests.{OwnerReference}
use netbird_operator.Api.Proxies.{ReverseProxyCluster}
use netbird_operator.Server.{Call, Server, Library, World, Child, ask}
use netbird_operator.Gateway.Collect.{mem}
use netbird_operator.LoadBalancer.{
  IpFamily, ipv4, ipv6, FamilyAddress, lb_ingress_addresses, dns_record_type_for, dns_record_ttl,
}
use netbird_operator.LoadBalancer.Words.{to_lower}
use netbird_operator.ProxyCluster.Workload.{proxy_resource_name, proxy_reference}

abbrev pub family_eq : IpFamily → IpFamily → Bool
family_eq ipv4 ipv4 = true
family_eq ipv4 ipv6 = false
family_eq ipv6 ipv4 = false
family_eq ipv6 ipv6 = true

abbrev pub seen_family : IpFamily → List IpFamily → Bool
seen_family family = any (family_eq family)

-- The loop of `serviceAddresses`, with its map `seen`.
unfoldable pub first_addresses : List FamilyAddress → List IpFamily → List FamilyAddress
first_addresses [] seen = []
first_addresses (fa ∷ fas) seen =
    let skip = first_addresses fas seen in
    let kept = first_addresses fas (fa.family ∷ seen) in
    if seen_family fa.family seen then skip else fa ∷ kept

-- `proxyAddressRecordName`
abbrev proxy_address_record_name : ReverseProxyCluster → Str → Str
proxy_address_record_name rpc record_type = proxy_resource_name rpc ++ (b'-' ∷ to_lower record_type)

-- The record of one address.
abbrev pub address_record_child :
    OwnerReference → ReverseProxyCluster → Reference → Str → Str → Child
address_record_child owner rpc zone_ref record_type address =
    Child.address_record owner
      (record { name = proxy_address_record_name rpc record_type; namespace = rpc.meta.namespace })
      (record {
        zone_ref = zone_ref;
        name = rpc.spec.cluster_address;
        type = record_type;
        content = address;
        ttl = dns_record_ttl;
      })

-- The record of every name under the domain.
abbrev pub catch_all_child : OwnerReference → ReverseProxyCluster → Reference → Child
catch_all_child owner rpc zone_ref =
    Child.address_record owner
      (record {
        name = proxy_resource_name rpc ++ bytes "-catchall";
        namespace = rpc.meta.namespace;
      })
      (record {
        zone_ref = zone_ref;
        name = bytes "*." ++ rpc.spec.domain;
        type = bytes "CNAME";
        content = rpc.spec.cluster_address;
        ttl = dns_record_ttl;
      })

abbrev pub address_types : List Str
address_types = bytes "A" ∷ bytes "AAAA" ∷ []

module _ (server : Server ReverseProxyCluster) (lib : Library)
    (ip_family : Str → Option IpFamily) where
  abbrev ingress_addresses : Result (List Str) → List FamilyAddress
  ingress_addresses (err e) = []
  ingress_addresses (ok ips) = first_addresses (lb_ingress_addresses ip_family ips) []

  -- `serviceAddresses`; no address and `false` is the empty list.
  unfoldable pub service_addresses :
      ReverseProxyCluster → Exec (World ReverseProxyCluster) (List FamilyAddress)
  unfolding first_addresses
  service_addresses rpc = do
    let ref = proxy_reference rpc
    ips ← attempt (ask (Call.kube_ingress ref) (λ h. server.kube_ingress h ref))
    pure (ingress_addresses ips)

  module _ (owner : OwnerReference) (rpc : ReverseProxyCluster) (zone_ref : Reference) where
    abbrev apply_child : Child → Exec (World ReverseProxyCluster) (Unit {0})
    apply_child child = ask (Call.apply child) (λ h. server.apply h child)

    -- The first loop of `applyRecords`, with the types in its map `published`.
    unfoldable pub publish_loop :
        List FamilyAddress → List Str → Exec (World ReverseProxyCluster) (List Str)
    publish_loop [] published = pure published
    publish_loop (fa ∷ fas) published = elim (dns_record_type_for ip_family fa.address) [
      | none ↦ publish_loop fas published
      | some type ↦ elim (mem type published) [
        | true ↦ publish_loop fas published
        | false ↦ do
          apply_child (address_record_child owner rpc zone_ref type fa.address)
          publish_loop fas (type ∷ published)
      ]
    ]

    abbrev pub record_reference : Str → Reference
    record_reference type = record {
      name = proxy_address_record_name rpc type;
      namespace = rpc.meta.namespace;
    }

    abbrev pub ignore_missing : Result (Unit {0}) → Exec (World ReverseProxyCluster) (Unit {0})
    ignore_missing (ok _) = pure tt
    ignore_missing (err e) = if lib.kube_is_not_found e then pure tt else raise e

    abbrev pub delete_stale : Str → Exec (World ReverseProxyCluster) (Unit {0})
    delete_stale type = do
      deleted ← attempt (
          ask (Call.delete_record (record_reference type))
            (λ h. server.delete_record h (record_reference type)))
      ignore_missing deleted

    -- The second loop of `applyRecords`.
    unfoldable pub stale_loop : List Str → List Str → Exec (World ReverseProxyCluster) (Unit {0})
    stale_loop [] published = pure tt
    stale_loop (type ∷ types) published = do
      if mem type published then pure tt else delete_stale type
      stale_loop types published

    -- `applyRecords`
    unfoldable pub apply_records : List FamilyAddress → Exec (World ReverseProxyCluster) (Unit {0})
    unfolding publish_loop stale_loop
    apply_records addrs = do
      published ← publish_loop addrs []
      stale_loop address_types published
      apply_child (catch_all_child owner rpc zone_ref)
