-- ===== src/LoadBalancer/Reconcile.antt =====
-- `LoadBalancerReconciler.Reconcile`, its zone and the pruning of children.
use netbird_operator.Prelude.{
  map, Bool, not, ◌&&◌, Option, none, some, List, [], ◌∷◌, ◌++◌, Str, bytes, is_empty, str_eq,
  if◌then◌else◌,
}
use netbird_operator.Runtime.{Error, Result, ok, err, dependency_not_ready}
use netbird_operator.Runtime.Exec.{Exec, pure, raise, attempt, ◌>>=◌, ◌>>◌}
use netbird_operator.Api.{NetworkResource, DnsRecord, Reference, GroupReference, Network}
use netbird_operator.Api.Requests.{OwnerReference}
use netbird_operator.Server.{Call, Server, Library, World, ask, ignore_not_found}
use netbird_operator.Gateway.Collect.{mem}
use netbird_operator.Mirror.{Requeue, done, requeue_after, resync_interval, dependency_retry}
use netbird_operator.SetupKeyController.{controller_reference}
use netbird_operator.LoadBalancer.{
  Service, Config, IpFamily, FamilyAddress, child_name, service_fqdn, should_advertise,
  resource_groups, group_references, lb_ingress_addresses, dns_record_type_for, resource_child,
  record_child, zone_child,
}

-- The names of the listed children.
abbrev pub resource_names : List NetworkResource → List Str
resource_names = map (λ r. r.meta.name)

abbrev pub record_names : List DnsRecord → List Str
record_names = map (λ r. r.meta.name)

-- The event of an advertised Service.
abbrev pub advertised_text : Service → Network → Config → Str
advertised_text svc network cfg =
    bytes "advertised over NetBird as "
    ++ (service_fqdn svc.meta.name svc.meta.namespace cfg.dns_zone
        ++ (bytes " (network " ++ (network.meta.name ++ bytes ")")))

module _ (server : Server Service) (lib : Library) where
  abbrev pub ignore_gone : Result (Unit {0}) → Exec (World Service) (Unit {0})
  ignore_gone (ok _) = pure tt
  ignore_gone (err e) = if lib.kube_is_not_found e then pure tt else raise e

  abbrev pub child_at : Service → Str → Reference
  child_at svc name = record { name = name; namespace = svc.meta.namespace }

  abbrev pub remove_resource : Service → Str → Exec (World Service) (Unit {0})
  remove_resource svc name =
      attempt (
        ask (Call.delete_resource (child_at svc name))
          (λ h. server.delete_resource h (child_at svc name)))
      >>= ignore_gone

  abbrev pub remove_record : Service → Str → Exec (World Service) (Unit {0})
  remove_record svc name =
      attempt (
        ask (Call.delete_record (child_at svc name))
          (λ h. server.delete_record h (child_at svc name)))
      >>= ignore_gone

  -- A loop of `prune`, over the names of the listed children.
  unfoldable pub prune_loop :
      (Str → Exec (World Service) (Unit {0}))
      → List Str
      → List Str
      → Exec (World Service) (Unit {0})
  prune_loop remove desired [] = pure tt
  prune_loop remove desired (name ∷ names) = do
    if mem name desired then pure tt else remove name
    prune_loop remove desired names

  -- `prune`
  unfoldable pub prune : Service → List Str → Exec (World Service) (Unit {0})
  unfolding prune_loop
  prune svc desired = do
    let ns = svc.meta.namespace
    let label = svc.meta.name
    resources ← ask (Call.list_resources ns label) (λ h. server.list_resources h ns label)
    prune_loop (remove_resource svc) desired (resource_names resources)
    records ← ask (Call.list_records ns label) (λ h. server.list_records h ns label)
    prune_loop (remove_record svc) desired (record_names records)

  module _ (ip_family : Str → Option IpFamily) (error_string : Error → Str) (cfg : Config) where
    abbrev find_network : List Network → Exec (World Service) Network
    find_network [] =
        raise (dependency_not_ready (bytes "Network \"" ++ (cfg.network ++ bytes "\" not found")))
    find_network (network ∷ networks) =
        if str_eq network.meta.name cfg.network then pure network else find_network networks

    -- `resolveNetwork`
    unfoldable resolve_network : Exec (World Service) Network
    resolve_network = do
      networks ← ask Call.kube_networks (λ h. server.kube_networks h)
      find_network networks

    -- `ensureZone`
    unfoldable pub ensure_zone : Exec (World Service) (Unit {0})
    ensure_zone =
        if is_empty cfg.dns_zone
        then raise (dependency_not_ready (bytes "no LoadBalancer DNSZone configured"))
        else ask (Call.apply (zone_child cfg)) (λ h. server.apply h (zone_child cfg))

    -- `dependencyRequeue`
    abbrev dependency_requeue : Error → Exec (World Service) Requeue
    dependency_requeue e = do
      ask (Call.event (error_string e)) (λ h. ok tt)
      pure (requeue_after dependency_retry)

    module _ (owner : OwnerReference) (svc : Service) (network : Network)
        (groups : List GroupReference) where
      abbrev apply_children : FamilyAddress → Str → Exec (World Service) (Unit {0})
      apply_children fa type = do
        let resource = resource_child owner svc network groups fa
        ask (Call.apply resource) (λ h. server.apply h resource)
        let rec = record_child owner svc cfg fa type
        ask (Call.apply rec) (λ h. server.apply h rec)

      -- The loop of `Reconcile`, with the names in its map `desired`.
      unfoldable pub advertise_loop :
          List FamilyAddress → List Str → Exec (World Service) (List Str)
      advertise_loop [] desired = pure desired
      advertise_loop (fa ∷ fas) desired = elim (dns_record_type_for ip_family fa.address) [
        | none ↦ advertise_loop fas desired
        | some type ↦ do
          apply_children fa type
          advertise_loop fas (child_name svc.meta.name fa.family ∷ desired)
      ]

      -- The end of `Reconcile`.
      unfoldable pub publish : List FamilyAddress → Exec (World Service) Requeue
      unfolding advertise_loop prune
      publish fas = do
        desired ← advertise_loop fas []
        ask (Call.event (advertised_text svc network cfg)) (λ h. ok tt)
        prune svc desired
        pure (requeue_after resync_interval)

    abbrev owned :
        Service
        → Network
        → List GroupReference
        → List FamilyAddress
        → Result OwnerReference
        → Exec (World Service) Requeue
    owned svc network groups fas (err e) = raise e
    owned svc network groups fas (ok owner) = publish owner svc network groups fas

    abbrev zoned :
        Service
        → List (Str × Str)
        → Network
        → List FamilyAddress
        → Result (Unit {0})
        → Exec (World Service) Requeue
    zoned svc ns network fas (err e) = dependency_requeue e
    zoned svc ns network fas (ok _) =
        owned svc network (group_references (resource_groups cfg svc.annotations ns)) fas
          (controller_reference lib svc.meta)

    abbrev networked :
        Service
        → List (Str × Str)
        → List FamilyAddress
        → Result Network
        → Exec (World Service) Requeue
    networked svc ns fas (err e) = dependency_requeue e
    networked svc ns fas (ok network) = do zone ← attempt ensure_zone; zoned svc ns network fas zone

    abbrev addressed :
        Service → List (Str × Str) → List FamilyAddress → Exec (World Service) Requeue
    addressed svc ns [] = pure done
    addressed svc ns (fa ∷ fas) = do
      network ← attempt resolve_network
      networked svc ns (fa ∷ fas) network

    -- The condition `advertise` of `Reconcile`.
    abbrev pub advertises : Service → List (Str × Str) → Bool
    advertises svc ns =
        svc.is_load_balancer
        && not svc.meta.deleting
        && should_advertise svc.annotations ns cfg.default_advertise

    -- `Reconcile`, once the Service and the annotations of its namespace are read.
    unfoldable pub reconcile_service : Service → List (Str × Str) → Exec (World Service) Requeue
    unfolding prune publish resolve_network ensure_zone
    reconcile_service svc ns =
        if advertises svc ns
        then addressed svc ns (lb_ingress_addresses ip_family svc.ingress)
        else do prune svc []; pure done

    abbrev with_namespace : Service → Result (List (Str × Str)) → Exec (World Service) Requeue
    with_namespace svc (err e) = ignore_not_found lib e done
    with_namespace svc (ok ns) = reconcile_service svc ns

    abbrev load : Result Service → Exec (World Service) Requeue
    load (err e) = ignore_not_found lib e done
    load (ok svc) = do
      ns ← attempt (
          ask (Call.kube_namespace svc.meta.namespace)
            (λ h. server.kube_namespace h svc.meta.namespace))
      with_namespace svc ns

    -- `LoadBalancerReconciler.Reconcile`
    unfoldable pub reconcile : Reference → Exec (World Service) Requeue
    unfolding reconcile_service
    reconcile req = do found ← attempt (ask (Call.get req) (λ h. server.get h req)); load found
