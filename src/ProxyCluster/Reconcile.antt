-- ===== src/ProxyCluster/Reconcile.antt =====
-- `ReverseProxyClusterReconciler.Reconcile` on a cluster that is not being deleted.
use netbird_operator.Prelude.{
  true, false, not, Option, none, some, List, [], ◌∷◌, ◌++◌, Str, bytes, is_empty, str_eq,
  if◌then◌else◌,
}
use netbird_operator.Runtime.{Error, Result, ok, err, is_dependency, is_cluster_not_found}
use netbird_operator.Runtime.Exec.{Exec, pure, raise, modify, gets, attempt, ◌>>=◌, ◌>>◌}
use netbird_operator.Api.{Reference, reconciled, dependency}
use netbird_operator.Api.Requests.{OwnerReference, ProxyCluster}
use netbird_operator.Api.Proxies.{ReverseProxyCluster, ReverseProxyClusterStatus}
use netbird_operator.Server.{Call, Server, Library, World, Child, ask}
use netbird_operator.Lookup.{get_proxy_cluster_by_address}
use netbird_operator.LoadBalancer.{IpFamily, FamilyAddress}
use netbird_operator.SetupKeyController.{controller_reference}
use netbird_operator.Mirror.{
  Requeue, requeue_after, resync_interval, dependency_retry, finalizer_name, set_finalizers,
  set_status, mark, patch, error_text,
}
use netbird_operator.ProxyCluster.Groups.{group_ref_acs}
use netbird_operator.ProxyCluster.Workload.{
  proxy_token_key, proxy_reference, proxy_deployment, proxy_service,
}
use netbird_operator.ProxyCluster.Address.{service_addresses, apply_records}
use netbird_operator.ProxyCluster.Domain.{ensure_domain}

abbrev pub offline : ReverseProxyClusterStatus → ReverseProxyClusterStatus
offline s = record s { online = false; connected_proxies = 0 }

-- The status of a cluster that NetBird lists.
abbrev pub enrolled_status :
    Str → ProxyCluster → ReverseProxyClusterStatus → ReverseProxyClusterStatus
enrolled_status address cluster s = record s {
  cluster_address = address;
  online = cluster.online;
  connected_proxies = cluster.connected_proxies;
}

-- The name of the enrollment token.
abbrev pub token_name : ReverseProxyCluster → Str
token_name rpc = bytes "k8s-" ++ (rpc.meta.namespace ++ (b'-' ∷ rpc.meta.name))

abbrev pub token_secret : OwnerReference → ReverseProxyCluster → Str → Child
token_secret owner rpc token =
    Child.secret_entry owner (proxy_reference rpc) (proxy_token_key, token)

module _ (server : Server ReverseProxyCluster) (lib : Library) (ip_family : Str → Option IpFamily)
    (error_string : Error → Str) (management_url : Str) where
  -- `notReady`
  abbrev pub wait : Str → Exec (World ReverseProxyCluster) Requeue
  wait msg = do
    modify (mark (dependency msg))
    patch server false
    pure (requeue_after dependency_retry)

  -- The enrollment token, which is minted where none is recorded.
  unfoldable pub mint :
      OwnerReference → ReverseProxyCluster → Exec (World ReverseProxyCluster) (Unit {0})
  mint owner rpc =
      if not (is_empty rpc.status.token_id)
      then pure tt
      else ask (Call.tokens_create (token_name rpc)) (λ h. server.tokens_create h (token_name rpc))
        >>= λ token. (do
          let secret = token_secret owner rpc token.plain_token
          ask (Call.apply secret) (λ h. server.apply h secret)
          modify (set_status (λ s. record s { token_id = token.id }))
          patch server false)

  abbrev apply : Child → Exec (World ReverseProxyCluster) (Unit {0})
  apply child = ask (Call.apply child) (λ h. server.apply h child)

  -- The zone that a cluster owns.
  abbrev pub zone_child : OwnerReference → ReverseProxyCluster → Child
  zone_child owner rpc = Child.owned_zone owner (proxy_reference rpc) (record {
    name = rpc.spec.domain;
    domain = rpc.spec.domain;
    distribution_groups = group_ref_acs rpc.spec.groups;
    enable_search_domain = none;
    enabled = true;
  })

  -- `ensureZone`
  abbrev pub ensure_zone :
      OwnerReference → ReverseProxyCluster → Exec (World ReverseProxyCluster) Reference
  ensure_zone owner rpc = elim rpc.spec.zone_ref [
    | some ref ↦ pure ref
    | none ↦ do apply (zone_child owner rpc); pure (proxy_reference rpc)
  ]

  -- `applyDeployment` and `applyService`
  abbrev pub apply_deployment :
      OwnerReference → ReverseProxyCluster → Exec (World ReverseProxyCluster) (Unit {0})
  apply_deployment owner rpc =
      apply (Child.deployment owner (proxy_reference rpc) (proxy_deployment management_url rpc))

  abbrev pub apply_service :
      OwnerReference → ReverseProxyCluster → Exec (World ReverseProxyCluster) (Unit {0})
  apply_service owner rpc = apply (Child.service owner (proxy_reference rpc) (proxy_service rpc))

  abbrev pub validated :
      ReverseProxyCluster → Result (Unit {0}) → Exec (World ReverseProxyCluster) Requeue
  validated rpc (err e) =
      wait
        (bytes "validating custom domain " ++ (rpc.spec.domain ++ (bytes ": " ++ error_string e)))
  validated rpc (ok _) = do
    modify (mark reconciled)
    patch server true
    pure (requeue_after resync_interval)

  abbrev pub record_domain : ReverseProxyCluster → Str → Exec (World ReverseProxyCluster) (Unit {0})
  record_domain rpc id =
      if str_eq rpc.status.domain_id id
      then pure tt
      else do modify (set_status (λ s. record s { domain_id = id })); patch server false

  abbrev pub registered :
      ReverseProxyCluster → Result Str → Exec (World ReverseProxyCluster) Requeue
  registered rpc (err e) = if is_dependency e then wait (error_text e) else raise e
  registered rpc (ok id) = do
    record_domain rpc id
    checked ← attempt (ask (Call.domains_validate id) (λ h. server.domains_validate h id))
    validated rpc checked

  -- `Reconcile` behind the lookup of the cluster.
  unfoldable pub enrolled :
      ReverseProxyCluster → Result ProxyCluster → Exec (World ReverseProxyCluster) Requeue
  enrolled rpc (err e) =
      if is_cluster_not_found e
      then modify (set_status offline)
        >> wait (bytes "waiting for the proxy to enroll at " ++ rpc.spec.cluster_address)
      else raise e
  enrolled rpc (ok cluster) = do
    modify (set_status (enrolled_status rpc.spec.cluster_address cluster))
    id ← attempt (ensure_domain server lib rpc)
    registered rpc id

  -- `Reconcile` behind the addresses of the Service.
  unfoldable pub served :
      OwnerReference
      → ReverseProxyCluster
      → Reference
      → List FamilyAddress
      → Exec (World ReverseProxyCluster) Requeue
  unfolding enrolled apply_records
  served owner rpc zone_ref [] = do
    modify (set_status offline)
    wait (bytes "waiting for the proxy LoadBalancer IP")
  served owner rpc zone_ref (fa ∷ fas) = do
    modify (set_status (λ s. record s { load_balancer_ip = fa.address }))
    apply_records server lib ip_family owner rpc zone_ref (fa ∷ fas)
    cluster ← attempt (get_proxy_cluster_by_address server rpc.spec.cluster_address)
    enrolled rpc cluster

  -- `Reconcile` behind the Service, the Deployment and the zone.
  abbrev pub addressed :
      OwnerReference → ReverseProxyCluster → Reference → Exec (World ReverseProxyCluster) Requeue
  addressed owner rpc zone_ref =
      service_addresses server lib ip_family rpc >>= served owner rpc zone_ref

  abbrev pub deployed :
      OwnerReference → ReverseProxyCluster → Reference → Exec (World ReverseProxyCluster) Requeue
  deployed owner rpc zone_ref =
      (apply_deployment owner rpc >> apply_service owner rpc) >> addressed owner rpc zone_ref

  abbrev pub set_up :
      OwnerReference → ReverseProxyCluster → Exec (World ReverseProxyCluster) Requeue
  set_up owner rpc = (mint owner rpc >> ensure_zone owner rpc) >>= deployed owner rpc

  abbrev pub owned :
      ReverseProxyCluster → Result OwnerReference → Exec (World ReverseProxyCluster) Requeue
  owned rpc (err e) = raise e
  owned rpc (ok owner) = set_up owner rpc

  -- `Reconcile` on a cluster that is not being deleted.
  unfoldable pub reconcile_live : Exec (World ReverseProxyCluster) Requeue
  unfolding mint served service_addresses controller_reference
  reconcile_live = do
    modify (set_finalizers (lib.add_finalizer (finalizer_name (bytes "reverseproxycluster"))))
    patch server false
    rpc ← gets (λ w. w.object)
    owned rpc (controller_reference lib rpc.meta)
