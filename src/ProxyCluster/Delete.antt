-- ===== src/ProxyCluster/Delete.antt =====
-- The deletion of a reverse-proxy cluster, and its `Reconcile` (reverseproxycluster_controller.go).
use netbird_operator.Prelude.{
  Bool, false, ◌||◌, Option, none, some, find, Str, bytes, is_empty, str_eq, if◌then◌else◌,
}
use netbird_operator.Runtime.{Error, Result, ok, err}
use netbird_operator.Runtime.Exec.{Exec, pure, modify, gets, attempt, ◌>>=◌, ◌>>◌}
use netbird_operator.Api.{Reference}
use netbird_operator.Api.Proxies.{ReverseProxyCluster, ProxyDomain}
use netbird_operator.Server.{Call, Server, Library, World, ask, ignore_not_found}
use netbird_operator.LoadBalancer.{IpFamily}
use netbird_operator.Mirror.{Requeue, done, finalizer_name, set_finalizers, patch}
use netbird_operator.ProxyCluster.Domain.{
  uses_cluster, another_cluster_matches, ignore_gone, delete_domain,
}
use netbird_operator.ProxyCluster.Reconcile.{reconcile_live}

-- The other CR declares the registration's live domain or has recorded its id.
abbrev pub shares_domain : Str → Str → ReverseProxyCluster → Bool
shares_domain domain id other = str_eq other.spec.domain domain || str_eq other.status.domain_id id

module _ (server : Server ReverseProxyCluster) (lib : Library) where
  abbrev revoke_token : Str → Exec (World ReverseProxyCluster) (Unit {0})
  revoke_token id =
      if is_empty id
      then pure tt
      else attempt (ask (Call.tokens_delete id) (λ h. server.tokens_delete h id))
        >>= ignore_gone server lib

  abbrev drop_unshared_domain : Str → Bool → Exec (World ReverseProxyCluster) (Unit {0})
  drop_unshared_domain id shared = if shared then pure tt else delete_domain server lib id

  -- The loop over the registrations, whose body ends at the recorded one.
  abbrev drop_listed :
      ReverseProxyCluster → Str → Option ProxyDomain → Exec (World ReverseProxyCluster) (Unit {0})
  drop_listed rpc id none = pure tt
  drop_listed rpc id (some d) =
      another_cluster_matches server lib rpc (shares_domain d.domain id) >>= drop_unshared_domain id

  -- The registration of the domain, unless it is shared.
  unfoldable pub drop_domain :
      ReverseProxyCluster → Str → Exec (World ReverseProxyCluster) (Unit {0})
  drop_domain rpc id =
      if is_empty id
      then pure tt
      else ask Call.domains_list (λ h. server.domains_list h) >>= λ domains.
          drop_listed rpc id (find (λ d. str_eq d.id id) domains)

  abbrev drop_unshared_cluster : Str → Bool → Exec (World ReverseProxyCluster) (Unit {0})
  drop_unshared_cluster address shared =
      if shared
      then pure tt
      else attempt (ask (Call.clusters_delete address) (λ h. server.clusters_delete h address))
        >>= ignore_gone server lib

  -- The registration of the cluster, unless it is shared.
  unfoldable pub drop_cluster :
      ReverseProxyCluster → Str → Exec (World ReverseProxyCluster) (Unit {0})
  drop_cluster rpc address =
      if is_empty address
      then pure tt
      else another_cluster_matches server lib rpc (uses_cluster address)
        >>= drop_unshared_cluster address

  -- `reconcileDelete`
  unfoldable pub reconcile_delete : Exec (World ReverseProxyCluster) Requeue
  unfolding drop_domain drop_cluster
  reconcile_delete = do
    rpc ← gets (λ w. w.object)
    revoke_token rpc.status.token_id
    drop_domain rpc rpc.status.domain_id
    drop_cluster rpc rpc.status.cluster_address
    modify (set_finalizers (lib.remove_finalizer (finalizer_name (bytes "reverseproxycluster"))))
    patch server false
    pure done

  module _ (ip_family : Str → Option IpFamily) (error_string : Error → Str)
      (management_url : Str) where
    abbrev reconcile_loaded : Exec (World ReverseProxyCluster) Requeue
    reconcile_loaded w =
        if w.object.meta.deleting
        then reconcile_delete w
        else reconcile_live server lib ip_family error_string management_url w

    abbrev load : Result ReverseProxyCluster → Exec (World ReverseProxyCluster) Requeue
    load (err e) = ignore_not_found lib e done
    load (ok rpc) = do modify (λ w. record w { object = rpc }); reconcile_loaded

    -- `ReverseProxyClusterReconciler.Reconcile`
    unfoldable pub reconcile : Reference → Exec (World ReverseProxyCluster) Requeue
    unfolding reconcile_live reconcile_delete
    reconcile req = do found ← attempt (ask (Call.get req) (λ h. server.get h req)); load found
