-- ===== src/ProxyCluster/Laws/Sharing.antt =====
-- The registrations that a deleted cluster shares with another (reverseproxycluster_controller.go).
use netbird_operator.Prelude.{
  arith, ◌≡◌, false, ◌&&◌, some, List, ◌∷◌, any, find, Str, is_empty, str_eq, if◌then◌else◌,
}
use netbird_operator.Runtime.{ok}
use netbird_operator.Api.Proxies.{ReverseProxyCluster, ProxyDomain}
use netbird_operator.Server.{Call, Server, Library, World}
use netbird_operator.Lookup.Laws.{is_rival, another_live_matches_lem}
use netbird_operator.ProxyCluster.Domain.{uses_cluster, ignore_gone}
use netbird_operator.ProxyCluster.Delete.{shares_domain, drop_domain, drop_cluster}

module _ (server : Server ReverseProxyCluster) (lib : Library) where
  -- The history behind the two reads that come before the delete of a domain.
  abbrev pub checked : List (Call ReverseProxyCluster) → List (Call ReverseProxyCluster)
  checked h = Call.kube_clusters ∷ Call.domains_list ∷ h

  -- Where both reads succeed and NetBird lists the recorded registration, it is deleted exactly when
  -- no other live CR declares its live domain or has recorded its id; otherwise no call but the two
  -- reads is made.
  pub drop_domain_shared :
      (rpc : ReverseProxyCluster) (id : Str) (w : World ReverseProxyCluster) (d : ProxyDomain)
      (domains : List ProxyDomain) (items : List ReverseProxyCluster)
      → is_empty id ≡ false
      → server.domains_list w.history ≡ ok domains
      → find (λ e. str_eq e.id id) domains ≡ some d
      → server.kube_clusters (Call.domains_list ∷ w.history) ≡ ok items
      → drop_domain server lib rpc id w ≡ (
          if any (λ other. is_rival rpc other && shares_domain d.domain id other) items
          then (ok tt, record w { history = checked w.history })
          else ignore_gone server lib
              (server.domains_delete (checked w.history) id)
              (record w { history = Call.domains_delete id ∷ checked w.history }))
  unfolding drop_domain
  drop_domain_shared rpc id w d domains items set listed found read =
      rw
        (set, listed, found, read, ← another_live_matches_lem rpc items (shares_domain d.domain id))
        (ground arith)

  -- Where the clusters are read, the recorded cluster is deleted from NetBird exactly when no other
  -- live CR declares its address or has recorded it.
  drop_cluster_shared :
      (rpc : ReverseProxyCluster) (address : Str) (w : World ReverseProxyCluster)
      (items : List ReverseProxyCluster)
      → is_empty address ≡ false
      → server.kube_clusters w.history ≡ ok items
      → let h = Call.kube_clusters ∷ w.history in
        drop_cluster server lib rpc address w ≡ (
          if any (λ other. is_rival rpc other && uses_cluster address other) items
          then (ok tt, record w { history = h })
          else ignore_gone server lib
              (server.clusters_delete h address)
              (record w { history = Call.clusters_delete address ∷ h }))
  unfolding drop_cluster
  drop_cluster_shared rpc address w items set read =
      rw (set, read, ← another_live_matches_lem rpc items (uses_cluster address)) (ground arith)
