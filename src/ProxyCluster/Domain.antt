-- ===== src/ProxyCluster/Domain.antt =====
-- The registration of the custom domain (reverseproxycluster_controller.go).
pub mod Laws
use netbird_operator.Prelude.{
  Bool, true, false, ◌||◌, Option, none, some, List, [], ◌∷◌, ◌++◌, find, get_or, Str, bytes,
  is_empty, str_eq, if◌then◌else◌,
}
use netbird_operator.Runtime.{Error, Result, ok, err, dependency_not_ready, is_cluster_not_found}
use netbird_operator.Runtime.Exec.{Exec, pure, raise, attempt, continue, ◌>>=◌, ◌>>◌}
use netbird_operator.Api.Requests.{ProxyCluster}
use netbird_operator.Api.Proxies.{ReverseProxyCluster, ProxyDomain, DomainRequest}
use netbird_operator.Server.{Call, Server, Library, World, ask}
use netbird_operator.Lookup.{another_live_matches, get_proxy_cluster_by_address}

-- The other CR declares the cluster or has recorded it.
abbrev pub uses_cluster : Str → ReverseProxyCluster → Bool
uses_cluster address other =
    str_eq other.spec.cluster_address address || str_eq other.status.cluster_address address

abbrev pub target_of : ProxyDomain → Str
target_of d = get_or d.target_cluster []

module _ (server : Server ReverseProxyCluster) (lib : Library) where
  -- `anotherClusterMatches`
  abbrev pub another_cluster_matches :
      ReverseProxyCluster → (ReverseProxyCluster → Bool) → Exec (World ReverseProxyCluster) Bool
  another_cluster_matches rpc match = do
    items ← ask Call.kube_clusters (λ h. server.kube_clusters h)
    pure (another_live_matches rpc items match)

  -- An object of NetBird that may be gone already.
  abbrev pub ignore_gone : Result (Unit {0}) → Exec (World ReverseProxyCluster) (Unit {0})
  ignore_gone (ok _) = pure tt
  ignore_gone (err e) = if lib.is_not_found e then pure tt else raise e

  abbrev pub delete_domain : Str → Exec (World ReverseProxyCluster) (Unit {0})
  delete_domain id =
      attempt (ask (Call.domains_delete id) (λ h. server.domains_delete h id)) >>= ignore_gone

  abbrev pub create_domain : ReverseProxyCluster → Exec (World ReverseProxyCluster) Str
  create_domain rpc = do
    let req : DomainRequest = record {
      domain = rpc.spec.domain;
      target_cluster = rpc.spec.cluster_address;
    }
    ask (Call.domains_create req) (λ h. server.domains_create h req)

  abbrev conflict : ReverseProxyCluster → Str → Str → Error
  conflict rpc how rest =
      dependency_not_ready (bytes "custom domain " ++ (rpc.spec.domain ++ (how ++ rest)))

  -- The target is of no CR: it is dead when NetBird does not know it either.
  abbrev repair :
      ReverseProxyCluster → ProxyDomain → Result ProxyCluster → Exec (World ReverseProxyCluster) Str
  repair rpc d (ok cluster) = raise (
      conflict rpc (bytes " targets existing cluster ")
        (target_of d ++ bytes " not managed by this operator"))
  repair rpc d (err e) =
      if is_cluster_not_found e then delete_domain d.id >> create_domain rpc else raise e

  abbrev contested : ReverseProxyCluster → ProxyDomain → Bool → Exec (World ReverseProxyCluster) Str
  contested rpc d true = raise (
      conflict rpc (bytes " already targets cluster ")
        (target_of d ++ bytes " owned by another ReverseProxyCluster"))
  contested rpc d false = do
    cluster ← attempt (get_proxy_cluster_by_address server (target_of d))
    repair rpc d cluster

  -- The body of the loop of `ensureDomain`, for the registration of the domain.
  abbrev pub claim : ReverseProxyCluster → ProxyDomain → Exec (World ReverseProxyCluster) Str
  claim rpc d =
      if is_empty (target_of d) || str_eq (target_of d) rpc.spec.cluster_address
      then pure d.id
      else another_cluster_matches rpc (uses_cluster (target_of d)) >>= contested rpc d

  -- The loop of `ensureDomain`, whose body ends at the first registration of the domain.
  abbrev claim_or_create :
      ReverseProxyCluster → Option ProxyDomain → Exec (World ReverseProxyCluster) Str
  claim_or_create rpc none = create_domain rpc
  claim_or_create rpc (some d) = claim rpc d

  -- `ensureDomain`
  unfoldable pub ensure_domain : ReverseProxyCluster → Exec (World ReverseProxyCluster) Str
  ensure_domain rpc = do
    domains ← ask Call.domains_list (λ h. server.domains_list h)
    claim_or_create rpc (find (λ d. str_eq d.domain rpc.spec.domain) domains)
