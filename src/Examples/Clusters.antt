-- ===== src/Examples/Clusters.antt =====
-- A reverse-proxy cluster whose domain still targets a cluster that is gone.
use netbird_operator.Gateway.Naming.{trim_right}
use netbird_operator.Gateway.Collect.{mem}
use netbird_operator.Cache.{refresh, fetch_locked, list, lookup}
use netbird_operator.Prelude.{
  ◌≡◌, refl, true, false, none, some, Option, [], ◌∷◌, Str, bytes, str_eq, if◌then◌else◌,
}
use netbird_operator.Runtime.{Error, ok, cluster_not_found}
use netbird_operator.Lookup.{another_live_matches, get_proxy_cluster_by_address}
use netbird_operator.Api.Requests.{ProxyCluster}
use netbird_operator.Api.Proxies.{ReverseProxyCluster, ProxyDomain}
use netbird_operator.Server.{Call, Server, World}
use netbird_operator.Mirror.{requeue_after, dependency_retry, set_status}
use netbird_operator.LoadBalancer.{IpFamily, Config, resource_groups, lb_ingress_addresses}
use netbird_operator.ProxyCluster.Address.{apply_records, first_addresses}
use netbird_operator.ProxyCluster.Domain.{ensure_domain}
use netbird_operator.ProxyCluster.Domain.Laws.{
  IsDead, read_domains, read_clusters, domain_request, ensure_domain-IsDead, ensure_domain_heals,
}
use netbird_operator.ProxyCluster.Delete.{drop_domain}
use netbird_operator.ProxyCluster.Reconcile.{enrolled, enrolled_status, mint, reconcile_live}
use netbird_operator.ProxyCluster.Workload.{proxy_service}
use netbird_operator.ProxyCluster.Groups.Laws.{resource_groups-proxy_service}
use netbird_operator.ProxyCluster.Laws.Sharing.{checked, drop_domain_shared}
use netbird_operator.ProxyCluster.Laws.Ready.{IsReady, Minted, mint-Minted, enrolled-IsReady}
use netbird_operator.ProxyCluster.Laws.Records.{published, apply_records-published}
use netbird_operator.ProxyCluster.Laws.Schedule.{Again, reconcile_live-Again}
use netbird_operator.Examples.Worlds.{quiet, library, object, world, owner, by_name, ref}

abbrev pub cluster : ReverseProxyCluster
cluster =
    object
      (record {
        cluster_address = bytes "gate.example.com";
        domain = bytes "example.com";
        zone_ref = none;
        cert_secret_name = bytes "cert";
        groups = by_name (bytes "ops") ∷ by_name (bytes "dev") ∷ [];
        private = true;
        replicas = none;
        image = [];
        log_level = [];
        service_annotations = [];
      })
      (record {
        cluster_address = [];
        token_id = [];
        domain_id = [];
        load_balancer_ip = [];
        online = false;
        connected_proxies = 0;
      })

abbrev dead_domain : ProxyDomain
dead_domain = record {
  id = bytes "d1";
  domain = bytes "example.com";
  target_cluster = some (bytes "old.example.com");
}

-- It lists the dead registration, knows no cluster and accepts what it is sent.
abbrev server : Server ReverseProxyCluster
server = record quiet {
  domains_list = λ h. ok (dead_domain ∷ []);
  domains_delete = λ h id. ok tt;
  domains_create = λ h req. ok (bytes "d2");
  domains_validate = λ h id. ok tt;
  tokens_create = λ h name. ok (record { id = bytes "t1"; plain_token = bytes "secret" });
  kube_clusters = λ h. ok [];
  kube_ingress = λ h ref. ok (bytes "10.0.0.7" ∷ []);
  delete_record = λ h ref. ok tt;
}

abbrev dead : IsDead server library cluster (bytes "d1") (world cluster)
unfolding str_eq get_proxy_cluster_by_address lookup list fetch_locked refresh
dead = record {
  domain = dead_domain;
  same = refl;
  domains = dead_domain ∷ [];
  listed = refl;
  found = refl;
  dead = record {
    targeted = refl;
    items = [];
    read = refl;
    unused = refl;
    error = cluster_not_found (bytes "old.example.com");
    missed = refl;
    gone = refl;
  };
}

ensure_domain-IsDead_example : IsDead server library cluster (bytes "d1") (world cluster)
unfolding ensure_domain str_eq another_live_matches get_proxy_cluster_by_address lookup list
    fetch_locked refresh
ensure_domain-IsDead_example =
    ensure_domain-IsDead server library cluster (bytes "d1") (world cluster) refl refl

-- The history behind the lookup of the dead target.
abbrev looked_up : World ReverseProxyCluster
looked_up =
    (get_proxy_cluster_by_address server (bytes "old.example.com")
      (read_clusters server library (read_domains server library (world cluster)))).1

ensure_domain_heals_example : ensure_domain server library cluster (world cluster) ≡ (
  ok (bytes "d2"),
  record looked_up {
    history =
        Call.domains_create (domain_request server library cluster)
        ∷ Call.domains_delete (bytes "d1")
        ∷ looked_up.history;
  },
)
unfolding dead
ensure_domain_heals_example =
    ensure_domain_heals server library cluster (bytes "d1") (bytes "d2") (world cluster) dead refl
      refl

drop_domain_shared_example : drop_domain server library cluster (bytes "d1") (world cluster) ≡ (
  ok tt,
  record (world cluster) { history = Call.domains_delete (bytes "d1") ∷ checked server library [] },
)
unfolding str_eq
drop_domain_shared_example =
    drop_domain_shared server library cluster (bytes "d1") (world cluster) dead_domain
      (dead_domain ∷ []) [] refl refl refl refl

abbrev family : Str → Option IpFamily
family t = if str_eq t (bytes "::1") then some IpFamily.ipv6 else some IpFamily.ipv4

abbrev no_text : Error → Str
no_text e = []

mint-Minted_example :
    Minted server library family no_text [] owner cluster
      (world cluster)
      (mint server library family no_text [] owner cluster (world cluster)).1
unfolding mint
mint-Minted_example =
    mint-Minted server library family no_text [] owner cluster (world cluster) refl

abbrev listed : ProxyCluster
listed = record { address = bytes "gate.example.com"; online = true; connected_proxies = 2 }

enrolled-IsReady_example :
    (id : Str) × ((ensure_domain server library cluster
        (set_status (enrolled_status (bytes "gate.example.com") listed) (world cluster))).0
      ≡ ok id)
    × IsReady server library family no_text [] listed
        (bytes "gate.example.com")
        id
        (enrolled server library family no_text [] cluster (ok listed) (world cluster)).1
unfolding enrolled ensure_domain str_eq another_live_matches get_proxy_cluster_by_address lookup
    list fetch_locked refresh
enrolled-IsReady_example =
    enrolled-IsReady server library family no_text [] cluster listed (world cluster) refl refl

reconcile_live-Again_example :
    Again server library family no_text []
      (requeue_after dependency_retry)
      (reconcile_live server library family no_text [] (world cluster)).1
unfolding reconcile_live lb_ingress_addresses str_eq mem get_proxy_cluster_by_address lookup list
    fetch_locked refresh
reconcile_live-Again_example =
    reconcile_live-Again server library family no_text [] (world cluster)
      (requeue_after dependency_retry) refl

apply_records-published_example :
    (apply_records server library family owner cluster ref
      (first_addresses (lb_ingress_addresses family (bytes "10.0.0.7" ∷ bytes "10.0.0.8" ∷ [])) [])
      (world cluster)).1
    ≡ record (world cluster) {
      history =
          published server library family owner cluster ref
            (first_addresses
              (lb_ingress_addresses family (bytes "10.0.0.7" ∷ bytes "10.0.0.8" ∷ []))
              [])
            [];
    }
unfolding apply_records first_addresses lb_ingress_addresses str_eq mem
apply_records-published_example =
    apply_records-published server library family owner cluster ref
      (bytes "10.0.0.7" ∷ bytes "10.0.0.8" ∷ []) (world cluster) refl

abbrev config : Config
config = record {
  default_advertise = true;
  namespace = bytes "netbird";
  network = bytes "net";
  dns_zone = bytes "lan";
  dns_zone_groups = [];
  default_groups = bytes "all" ∷ [];
}

resource_groups-proxy_service_example :
    resource_groups config (proxy_service cluster).annotations [] ≡ bytes "ops" ∷ bytes "dev" ∷ []
unfolding str_eq trim_right
resource_groups-proxy_service_example =
    resource_groups-proxy_service config cluster [] refl (λ e. cc)
