-- ===== src/Examples/Proxy.antt =====
-- A private HTTP service behind a proxy cluster.
use netbird_operator.Prelude.Int.{pos, negsuc, to_int32}
use netbird_operator.Cache.{fetch_locked, list, lookup}
use netbird_operator.Lookup.{get_group_ids, get_proxy_cluster_by_address}
use netbird_operator.Prelude.{
  ◌≡◌, str_eq, refl, ◌∷◌, [], none, some, Option, true, false, Str, bytes,
}
use netbird_operator.Runtime.{ok}
use netbird_operator.Api.Services.{BackendService}
use netbird_operator.Server.{Server}
use netbird_operator.LoadBalancer.{IpFamily}
use netbird_operator.ReverseProxy.{
  service_mode, ReverseProxyMode, ReverseProxyServiceSpec, ReverseProxyService,
}
use netbird_operator.ReverseProxy.Apply.{Sorting, apply_reverse_proxy_service}
use netbird_operator.ReverseProxy.Laws.{Registered, apply_reverse_proxy_service-Registered}
use netbird_operator.Examples.Worlds.{quiet, library, object, world, by_name}

abbrev as_listed : Sorting
as_listed = record { sort_targets = λ before ts. ts; sort_resources = λ before rs. rs }

abbrev family : Str → Option IpFamily
family t = some IpFamily.ipv4

abbrev spec : ReverseProxyServiceSpec
spec = record {
  backends = record { service_ref = bytes "web"; port = pos 0; path = [] } ∷ [];
  mode = ReverseProxyMode.http;
  listen_port = some 443;
  proxy_protocol = none;
  proxy_cluster = bytes "gate.example.com";
  domain = bytes "shop.example.com";
  private = some true;
  access_groups = by_name (bytes "staff") ∷ [];
  crowdsec_mode = none;
  access_restrictions = none;
  pass_host_header = none;
  rewrite_redirects = none;
}

abbrev proxied : ReverseProxyService
proxied = object spec (record { service_id = []; service_domain = [] })

abbrev web : BackendService
web = record {
  is_load_balancer = false;
  type_text = bytes "ClusterIP";
  ports = record { port = pos 80; name = bytes "http" } ∷ [];
}

abbrev server : Server ReverseProxyService
server = record quiet {
  clusters_list = λ h.
      ok (record { address = bytes "gate.example.com"; online = true; connected_proxies = 1 } ∷ []);
  kube_service = λ h r. ok web;
  groups_get_by_name = λ h name. ok (record { id = bytes "g1"; peers = []; resources = [] });
  services_create = λ h req. ok (bytes "s1");
}

apply_reverse_proxy_service-Registered_example :
    Registered as_listed family server library proxied
      (apply_reverse_proxy_service as_listed family server library (world proxied)).1
unfolding apply_reverse_proxy_service get_proxy_cluster_by_address lookup list fetch_locked str_eq
    service_mode get_group_ids
apply_reverse_proxy_service-Registered_example =
    apply_reverse_proxy_service-Registered as_listed family server library (world proxied) refl

to_int32_high : to_int32 (pos 4294967376) ≡ pos 80
unfolding to_int32
to_int32_high = refl

to_int32_sign : to_int32 (pos 2147483648) ≡ negsuc 2147483647
unfolding to_int32
to_int32_sign = refl

to_int32_low : to_int32 (negsuc 2147483648) ≡ pos 2147483647
unfolding to_int32
to_int32_low = refl
