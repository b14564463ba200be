-- ===== src/Examples/Routes.antt =====
-- A Gateway with a public and an internal listener, and routes to it.
use netbird_operator.Prelude.Int.{pos}
use netbird_operator.Prelude.{
  trim_prefix, has_suffix, str_eq, ℕ, ◌≡◌, refl, true, ◌&&◌, none, some, List, [], ◌∷◌, Str, bytes,
  all, has_prefix,
}
use netbird_operator.Gateway.Types.{
  ProxyBackend, Protocol, From, Listener, Gateway, PathType, RouteMatch, BackendRef, Rule, Route,
}
use netbird_operator.Gateway.Hostname.{listener_under_domain, hostname_under_domain}
use netbird_operator.Gateway.Collect.{mem}
use netbird_operator.Gateway.Admission.{
  allowed_routes_permits, collect_inherited, GatewayProxy, gateway_admits_route, admitted_hostnames,
}
use netbird_operator.Gateway.Admission.Laws.{admitted_hostnames-admits, admitted_hostnames_foreign}
use netbird_operator.Gateway.Backends.{route_backends}
use netbird_operator.Gateway.Backends.Refs.{is_ok}
use netbird_operator.Gateway.Backends.Laws.{
  expected_rules, rule_supported, count_supported, route_backends_value, route_backends_ok,
}

abbrev internal : Listener
internal = record {
  name = bytes "internal";
  hostname = some (bytes "internal.lan");
  protocol = Protocol.http;
  certificate_refs = none;
  allowed_from = some From.all;
}

abbrev pub public : Listener
public = record {
  name = bytes "public";
  hostname = some (bytes "*.example.com");
  protocol = Protocol.https;
  certificate_refs = some (bytes "cert" ∷ []);
  allowed_from = none;
}

abbrev apex : Listener
apex = record public { name = bytes "apex"; hostname = some (bytes "shop.example.com") }

abbrev pub gateway : Gateway
gateway = record {
  name = bytes "gw";
  namespace = bytes "infra";
  class_name = bytes "netbird";
  generation = 1;
  listeners = internal ∷ public ∷ apex ∷ [];
  parameters_ref = none;
}

abbrev pub proxy : GatewayProxy
proxy = record {
  domain = bytes "example.com";
  cluster_address = bytes "gate.example.com";
  cert_secret = bytes "cert";
  listener = bytes "public";
}

abbrev backend_ref : Str → ℕ → BackendRef
backend_ref name weight = record {
  name = name;
  port = some 80;
  weight = some (pos weight);
  filters = 0;
}

abbrev api_match : RouteMatch
api_match = record {
  path = some (record { type = some PathType.prefix; value = some (bytes "/api") });
}

abbrev rule : Rule
rule = record {
  matches = api_match ∷ record { path = none } ∷ api_match ∷ [];
  filters = 0;
  backend_refs = backend_ref (bytes "web") 1 ∷ backend_ref (bytes "old") 0 ∷ [];
}

abbrev route : Str → List Str → Route
route namespace hostnames = record {
  name = bytes "shop";
  namespace = namespace;
  generation = 1;
  parent_refs = record { namespace = some (bytes "infra"); name = bytes "gw" } ∷ [];
  hostnames = hostnames;
  rules = rule ∷ [];
}

abbrev shop : Str
shop = bytes "shop.example.com"

abbrev pub declared : Route
declared = route (bytes "infra") (shop ∷ bytes "evil.org" ∷ shop ∷ [])

abbrev pub inheriting : Route
inheriting = route (bytes "infra") []

abbrev foreign : Route
foreign = route (bytes "elsewhere") (shop ∷ [])

admitted_hostnames-admits_example : gateway_admits_route gateway inheriting shop proxy ≡ true
unfolding mem admitted_hostnames collect_inherited has_prefix hostname_under_domain str_eq
    has_suffix allowed_routes_permits
admitted_hostnames-admits_example = admitted_hostnames-admits gateway inheriting proxy shop refl

admitted_hostnames_foreign_example : admitted_hostnames gateway foreign proxy ≡ []
unfolding listener_under_domain hostname_under_domain str_eq trim_prefix has_suffix
    allowed_routes_permits
admitted_hostnames_foreign_example = admitted_hostnames_foreign gateway foreign proxy refl

abbrev pub backends : List ProxyBackend
backends =
    record { service = bytes "web"; path = bytes "/api"; port = some 80 }
    ∷ record { service = bytes "web"; path = bytes "/"; port = some 80 }
    ∷ []

route_backends_value_example : backends ≡ expected_rules declared.rules
unfolding route_backends mem str_eq
route_backends_value_example = route_backends_value declared backends refl

route_backends_ok_example :
    is_ok (route_backends declared)
    ≡ (all rule_supported declared.rules && count_supported (expected_rules declared.rules))
route_backends_ok_example = route_backends_ok declared refl
