-- ===== src/Gateway/Config.antt =====
-- The proxy that a Gateway's listeners describe, and the Gateways and routes that a change
-- concerns (gateway_controller.go).
pub mod Laws
use netbird_operator.Prelude.{
  ℕ, Bool, true, false, not, ◌&&◌, ◌||◌, Option, none, some, List, [], ◌∷◌, ◌++◌, keep, map,
  if◌then◌else◌, any, Str, bytes, str_eq, is_empty, trim_prefix, get_or,
}
use netbird_operator.Gateway.Types.{Protocol, Listener, ParametersRef, Gateway, ParentRef, Route}
use netbird_operator.Gateway.Admission.{GatewayProxy}

abbrev is_tls : Protocol → Bool
is_tls Protocol.https = true
is_tls Protocol.tls = true
is_tls _ = false

abbrev config_of : Option Str → Option (List Str) → Listener → Option GatewayProxy
config_of none refs l = none
config_of (some h) none l = none
config_of (some h) (some []) l = none
config_of (some h) (some (cert ∷ certs)) l =
    if is_empty h
    then none
    else some (record {
      domain = trim_prefix h (bytes "*.");
      cluster_address = bytes "gate." ++ trim_prefix h (bytes "*.");
      cert_secret = cert;
      listener = l.name;
    })

-- The proxy of one listener, unless the loop of `gatewayProxyConfig` skips it.
abbrev pub listener_config : Listener → Option GatewayProxy
listener_config l = if is_tls l.protocol then config_of l.hostname l.certificate_refs l else none

-- `gatewayProxyConfig`, over the Gateway's listeners.
unfoldable pub listeners_config : List Listener → Option GatewayProxy
listeners_config [] = none
listeners_config (l ∷ ls) = elim (listener_config l) [
  | some cfg ↦ some cfg
  | none ↦ listeners_config ls
]

unfoldable pub gateway_proxy_config : Gateway → Option GatewayProxy
unfolding listeners_config
gateway_proxy_config gw = listeners_config gw.listeners

-- `proxyClusterNameForGateway`
abbrev pub proxy_cluster_name_for_gateway : Gateway → Str
proxy_cluster_name_for_gateway gw = bytes "gateway-" ++ gw.name

-- The object's key.
pub record NamespacedName : Type 0 where
  pub namespace : Str
  pub name : Str

abbrev parent_references : Route → Gateway → ParentRef → Bool
parent_references route gw p =
    str_eq p.name gw.name && str_eq (get_or p.namespace route.namespace) gw.namespace

-- `routeReferencesGateway`
unfoldable pub route_references_gateway : Route → Gateway → Bool
route_references_gateway route gw = any (parent_references route gw) route.parent_refs

-- `routesForGateway`, on the routes that the cluster lists.
unfoldable routes_for_gateway : Gateway → List Route → List NamespacedName
unfolding route_references_gateway
routes_for_gateway gw [] = []
routes_for_gateway gw (r ∷ rs) =
    let rest = routes_for_gateway gw rs in
    if route_references_gateway r gw
    then record { namespace = r.namespace; name = r.name } ∷ rest
    else rest

abbrev gateway_key : Gateway → NamespacedName
gateway_key gw = record { namespace = gw.namespace; name = gw.name }

-- `gatewaysForClass`, on the Gateways that the cluster lists.
unfoldable gateways_for_class : Str → List Gateway → List NamespacedName
gateways_for_class class [] = []
gateways_for_class class (gw ∷ gws) =
    let rest = gateways_for_class class gws in
    if str_eq gw.class_name class then gateway_key gw ∷ rest else rest

abbrev refers_to : Option ParametersRef → Str → Bool
refers_to none params = false
refers_to (some ref) params = str_eq ref.name params

-- `gatewaysForParams`, on the Gateways that the parameters' namespace lists.
unfoldable gateways_for_params : Str → List Gateway → List NamespacedName
gateways_for_params params [] = []
gateways_for_params params (gw ∷ gws) =
    let rest = gateways_for_params params gws in
    if refers_to gw.parameters_ref params then gateway_key gw ∷ rest else rest
