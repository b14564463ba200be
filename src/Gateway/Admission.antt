-- ===== src/Gateway/Admission.antt =====
-- Which hostnames of a route a Gateway admits onto its proxy (gateway_controller.go).
pub mod Inherited
pub mod Laws
use netbird_operator.Prelude.{
  ◌≡◌, Bool, true, false, not, ◌&&◌, Option, none, some, List, [], ◌∷◌, ◌++◌, arith, if◌then◌else◌,
  any, Str, bytes, str_eq, is_empty, has_prefix,
}
use netbird_operator.Gateway.Types
use netbird_operator.Gateway.Types.{Listener, Gateway, Route, From}
use netbird_operator.Gateway.Hostname.{
  hostname_under_domain, listener_under_domain, listener_hostname_matches,
}
use netbird_operator.Gateway.Collect.{mem, collect_new}

-- `gatewayProxy`
pub record GatewayProxy : Type 0 where
  pub domain : Str
  pub cluster_address : Str
  pub cert_secret : Str
  pub listener : Str

abbrev from_permits : Option From → Gateway → Str → Bool
from_permits none gw route_namespace = str_eq route_namespace gw.namespace
from_permits (some From.all) gw route_namespace = true
from_permits (some From.same) gw route_namespace = str_eq route_namespace gw.namespace
from_permits (some _) gw route_namespace = false

-- `allowedRoutesPermits`
unfoldable pub allowed_routes_permits : Gateway → Listener → Str → Bool
allowed_routes_permits gw l route_namespace = from_permits l.allowed_from gw route_namespace

-- The test of the loop over the listeners in `gatewayAdmitsRoute`.
abbrev pub listener_admits : Gateway → Route → Str → GatewayProxy → Listener → Bool
listener_admits gw route hostname cfg l =
    if listener_under_domain l cfg.domain
    then listener_hostname_matches l.hostname hostname
      && allowed_routes_permits gw l route.namespace
    else false

-- `gatewayAdmitsRoute`
unfoldable pub gateway_admits_route : Gateway → Route → Str → GatewayProxy → Bool
gateway_admits_route gw route hostname cfg =
    if hostname_under_domain hostname cfg.domain
    then any (listener_admits gw route hostname cfg) gw.listeners
    else false

-- The listener's hostname, unless the loop of `admittedHostnames` skips it.
abbrev pub concrete : Option Str → Option Str
concrete none = none
concrete (some h) = if is_empty h then none else if has_prefix h (bytes "*.") then none else some h

-- The loop over the listeners, for a route that declares no hostname.
unfoldable pub collect_inherited :
    Gateway → Route → GatewayProxy → List Listener → List Str → List Str → List Str
collect_inherited gw route cfg [] seen out = out
collect_inherited gw route cfg (l ∷ ls) seen out = elim (concrete l.hostname) [
  | none ↦ collect_inherited gw route cfg ls seen out
  | some h ↦
      let new =
        not (mem h seen)
        && hostname_under_domain h cfg.domain
        && allowed_routes_permits gw l route.namespace in
      collect_inherited gw route cfg ls (if new then h ∷ seen else seen)
        (if new then out ++ h ∷ [] else out)
]

abbrev pub admitted_from : List Str → Gateway → Route → GatewayProxy → List Str
admitted_from [] gw route cfg = collect_inherited gw route cfg gw.listeners [] []
admitted_from (h ∷ hs) gw route cfg =
    collect_new (λ k. gateway_admits_route gw route k cfg) (h ∷ hs) [] []

-- `admittedHostnames`
unfoldable pub admitted_hostnames : Gateway → Route → GatewayProxy → List Str
admitted_hostnames gw route cfg = admitted_from route.hostnames gw route cfg
