-- ===== src/ReverseProxy.antt =====
-- internal/controller/reverseproxyservice_mirror.go: what is rendered without a call.
pub mod Digits
pub mod Apply
pub mod Laws
use netbird_operator.Prelude.Int.{ℤ, pos, int_eq, int_ltb, to_int32}
use netbird_operator.Prelude.{
  ℕ, zero, suc, ◌+◌, Bool, true, false, not, ◌&&◌, ◌||◌, ◌==◌, Option, none, some, List, [], ◌∷◌,
  ◌++◌, Str, bytes, is_empty, str_eq, ltb, if◌then◌else◌, get_or, is_some,
}
use netbird_operator.Api.{Object, GroupReference, NetworkResource}
use netbird_operator.Api.Services.{
  ServicePort, BackendService, ServiceMode, TargetProtocol, TargetType, ServiceTarget,
  ApiRestrictions,
}
use netbird_operator.LoadBalancer.{IpFamily}

-- The mode of the CRD; `other` is a text that the switch does not name, the empty one included.
pub data ReverseProxyMode : Type 0 where
  http tcp tls udp other : ReverseProxyMode

pub record AccessRestrictions : Type 0 where
  pub allowed_cidrs : List Str
  pub blocked_cidrs : List Str
  pub allowed_countries : List Str
  pub blocked_countries : List Str

pub record ReverseProxyBackend : Type 0 where
  pub service_ref : Str
  pub port : ℤ
  pub path : Str

pub record ReverseProxyServiceSpec : Type 0 where
  pub backends : List ReverseProxyBackend
  pub mode : ReverseProxyMode
  pub listen_port : Option ℕ
  pub proxy_protocol : Option Bool
  pub proxy_cluster : Str
  pub domain : Str
  pub private : Option Bool
  pub access_groups : List GroupReference
  pub crowdsec_mode : Option Str
  pub access_restrictions : Option AccessRestrictions
  pub pass_host_header : Option Bool
  pub rewrite_redirects : Option Bool

pub record ReverseProxyServiceStatus : Type 0 where
  pub service_id : Str
  pub service_domain : Str

abbrev pub ReverseProxyService : Type 0
ReverseProxyService = Object ReverseProxyServiceSpec ReverseProxyServiceStatus

-- `serviceMode`
unfoldable pub service_mode : ReverseProxyMode → ServiceMode × TargetProtocol
service_mode ReverseProxyMode.tcp = (ServiceMode.tcp, TargetProtocol.tcp)
service_mode ReverseProxyMode.tls = (ServiceMode.tls, TargetProtocol.tcp)
service_mode ReverseProxyMode.udp = (ServiceMode.udp, TargetProtocol.udp)
service_mode _ = (ServiceMode.http, TargetProtocol.http)

-- `isHTTP`, `isPortRouted` and `proxyProtocol` of `applyReverseProxyService`
abbrev pub is_http : ServiceMode → Bool
is_http ServiceMode.http = true
is_http _ = false

abbrev pub is_port_routed : ServiceMode → Bool
is_port_routed ServiceMode.tcp = true
is_port_routed ServiceMode.udp = true
is_port_routed _ = false

abbrev pub takes_proxy_protocol : ServiceMode → Bool
takes_proxy_protocol ServiceMode.tcp = true
takes_proxy_protocol ServiceMode.tls = true
takes_proxy_protocol _ = false

-- `portLabelDomain`, by the text of the host that is still to be read.
unfoldable pub port_label_domain : Str → Str → Str
port_label_domain [] label = b'-' ∷ label
port_label_domain (c ∷ host) label =
    let rest = port_label_domain host label in
    if c == b'.' then b'-' ∷ (label ++ (c ∷ host)) else c ∷ rest

abbrev nonempty : List Str → Option (List Str)
nonempty [] = none
nonempty (x ∷ xs) = some (x ∷ xs)

abbrev restricted : Option Str → AccessRestrictions → ApiRestrictions
restricted mode ar = record {
  crowdsec_mode = mode;
  allowed_cidrs = nonempty ar.allowed_cidrs;
  blocked_cidrs = nonempty ar.blocked_cidrs;
  allowed_countries = nonempty ar.allowed_countries;
  blocked_countries = nonempty ar.blocked_countries;
}

abbrev crowdsec_only : Str → ApiRestrictions
crowdsec_only mode = record {
  crowdsec_mode = some mode;
  allowed_cidrs = none;
  blocked_cidrs = none;
  allowed_countries = none;
  blocked_countries = none;
}

-- `accessRestrictionsFor`
unfoldable pub access_restrictions_for :
    Option Str → Option AccessRestrictions → Option ApiRestrictions
access_restrictions_for none none = none
access_restrictions_for (some mode) none = some (crowdsec_only mode)
access_restrictions_for mode (some ar) = some (restricted mode ar)

-- The first declared port of the number, or `int32(want)` without a name.
abbrev declared_port : ℤ → List ServicePort → ServicePort
declared_port want [] = record { port = to_int32 want; name = [] }
declared_port want (sp ∷ ports) =
    let rest = declared_port want ports in if int_eq sp.port want then sp else rest

-- `backendPort`, of a Service whose first port is `first`.
unfoldable pub backend_port : ServicePort → List ServicePort → ℤ → ServicePort
backend_port first ports want =
    if int_eq want (pos 0) then first else declared_port want (first ∷ ports)

-- The order of texts by their bytes.
unfoldable pub str_lt : Str → Str → Bool
str_lt [] [] = false
str_lt [] (d ∷ t) = true
str_lt (c ∷ s) [] = false
str_lt (c ∷ s) (d ∷ t) = let rest = str_lt s t in if c == d then rest else ltb c d

-- The order of `sortServiceTargets`.
unfoldable pub target_before : ServiceTarget → ServiceTarget → Bool
target_before a b =
    let x = get_or a.host [] in
    let y = get_or b.host [] in if not (str_eq x y) then str_lt x y else int_ltb a.port b.port

abbrev same_family : Option IpFamily → Option IpFamily → Bool
same_family none none = true
same_family (some IpFamily.ipv4) (some IpFamily.ipv4) = true
same_family (some IpFamily.ipv6) (some IpFamily.ipv6) = true
same_family _ _ = false

abbrev is_ipv4 : Option IpFamily → Bool
is_ipv4 (some IpFamily.ipv4) = true
is_ipv4 _ = false

-- The order of `preferL4Resource`.
unfoldable pub resource_before : (Str → Option IpFamily) → NetworkResource → NetworkResource → Bool
resource_before ip_family a b =
    let x = ip_family a.spec.address in
    let y = ip_family b.spec.address in
    if not (same_family x y) then is_ipv4 x else str_lt a.meta.name b.meta.name
