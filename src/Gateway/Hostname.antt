-- ===== src/Gateway/Hostname.antt =====
-- Hostname tests of gateway_controller.go: the registered domain and listener wildcards.
pub mod Laws
use netbird_operator.Prelude.{
  ◌+◌, ◌≡◌, Bool, true, false, ◌&&◌, ◌||◌, Option, none, some, ◌++◌, arith, ltb, if◌then◌else◌,
  length, Str, bytes, str_eq, is_empty, cut_prefix, trim_prefix, has_suffix,
}
use netbird_operator.Gateway.Types.{Listener}

-- `hostnameUnderDomain`
unfoldable pub hostname_under_domain : Str → Str → Bool
hostname_under_domain hostname domain =
    str_eq hostname domain || has_suffix hostname (bytes "." ++ domain)

abbrev pub hostname_text_under : Option Str → Str → Bool
hostname_text_under none domain = false
hostname_text_under (some h) domain =
    if is_empty h then false else hostname_under_domain (trim_prefix h (bytes "*.")) domain

-- `listenerUnderDomain`
unfoldable pub listener_under_domain : Listener → Str → Bool
listener_under_domain l domain = hostname_text_under l.hostname domain

abbrev wildcard_matches : Option Str → Str → Str → Bool
wildcard_matches (some suffix) lh route_host =
    has_suffix route_host (bytes "." ++ suffix) && ltb (length suffix + 1) (length route_host)
wildcard_matches none lh route_host = str_eq lh route_host

-- `listenerHostnameMatches`
unfoldable pub listener_hostname_matches : Option Str → Str → Bool
listener_hostname_matches none route_host = true
listener_hostname_matches (some lh) route_host =
    if is_empty lh then true else wildcard_matches (cut_prefix lh (bytes "*.")) lh route_host
