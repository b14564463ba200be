-- ===== src/Gateway/Config/Laws.antt =====
-- The listener that `gatewayProxyConfig` chooses.
use netbird_operator.Prelude.{
  ◌≡◌, refl, ap, Bool, true, false, not, ◌&&◌, Option, none, some, List, [], ◌∷◌, ◌++◌, arith, any,
  Str, bytes, str_eq_refl, is_empty, trim_prefix, Option-cases, inl, inr, is_some,
}
use netbird_operator.Gateway.Types.{Listener, Gateway}
use netbird_operator.Gateway.Hostname.{
  hostname_under_domain, hostname_text_under, listener_under_domain,
}
use netbird_operator.Gateway.Admission.{GatewayProxy}
use netbird_operator.Gateway.Config.{
  listener_config, config_of, listeners_config, gateway_proxy_config, is_tls,
}

config_of-under :
    (o : Option Str) (refs : Option (List Str)) (l : Listener) (cfg : GatewayProxy)
    → config_of o refs l ≡ some cfg
    → hostname_text_under o cfg.domain ≡ true
unfolding hostname_under_domain
config_of-under none refs l cfg h = cc
config_of-under (some t) none l cfg h = cc
config_of-under (some t) (some []) l cfg h = cc
config_of-under (some t) (some (c ∷ cs)) l cfg h =
    ground (arith, str_eq_refl (trim_prefix t (bytes "*.")))

abbrev has_text : Option Str → Bool
has_text none = false
has_text (some t) = not (is_empty t)

abbrev has_cert : Option (List Str) → Bool
has_cert none = false
has_cert (some []) = false
has_cert (some (c ∷ cs)) = true

-- An HTTPS or TLS listener with a hostname and a certificate.
abbrev usable : Listener → Bool
usable l = is_tls l.protocol && has_text l.hostname && has_cert l.certificate_refs

config_of_usable :
    (o : Option Str) (refs : Option (List Str)) (l : Listener)
    → is_some (config_of o refs l) ≡ (has_text o && has_cert refs)
config_of_usable none refs l = refl
config_of_usable (some t) none l = ground arith
config_of_usable (some t) (some []) l = ground arith
config_of_usable (some t) (some (c ∷ cs)) l = ground arith

config_of_fields :
    (o : Option Str) (refs : Option (List Str)) (l : Listener) (cfg : GatewayProxy)
    → config_of o refs l ≡ some cfg
    → (cfg.listener ≡ l.name) × (cfg.cluster_address ≡ bytes "gate." ++ cfg.domain)
config_of_fields none refs l cfg h = cc
config_of_fields (some t) none l cfg h = cc
config_of_fields (some t) (some []) l cfg h = cc
config_of_fields (some t) (some (c ∷ cs)) l cfg h = ground arith

-- `cfg` comes from the first usable listener.
pub record IsFirst (ls : List Listener) (cfg : GatewayProxy) : Type 0 where
  pub before : List Listener
  pub chosen : Listener
  pub after : List Listener
  pub splits : ls ≡ before ++ chosen ∷ after
  pub skipped : any usable before ≡ false
  pub taken : usable chosen ≡ true
  pub named : cfg.listener ≡ chosen.name
  pub addressed : cfg.cluster_address ≡ bytes "gate." ++ cfg.domain
  pub covers : listener_under_domain chosen cfg.domain ≡ true

listener_config-usable : (l : Listener) → is_some (listener_config l) ≡ usable l
listener_config-usable l = ground (arith, config_of_usable l.hostname l.certificate_refs l)

listeners_config-IsFirst :
    (ls : List Listener) (cfg : GatewayProxy) → listeners_config ls ≡ some cfg → IsFirst ls cfg
unfolding listeners_config listener_under_domain
listeners_config-IsFirst [] cfg h = cc
listeners_config-IsFirst (l ∷ ls) cfg h = elim (Option-cases (listener_config l)) [
  | inl e ↦
      let rest = listeners_config-IsFirst ls cfg (ground arith) in
      record {
        before = l ∷ rest.before;
        chosen = rest.chosen;
        after = rest.after;
        splits = ap (λ t. l ∷ t) rest.splits;
        skipped = ground (arith, listener_config-usable l, rest.skipped);
        taken = rest.taken;
        named = rest.named;
        addressed = rest.addressed;
        covers = rest.covers;
      }
  | inr (c, e) ↦
      let same : listener_config l ≡ some cfg = ground arith in
      let of : config_of l.hostname l.certificate_refs l ≡ some cfg = ground arith in
      let fields = config_of_fields l.hostname l.certificate_refs l cfg of in
      record {
        before = [];
        chosen = l;
        after = ls;
        splits = refl;
        skipped = refl;
        taken = ground (arith, listener_config-usable l);
        named = fields.0;
        addressed = fields.1;
        covers = config_of-under l.hostname l.certificate_refs l cfg of;
      }
]

-- The proxy is that of the first HTTPS or TLS listener with a hostname and a certificate: the
-- listeners before it are not usable, and it lies under the proxy's domain.
gateway_proxy_config-IsFirst :
    (gw : Gateway) (cfg : GatewayProxy)
    → gateway_proxy_config gw ≡ some cfg
    → IsFirst gw.listeners cfg
unfolding gateway_proxy_config
gateway_proxy_config-IsFirst gw cfg h = listeners_config-IsFirst gw.listeners cfg h
