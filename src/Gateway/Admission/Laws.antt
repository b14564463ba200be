-- ===== src/Gateway/Admission/Laws.antt =====
-- The hostnames that `admittedHostnames` yields, and the listeners that admit them.
use netbird_operator.Prelude.{
  ◌≡◌, ◌≢◌, refl, Bool, true, false, ◌&&◌, Option, none, some, List, [], ◌∷◌, arith, if◌then◌else◌,
  any, Str, bytes, str_eq→eq, has_prefix, trim_prefix, str_eq_refl,
}
use netbird_operator.Gateway.Types.{Listener, Gateway, Route}
use netbird_operator.Gateway.Hostname.{
  hostname_under_domain, hostname_text_under, listener_under_domain, listener_hostname_matches,
}
use netbird_operator.Gateway.Admission.{
  GatewayProxy, allowed_routes_permits, listener_admits, gateway_admits_route, concrete,
  admitted_from, admitted_hostnames,
}
use netbird_operator.Gateway.Collect.{mem, Distinct, mem-collect_new, collect_new-Distinct}
use netbird_operator.Gateway.Admission.Inherited.{
  offers, offers_text, mem-collect_inherited, collect_inherited-Distinct,
}

any_mono :
    (p q : Listener → Bool) (ls : List Listener)
    → ((l : Listener) → p l ≡ true → q l ≡ true)
    → any p ls ≡ true
    → any q ls ≡ true
any_mono p q [] imp h = h
any_mono p q (l ∷ ls) imp h = ground (arith, imp l, any_mono p q ls imp)

module _ (gw : Gateway) (route : Route) (cfg : GatewayProxy) where
  mem-admitted_from :
      (k : Str) (hs : List Str)
      → hs ≢ []
      → mem k (admitted_from hs gw route cfg) ≡ (mem k hs && gateway_admits_route gw route k cfg)
  unfolding mem
  mem-admitted_from k [] set = absurd (set refl)
  mem-admitted_from k (h ∷ hs) set =
      mem-collect_new (λ j. gateway_admits_route gw route j cfg) (h ∷ hs) [] [] k (λ j. refl)

  -- Of the hostnames that a route declares, exactly those that the Gateway admits are translated.
  pub mem-admitted_hostnames :
      (k : Str)
      → route.hostnames ≢ []
      → mem k (admitted_hostnames gw route cfg)
        ≡ (mem k route.hostnames && gateway_admits_route gw route k cfg)
  unfolding admitted_hostnames
  mem-admitted_hostnames k set = mem-admitted_from k route.hostnames set

  mem-admitted_from_nil :
      (k : Str) → mem k (admitted_from [] gw route cfg) ≡ any (offers gw route cfg k) gw.listeners
  unfolding mem
  mem-admitted_from_nil k = mem-collect_inherited gw route cfg gw.listeners [] [] k (λ j. refl)

  text_admits :
      (l : Listener) (o : Option Str) (k : Str)
      → offers_text gw route cfg (concrete o) l k ≡ true
      → (hostname_under_domain k cfg.domain
          && (if hostname_text_under o cfg.domain
              then listener_hostname_matches o k && allowed_routes_permits gw l route.namespace
              else false))
        ≡ true
  unfolding listener_hostname_matches trim_prefix has_prefix
  text_admits l none k h = cc
  text_admits l (some []) k h = cc
  text_admits l (some (a ∷ s)) k h = ground (arith, str_eq→eq k (a ∷ s), str_eq_refl (a ∷ s))

  -- A listener that offers its own hostname admits it.
  offers-admits :
      (k : Str) (l : Listener)
      → offers gw route cfg k l ≡ true
      → (hostname_under_domain k cfg.domain ≡ true) × (listener_admits gw route k cfg l ≡ true)
  unfolding listener_under_domain
  offers-admits k l h = ground (arith, text_admits l l.hostname k h)

  any-offers_under :
      (k : Str) (ls : List Listener)
      → any (offers gw route cfg k) ls ≡ true
      → hostname_under_domain k cfg.domain ≡ true
  any-offers_under k [] h = cc
  any-offers_under k (l ∷ ls) h = ground (arith, offers-admits k l, any-offers_under k ls)

  admitted_from-admits :
      (k : Str) (hs : List Str)
      → mem k (admitted_from hs gw route cfg) ≡ true
      → gateway_admits_route gw route k cfg ≡ true
  unfolding gateway_admits_route
  admitted_from-admits k [] h =
      let offered = rw (mem-admitted_from_nil k) at h in
      rw (any-offers_under k gw.listeners offered) (
        any_mono (offers gw route cfg k) (listener_admits gw route k cfg) gw.listeners
          (λ l o. (offers-admits k l o).1) offered)
  admitted_from-admits k (h ∷ hs) m = ground (arith, mem-admitted_from k (h ∷ hs) (λ e. cc))

  -- Whether declared or inherited, every translated hostname passes `gatewayAdmitsRoute`.
  pub admitted_hostnames-admits :
      (k : Str)
      → mem k (admitted_hostnames gw route cfg) ≡ true
      → gateway_admits_route gw route k cfg ≡ true
  unfolding admitted_hostnames
  admitted_hostnames-admits k h = admitted_from-admits k route.hostnames h

  admitted_from-Distinct : (hs : List Str) → Distinct (admitted_from hs gw route cfg)
  admitted_from-Distinct [] =
      collect_inherited-Distinct gw route cfg gw.listeners [] [] (λ j. refl) tt
  admitted_from-Distinct (h ∷ hs) =
      collect_new-Distinct (λ j. gateway_admits_route gw route j cfg) (h ∷ hs) [] [] (λ j. refl) tt

  -- No hostname is translated twice.
  admitted_hostnames-Distinct : Distinct (admitted_hostnames gw route cfg)
  unfolding admitted_hostnames
  admitted_hostnames-Distinct = admitted_from-Distinct route.hostnames

  -- A listener under the registered domain that lets in routes of the route's namespace.
  abbrev opens : Listener → Bool
  opens l = listener_under_domain l cfg.domain && allowed_routes_permits gw l route.namespace

  admits-opens :
      (k : Str) → gateway_admits_route gw route k cfg ≡ true → any opens gw.listeners ≡ true
  unfolding gateway_admits_route
  admits-opens k h =
      any_mono (listener_admits gw route k cfg) opens gw.listeners (λ l a. ground arith)
        (ground arith)

  -- Unless a listener under the registered domain opens to the route's namespace, nothing of the
  -- route is translated, whatever the other listeners allow.
  pub admitted_hostnames_foreign :
      any opens gw.listeners ≡ false → admitted_hostnames gw route cfg ≡ []
  unfolding mem
  admitted_hostnames_foreign closed = go (admitted_hostnames gw route cfg) refl
    where
      go :
          (out : List Str)
          → admitted_hostnames gw route cfg ≡ out
          → admitted_hostnames gw route cfg ≡ []
      go [] e = e
      go (k ∷ ks) e =
          let first : mem k (admitted_hostnames gw route cfg) ≡ true =
            rw e (ground (arith, str_eq_refl k)) in
          cc (admits-opens k (admitted_hostnames-admits k first))

  text_concrete :
      (l : Listener) (o : Option Str) (k : Str)
      → offers_text gw route cfg (concrete o) l k ≡ true
      → has_prefix k (bytes "*.") ≡ false
  text_concrete l none k h = cc
  text_concrete l (some []) k h = cc
  text_concrete l (some (a ∷ s)) k h = ground (arith, str_eq→eq k (a ∷ s))

  any-offers_concrete :
      (k : Str) (ls : List Listener)
      → any (offers gw route cfg k) ls ≡ true
      → has_prefix k (bytes "*.") ≡ false
  any-offers_concrete k [] h = cc
  any-offers_concrete k (l ∷ ls) h =
      ground (arith, text_concrete l l.hostname k, any-offers_concrete k ls)

  admitted_from_nil-concrete :
      (k : Str) (hs : List Str)
      → hs ≡ []
      → mem k (admitted_from hs gw route cfg) ≡ true
      → has_prefix k (bytes "*.") ≡ false
  admitted_from_nil-concrete k [] e h =
      any-offers_concrete k gw.listeners (rw (mem-admitted_from_nil k) at h)
  admitted_from_nil-concrete k (_ ∷ _) e h = cc

  -- A route without hostnames never inherits a wildcard.
  admitted_hostnames_concrete :
      (k : Str)
      → route.hostnames ≡ []
      → mem k (admitted_hostnames gw route cfg) ≡ true
      → has_prefix k (bytes "*.") ≡ false
  unfolding admitted_hostnames
  admitted_hostnames_concrete k e h = admitted_from_nil-concrete k route.hostnames e h
