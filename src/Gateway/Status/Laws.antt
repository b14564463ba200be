-- ===== src/Gateway/Status/Laws.antt =====
-- The routes that a listener counts, and the routes that the Gateway admits (gateway_controller.go).
use netbird_operator.Prelude.{
  arith, ◌≡◌, ◌≢◌, refl, ap, sym, ◌∙◌, inl, inr, Bool, true, false, not, ◌&&◌, ◌||◌, Option, none,
  some, List, [], ◌∷◌, ◌++◌, any, Bool-cases, Option-cases, Str, bytes, str_eq, str_eq→eq,
  str_eq_refl, append_assoc, trim_prefix, cut_prefix, append→cut_prefix, is_some,
}
use netbird_operator.Gateway.Types.{Gateway, Listener, Route}
use netbird_operator.Gateway.Collect.{mem}
use netbird_operator.Gateway.Hostname.{
  hostname_under_domain, hostname_text_under, listener_under_domain, listener_hostname_matches,
}
use netbird_operator.Gateway.Hostname.Laws.{
  IsUnder, Fits, hostname_under_domain_iff, listener_hostname_matches→Fits,
}
use netbird_operator.Gateway.Admission.{
  GatewayProxy, allowed_routes_permits, listener_admits, gateway_admits_route, admitted_hostnames,
  admitted_from, concrete, collect_inherited,
}
use netbird_operator.Gateway.Admission.Laws.{mem-admitted_hostnames}
use netbird_operator.Gateway.Config.{route_references_gateway}
use netbird_operator.Gateway.Status.{is_attached, matches_some}
use netbird_operator.Gateway.Translate.Laws.{is_set}

-- A name behind a dot in a name of the domain is of the domain.
IsUnder-longer : (r x domain : Str) → IsUnder x domain → IsUnder (r ++ b'.' ∷ x) domain
IsUnder-longer r x domain (inl e) = inr (r, ap (λ t. r ++ b'.' ∷ t) e)
IsUnder-longer r x domain (inr (s, e)) =
    inr (r ++ b'.' ∷ s, rw (e, append_assoc r (b'.' ∷ s) (b'.' ∷ domain)) refl)

trim_none : (lh : Str) → cut_prefix lh (bytes "*.") ≡ none → trim_prefix lh (bytes "*.") ≡ lh
unfolding trim_prefix
trim_none lh e = rw e refl

trim_some :
    (lh suffix : Str)
    → cut_prefix lh (bytes "*.") ≡ some suffix
    → trim_prefix lh (bytes "*.") ≡ suffix
unfolding trim_prefix
trim_some lh suffix e = rw e refl

text_under_trim :
    (lh domain : Str)
    → hostname_text_under (some lh) domain ≡ true
    → hostname_under_domain (trim_prefix lh (bytes "*.")) domain ≡ true
text_under_trim lh domain h = ground arith

Fits-under :
    (lh k domain : Str)
    → Fits lh k
    → hostname_text_under (some lh) domain ≡ true
    → hostname_under_domain k domain ≡ true
Fits-under lh k domain (inl e) h = ground arith
Fits-under lh k domain (inr (inl (suffix, r, e, long, f))) h =
    let cut : trim_prefix lh (bytes "*.") ≡ suffix =
      trim_some lh suffix (rw e (append→cut_prefix (bytes "*.") suffix)) in
    let trimmed = text_under_trim lh domain h in
    let under = (hostname_under_domain_iff suffix domain).0 (rw cut at trimmed) in
    rw f (
      (hostname_under_domain_iff (r ++ b'.' ∷ suffix) domain).1
        (IsUnder-longer r suffix domain under))
Fits-under lh k domain (inr (inr (e, f))) h =
    let trimmed = text_under_trim lh domain h in rw (← f) (rw (trim_none lh e) at trimmed)

-- A hostname that a listener of the domain matches is under the domain.
text_matches_under :
    (o : Option Str) (k domain : Str)
    → hostname_text_under o domain ≡ true
    → listener_hostname_matches o k ≡ true
    → hostname_under_domain k domain ≡ true
text_matches_under none k domain h m = cc
text_matches_under (some lh) k domain h m =
    Fits-under lh k domain (listener_hostname_matches→Fits lh k m) h

module _ (gw : Gateway) (route : Route) (cfg : GatewayProxy) where
  admits_under :
      (k : Str) (l : Listener)
      → listener_admits gw route k cfg l ≡ true
      → hostname_under_domain k cfg.domain ≡ true
  unfolding listener_under_domain
  admits_under k l h = ground (arith, text_matches_under l.hostname k cfg.domain)

  any-admits_under :
      (k : Str) (ls : List Listener)
      → any (listener_admits gw route k cfg) ls ≡ true
      → hostname_under_domain k cfg.domain ≡ true
  any-admits_under k [] h = cc
  any-admits_under k (l ∷ ls) h = ground (arith, admits_under k l, any-admits_under k ls)

  admits_any :
      (k : Str)
      → gateway_admits_route gw route k cfg ≡ any (listener_admits gw route k cfg) gw.listeners
  unfolding gateway_admits_route
  admits_any k = ground (arith, any-admits_under k gw.listeners)

  abbrev under_and_permits : Listener → Bool
  under_and_permits l =
      listener_under_domain l cfg.domain && allowed_routes_permits gw l route.namespace

  abbrev fits : Str → Listener → Bool
  fits k l = listener_hostname_matches l.hostname k

  any_never : (p : Listener → Bool) (ls : List Listener) → any (λ l. p l && false) ls ≡ false
  any_never p [] = refl
  any_never p (l ∷ ls) = ground (arith, any_never p ls)

  any_split :
      (p : Listener → Bool) (q r : Listener → Bool) (ls : List Listener)
      → any (λ l. p l && (q l || r l)) ls ≡ (any (λ l. p l && q l) ls || any (λ l. p l && r l) ls)
  any_split p q r [] = refl
  any_split p q r (l ∷ ls) = ground (arith, any_split p q r ls)

  any_ext :
      (p q : Listener → Bool) (ls : List Listener)
      → ((l : Listener) → p l ≡ q l)
      → any p ls ≡ any q ls
  any_ext p q [] e = refl
  any_ext p q (l ∷ ls) e = ground (arith, e l, any_ext p q ls e)

  admits_fits :
      (k : Str) (l : Listener)
      → (under_and_permits l && fits k l) ≡ listener_admits gw route k cfg l
  admits_fits k l = ground arith

  -- Some listener and some hostname: in either order.
  any_swap :
      (hs : List Str)
      → any (λ l. under_and_permits l && any (λ k. fits k l) hs) gw.listeners
        ≡ any (λ k. gateway_admits_route gw route k cfg) hs
  any_swap [] = any_never under_and_permits gw.listeners
  any_swap (h ∷ hs) =
      any_split under_and_permits (fits h) (λ l. any (λ k. fits k l) hs) gw.listeners
      ∙ ground (
        arith,
        any_swap hs,
        any_ext (λ l. under_and_permits l && fits h l) (listener_admits gw route h cfg) gw.listeners
            (admits_fits h),
        admits_any h,
      )

  -- Some listener of the domain counts the route as attached.
  abbrev pub is_counted : Bool
  is_counted = any (λ l. listener_under_domain l cfg.domain && is_attached gw l route) gw.listeners

  any-mem :
      (f : Str → Bool) (k : Str) (hs : List Str) → mem k hs ≡ true → f k ≡ true → any f hs ≡ true
  unfolding mem
  any-mem f k [] m e = cc
  any-mem f k (h ∷ hs) m e = elim (Bool-cases (str_eq k h)) [
    | inl same ↦ rw (← str_eq→eq k h same, e) refl
    | inr other ↦ ground (arith, any-mem f k hs)
  ]

  any_none :
      (f : Str → Bool) (hs : List Str)
      → ((k : Str) → mem k hs ≡ true → f k ≡ false)
      → any f hs ≡ false
  unfolding mem
  any_none f [] e = refl
  any_none f (h ∷ hs) e =
      rw (e h (ground (arith, str_eq_refl h))) (any_none f hs (λ k m. e k (ground arith)))

  admitted_set :
      (out hs : List Str) (f : Str → Bool)
      → ((k : Str) → mem k out ≡ (mem k hs && f k))
      → is_set out ≡ any f hs
  unfolding mem
  admitted_set [] hs f e = sym (any_none f hs (λ k m. ground (arith, e k)))
  admitted_set (x ∷ xs) hs f e =
      let both = e x in
      sym (any-mem f x hs (ground (arith, str_eq_refl x)) (ground (arith, str_eq_refl x)))

  matches_lem :
      (hs : List Str) (l : Listener) → hs ≢ [] → matches_some hs l ≡ any (λ k. fits k l) hs
  matches_lem [] l set = absurd (set refl)
  matches_lem (h ∷ hs) l set = refl

  counted_any :
      route.hostnames ≢ []
      → route_references_gateway route gw ≡ true
      → is_counted
        ≡ any (λ l. under_and_permits l && any (λ k. fits k l) route.hostnames) gw.listeners
  unfolding is_attached
  counted_any set bound =
      any_ext _ _ gw.listeners (λ l. ground (arith, bound, matches_lem route.hostnames l set))

  -- For a route of the Gateway that declares hostnames, the listeners and the admission agree: some
  -- listener of the domain counts the route as attached exactly when the Gateway admits one of its
  -- hostnames.
  pub is_counted-admitted :
      route.hostnames ≢ []
      → route_references_gateway route gw ≡ true
      → is_counted ≡ is_set (admitted_hostnames gw route cfg)
  is_counted-admitted set bound =
      counted_any set bound
      ∙ any_swap route.hostnames
      ∙ sym (
          admitted_set (admitted_hostnames gw route cfg) route.hostnames
            (λ k. gateway_admits_route gw route k cfg)
            (λ k. mem-admitted_hostnames gw route cfg k set))

  -- No listener has a hostname that a route can inherit.
  abbrev is_wild : List Listener → Bool
  is_wild ls = not (any (λ l. is_some (concrete l.hostname)) ls)

  inherited_wild :
      (ls : List Listener) (seen out : List Str)
      → is_wild ls ≡ true
      → collect_inherited gw route cfg ls seen out ≡ out
  unfolding collect_inherited
  inherited_wild [] seen out h = refl
  inherited_wild (l ∷ ls) seen out h = elim (Option-cases (concrete l.hostname)) [
    | inl e ↦ rw (e, collect_inherited) (inherited_wild ls seen out (rw e at h))
    | inr (x, e) ↦ let failed = rw e at h in absurd (ground arith)
  ]

  admitted_wild :
      (hs : List Str) → hs ≡ [] → is_wild gw.listeners ≡ true → admitted_from hs gw route cfg ≡ []
  admitted_wild [] e wild = inherited_wild gw.listeners [] [] wild
  admitted_wild (h ∷ hs) e wild = cc

  matches_all : (hs : List Str) (l : Listener) → hs ≡ [] → matches_some hs l ≡ true
  matches_all [] l e = refl
  matches_all (h ∷ hs) l e = cc

  -- A route without hostnames, on a Gateway whose listeners are wildcards, is counted as attached by
  -- a listener that lets it in, although none of its hostnames is admitted.
  pub is_counted_wild :
      route.hostnames ≡ []
      → route_references_gateway route gw ≡ true
      → is_wild gw.listeners ≡ true
      → any under_and_permits gw.listeners ≡ true
      → (is_counted ≡ true) × (admitted_hostnames gw route cfg ≡ [])
  unfolding is_attached admitted_hostnames
  is_counted_wild e bound wild opened = (
    any_ext _ under_and_permits gw.listeners
          (λ l. ground (arith, bound, matches_all route.hostnames l e))
        ∙ opened,
    admitted_wild route.hostnames e wild,
  )
