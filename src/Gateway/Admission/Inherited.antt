-- ===== src/Gateway/Admission/Inherited.antt =====
-- The loop over the listeners of `admittedHostnames`, against the listeners that offer a hostname.
use netbird_operator.Prelude.{
  ◌≡◌, Bool, true, false, not, ◌&&◌, ◌||◌, Option, none, some, List, [], ◌∷◌, ◌++◌, arith, any, Str,
  str_eq, str_eq→eq, Bool-cases, Option-cases, inl, inr, ap,
}
use netbird_operator.Gateway.Types.{Listener, Gateway, Route}
use netbird_operator.Gateway.Hostname.{hostname_under_domain}
use netbird_operator.Gateway.Admission.{
  GatewayProxy, allowed_routes_permits, concrete, collect_inherited,
}
use netbird_operator.Gateway.Collect.{
  mem, Distinct, SameMembers, SameMembers-add, mem-snoc, snoc-Distinct,
}

module _ (gw : Gateway) (route : Route) (cfg : GatewayProxy) where
  abbrev pub offers_text : Option Str → Listener → Str → Bool
  offers_text none l k = false
  offers_text (some h) l k =
      str_eq k h
      && hostname_under_domain h cfg.domain
      && allowed_routes_permits gw l route.namespace

  -- The listener's own hostname is `k`, concrete, under the domain and open to the route.
  abbrev pub offers : Str → Listener → Bool
  offers k l = offers_text (concrete l.hostname) l k

  permits_congr :
      (k h : Str)
      → str_eq k h ≡ true
      → hostname_under_domain k cfg.domain ≡ hostname_under_domain h cfg.domain
  permits_congr k h e = ap (λ t. hostname_under_domain t cfg.domain) (str_eq→eq k h e)

  -- The test that the loop makes before it takes the hostname `h` of `l`.
  abbrev taken : Str → Listener → List Str → Bool
  taken h l seen =
      not (mem h seen)
      && hostname_under_domain h cfg.domain
      && allowed_routes_permits gw l route.namespace

  pub mem-collect_inherited :
      (ls : List Listener) (seen out : List Str) (k : Str)
      → SameMembers seen out
      → mem k (collect_inherited gw route cfg ls seen out) ≡ (mem k out || any (offers k) ls)
  unfolding collect_inherited mem
  mem-collect_inherited [] seen out k same = ground arith
  mem-collect_inherited (l ∷ ls) seen out k same = elim (Option-cases (concrete l.hostname)) [
    | inl e ↦ rw (e, collect_inherited) (mem-collect_inherited ls seen out k same)
    | inr (h, e) ↦
        rw (e, collect_inherited)
          (elim (Bool-cases (taken h l seen)) [
            | inl new ↦ rw new (
                ground (
                  arith,
                  mem-collect_inherited ls (h ∷ seen) (out ++ h ∷ []) k
                      (SameMembers-add h seen out same),
                  mem-snoc k h out,
                ))
            | inr old ↦ rw old (
                ground
                  (arith, mem-collect_inherited ls seen out k same, same h, same k, str_eq→eq k h))
          ])
  ]

  pub collect_inherited-Distinct :
      (ls : List Listener) (seen out : List Str)
      → SameMembers seen out
      → Distinct out
      → Distinct (collect_inherited gw route cfg ls seen out)
  unfolding collect_inherited
  collect_inherited-Distinct [] seen out same d = d
  collect_inherited-Distinct (l ∷ ls) seen out same d = elim (Option-cases (concrete l.hostname)) [
    | inl e ↦ rw (e, collect_inherited) (collect_inherited-Distinct ls seen out same d)
    | inr (h, e) ↦
        rw (e, collect_inherited)
          (elim (Bool-cases (taken h l seen)) [
            | inl new ↦ rw new (
                collect_inherited-Distinct ls (h ∷ seen) (out ++ h ∷ [])
                  (SameMembers-add h seen out same)
                  (snoc-Distinct h out (ground (arith, same h)) d))
            | inr old ↦ rw old (collect_inherited-Distinct ls seen out same d)
          ])
  ]
