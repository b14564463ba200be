-- ===== src/Gateway/Translate/Children.antt =====
-- The children of a route in the cluster, as a set (gateway_controller.go).
use netbird_operator.Prelude.{
  arith, ◌≡◌, ap, ◌∙◌, inl, inr, Bool, true, false, not, ◌&&◌, ◌||◌, List, [], ◌∷◌, any, Bool-cases,
  Str, str_eq, str_eq_refl, str_eq→eq,
}
use netbird_operator.Runtime.{Result, Result-cases, ok, err}
use netbird_operator.Api.{Reference}
use netbird_operator.Api.Requests.{OwnerReference}
use netbird_operator.Mirror.{Requeue}
use netbird_operator.Server.{Call, Child, Server, Library, World}
use netbird_operator.Gateway.Types.{Gateway, ParentRef, Route, ProxyBackend}
use netbird_operator.Gateway.Collect.{mem}
use netbird_operator.Gateway.Admission.{GatewayProxy, admitted_hostnames}
use netbird_operator.Gateway.Naming.{http_route_label_value, route_child_name}
use netbird_operator.Gateway.Status.{RouteObject, SetCondition}
use netbird_operator.Gateway.Translate.{
  set_parents, outcome, set_route_condition, prune, prune_services, apply_services, service_child,
  service_key, translate,
}

mem_same : (n name : Str) (ds : List Str) → str_eq n name ≡ true → mem n ds ≡ mem name ds
mem_same n name ds e = ap (λ t. mem t ds) (str_eq→eq n name e)

-- A listed child that is wanted stays.
wanted :
    (there : Bool) (desired : List Str) (n name : Str) (later : Bool)
    → mem name desired ≡ true
    → (there && not (later && not (mem n desired)))
      ≡ (there && not ((str_eq n name || later) && not (mem n desired)))
wanted there desired n name later e = ground (arith, mem_same n name desired)

-- What was applied and is not removed.
left :
    (there listed desired before named : Bool)
    → listed ≡ there
    → there ≡ (before || named)
    → desired ≡ (named || false)
    → (there && not (listed && not desired)) ≡ named
left there listed desired before named e f g = ground arith

-- One that is not wanted was removed.
removed :
    (there now : Bool) (desired : List Str) (n name : Str) (later : Bool)
    → mem name desired ≡ false
    → now ≡ (not (str_eq n name) && there)
    → (now && not (later && not (mem n desired)))
      ≡ (there && not ((str_eq n name || later) && not (mem n desired)))
removed there now desired n name later e f = ground (arith, mem_same n name desired)

module _ (server : Server RouteObject) (lib : Library) (set_condition : SetCondition)
    (hex_sha256 : Str → Str) where
  abbrev is_done : Result (Unit {0}) → Bool
  is_done (ok _) = true
  is_done (err e) = false

  -- The child is no longer there.
  abbrev is_away : Result (Unit {0}) → Bool
  is_away (ok _) = true
  is_away (err e) = lib.kube_is_not_found e

  abbrev is_child : Route → Str → Reference → Bool
  is_child route n ref = str_eq ref.namespace route.namespace && str_eq n ref.name

  -- The cluster has a child of this name after the calls, by the applies and the deletes that were
  -- answered.
  unfoldable pub has_child : Route → Str → List (Call RouteObject) → Bool
  has_child route n [] = false
  has_child route n (Call.apply (Child.proxy_service o ref label spec) ∷ h) =
      let rest = has_child route n h in
      (is_done (server.apply h (Child.proxy_service o ref label spec)) && is_child route n ref)
      || rest
  has_child route n (Call.delete_service ref ∷ h) =
      let rest = has_child route n h in
      not (is_away (server.delete_service h ref) && is_child route n ref) && rest
  has_child route n (_ ∷ h) = has_child route n h

  prune_services_child :
      (route : Route) (desired names : List Str) (w : World RouteObject) (r : Unit {0}) (n : Str)
      → let m = prune_services server lib set_condition hex_sha256 route desired names w in
        m.0 ≡ ok r
        → has_child route n m.1.history
          ≡ (has_child route n w.history && not (mem n names && not (mem n desired)))
  unfolding prune_services has_child mem
  prune_services_child route desired [] w r n h = ground arith
  prune_services_child route desired (name ∷ names) w r n h =
      let key = service_key server lib set_condition hex_sha256 route name in
      let v = record w { history = Call.delete_service key ∷ w.history } in
      elim (Bool-cases (mem name desired)) [
        | inl e ↦
            let rest = prune_services_child route desired names w r n (rw e at h) in
            rw e (rest ∙ wanted (has_child route n w.history) desired n name (mem n names) e)
        | inr e ↦ elim (Result-cases (server.delete_service w.history key)) [
          | inl (_, d) ↦
              let rest = prune_services_child route desired names v r n (rw (e, d) at h) in
              let away : has_child route n v.history
                  ≡ (not (str_eq n name) && has_child route n w.history) =
                rw (d, has_child) (ground (arith, str_eq_refl route.namespace)) in
              rw (e, d)
                (rest ∙ removed (has_child route n w.history) _ desired n name (mem n names) e away)
          | inr (x, d) ↦ elim (Bool-cases (lib.kube_is_not_found x)) [
            | inr failed ↦ let failing = rw (e, d, failed) at h in absurd (ground arith)
            | inl gone ↦
                let rest = prune_services_child route desired names v r n (rw (e, d, gone) at h) in
                let away : has_child route n v.history
                    ≡ (not (str_eq n name) && has_child route n w.history) =
                  rw (d, gone, has_child) (ground (arith, str_eq_refl route.namespace)) in
                rw (e, d, gone)
                  (rest
                    ∙ removed (has_child route n w.history) _ desired n name (mem n names) e away)
          ]
        ]
      ]

  module _ (owner : OwnerReference) (route : Route) (cfg : GatewayProxy)
      (backends : List ProxyBackend) where
    -- A child is named after one of the hostnames.
    abbrev pub is_name : Str → List Str → Bool
    is_name n hosts = any (λ host. str_eq n (route_child_name hex_sha256 route.name host)) hosts

    apply_services_child :
        (hosts desired result : List Str) (w : World RouteObject) (n : Str)
        → let m =
            apply_services server lib set_condition hex_sha256 owner route cfg backends hosts
              desired w in
          m.0 ≡ ok result
          → (mem n result ≡ (is_name n hosts || mem n desired))
            × (has_child route n m.1.history ≡ (has_child route n w.history || is_name n hosts))
    unfolding apply_services has_child mem
    apply_services_child [] desired result w n h = (ground arith, ground arith)
    apply_services_child (host ∷ hosts) desired result w n h =
        let child =
          service_child server lib set_condition hex_sha256 owner route cfg backends host in
        let name = route_child_name hex_sha256 route.name host in
        let v = record w { history = Call.apply child ∷ w.history } in
        elim (Result-cases (server.apply w.history child)) [
          | inr (x, e) ↦ let failed = rw (e, apply_services) at h in absurd (ground arith)
          | inl (_, e) ↦
              let (names, there) =
                apply_services_child hosts (name ∷ desired) result v n
                  (rw (e, apply_services) at h) in
              let made : has_child route n v.history
                  ≡ (str_eq n name || has_child route n w.history) =
                rw (e, has_child) (ground (arith, str_eq_refl route.namespace)) in
              rw (e, apply_services) (ground arith, ground arith)
        ]

    -- After a translation that succeeds, where the list showed the children that the cluster then
    -- had, the cluster has a child of a name exactly when it is that of a hostname that the Gateway
    -- admits, whatever children there were before.
    pub translate-has_child :
        (gw : Gateway) (parent : ParentRef) (w : World RouteObject) (q : Requeue)
        (listed : List Str)
        → let hosts = admitted_hostnames gw route cfg in
          let h =
            (apply_services server lib set_condition hex_sha256 owner route cfg backends hosts []
              w).1.history in
          let m =
            translate server lib set_condition hex_sha256 owner gw parent route cfg backends w in
          server.list_services h route.namespace (http_route_label_value hex_sha256 route)
            ≡ ok listed
          → ((n : Str) → mem n listed ≡ has_child route n h)
          → m.0 ≡ ok q
          → (n : Str) → has_child route n m.1.history ≡ is_name n hosts
    unfolding translate prune set_route_condition has_child mem
    translate-has_child gw parent w q listed read shown h n =
        let hosts = admitted_hostnames gw route cfg in
        let end =
          apply_services server lib set_condition hex_sha256 owner route cfg backends hosts [] w in
        elim (Result-cases end.0) [
          | inr (x, e) ↦ let failed = rw e at h in absurd (ground arith)
          | inl (desired, e) ↦
              let (names, there) = apply_services_child hosts [] desired w n e in
              let v = record end.1 {
                history =
                    Call.list_services route.namespace (http_route_label_value hex_sha256 route)
                    ∷ end.1.history;
              } in
              let pruned =
                prune_services server lib set_condition hex_sha256 route desired listed v in
              elim (Result-cases pruned.0) [
                | inr (x, f) ↦ let failed = rw (e, read, f) at h in absurd (ground arith)
                | inl (r, f) ↦
                    let kept = prune_services_child route desired listed v r n f in
                    let u = pruned.1 in
                    let c = outcome cfg route route.hostnames desired in
                    let o = record u.object {
                      parents = set_parents set_condition parent c u.object.parents;
                    } in
                    let same = kept ∙ left _ _ _ _ _ (shown n) there names in
                    elim (Result-cases (server.status_update u.history o)) [
                      | inr (x, g) ↦ let failed = rw (e, read, f, g) at h in absurd (ground arith)
                      | inl (_, g) ↦ rw (e, read, f, g) same
                    ]
              ]
        ]
