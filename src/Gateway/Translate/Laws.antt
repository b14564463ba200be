-- ===== src/Gateway/Translate/Laws.antt =====
-- What a reconcile of a route applies, deletes and reports (gateway_controller.go).
use netbird_operator.Prelude.{
  arith, ◌≡◌, refl, ap, inl, inr, Bool, true, false, not, ◌||◌, List, [], ◌∷◌, keep, Bool-cases,
  Str, bytes, str_eq, if◌then◌else◌,
}
use netbird_operator.Runtime.{Result-cases, ok}
use netbird_operator.Api.Requests.{OwnerReference}
use netbird_operator.Server.{Call, Server, Library, World}
use netbird_operator.Mirror.{Requeue, requeue_after, resync_interval}
use netbird_operator.Gateway.Types.{Gateway, Route, ParentRef, ProxyBackend}
use netbird_operator.Gateway.Collect.{mem}
use netbird_operator.Gateway.Admission.{GatewayProxy, admitted_hostnames}
use netbird_operator.Gateway.Backends.{Unsupported}
use netbird_operator.Gateway.Naming.{http_route_label_value, route_child_name}
use netbird_operator.Gateway.Status.{
  Condition, RouteParentStatus, RouteObject, SetCondition, gateway_controller,
}
use netbird_operator.Gateway.Translate.{
  set_route_condition, outcome, route_condition, reason_text, set_parents, service_key,
  service_child, prune_services, prune, apply_services, translate, reject,
}

-- The entry is that of the operator.
abbrev pub is_ours : RouteParentStatus → Bool
is_ours p = str_eq p.controller_name gateway_controller

-- Setting the condition leaves the entries of other controllers as they are, in their order.
pub keep-set_parents :
    (set_condition : SetCondition) (parent : ParentRef) (c : Condition)
    (ps : List RouteParentStatus)
    → keep (λ p. not (is_ours p)) (set_parents set_condition parent c ps)
      ≡ keep (λ p. not (is_ours p)) ps
unfolding set_parents str_eq
keep-set_parents set_condition parent c [] = refl
keep-set_parents set_condition parent c (p ∷ ps) = elim (Bool-cases (is_ours p)) [
  | inl e ↦ rw (e, e) refl
  | inr e ↦ rw (e, e) (ap (λ t. p ∷ t) (keep-set_parents set_condition parent c ps))
]

-- The list has an element.
abbrev pub is_set : List Str → Bool
is_set [] = false
is_set (_ ∷ _) = true

module _ (server : Server RouteObject) (lib : Library) (set_condition : SetCondition)
    (hex_sha256 : Str → Str) where
  -- The calls that delete the listed children which are not wanted.
  abbrev deletions : Route → List Str → List Str → List (Call RouteObject) → List (Call RouteObject)
  deletions route desired [] h = h
  deletions route desired (name ∷ names) h = deletions route desired names (
      if mem name desired
      then h
      else Call.delete_service (service_key server lib set_condition hex_sha256 route name) ∷ h)

  prune_services_done :
      (route : Route) (desired names : List Str) (w : World RouteObject) (r : Unit {0})
      → let m = prune_services server lib set_condition hex_sha256 route desired names w in
        m.0 ≡ ok r → m.1 ≡ record w { history = deletions route desired names w.history }
  unfolding prune_services
  prune_services_done route desired [] w r h = refl
  prune_services_done route desired (name ∷ names) w r h = elim (Bool-cases (mem name desired)) [
    | inl e ↦ rw e (prune_services_done route desired names w r (rw e at h))
    | inr e ↦
        let key = service_key server lib set_condition hex_sha256 route name in
        let v = record w { history = Call.delete_service key ∷ w.history } in
        elim (Result-cases (server.delete_service w.history key)) [
          | inl (_, d) ↦ rw (e, d) (prune_services_done route desired names v r (rw (e, d) at h))
          | inr (x, d) ↦ elim (Bool-cases (lib.kube_is_not_found x)) [
            | inl gone ↦
                rw (e, d, gone) (prune_services_done route desired names v r (rw (e, d, gone) at h))
            | inr other ↦ let failed = rw (e, d, other) at h in absurd (ground arith)
          ]
        ]
  ]

  -- The list of the children of a route, and the deletion of those that are not wanted.
  abbrev pub Pruned : Route → List Str → List (Call RouteObject) → List (Call RouteObject) → Type 0
  Pruned route desired before after =
      let ns = route.namespace in
      let label = http_route_label_value hex_sha256 route in
      (names : List Str) × (server.list_services before ns label ≡ ok names)
      × (after ≡ deletions route desired names (Call.list_services ns label ∷ before))

  prune_done :
      (route : Route) (desired : List Str) (w : World RouteObject) (r : Unit {0})
      → let m = prune server lib set_condition hex_sha256 route desired w in
        let ns = route.namespace in
        let label = http_route_label_value hex_sha256 route in
        m.0 ≡ ok r
        → (names : List Str) × (server.list_services w.history ns label ≡ ok names)
          × (m.1 ≡ record w {
            history = deletions route desired names (Call.list_services ns label ∷ w.history);
          })
  unfolding prune
  prune_done route desired w r h =
      let ns = route.namespace in
      let label = http_route_label_value hex_sha256 route in
      elim (Result-cases (server.list_services w.history ns label)) [
        | inr (x, e) ↦ let failed = rw e at h in absurd (ground arith)
        | inl (names, e) ↦
            let v = record w { history = Call.list_services ns label ∷ w.history } in
            let calls = prune_services_done route desired names v r (rw e at h) in
            rw (e, calls) (names, refl, refl)
      ]

  -- The names of the children of some hostnames, in front of others.
  abbrev child_names : Route → List Str → List Str → List Str
  child_names route [] desired = desired
  child_names route (h ∷ hs) desired =
      child_names route hs (route_child_name hex_sha256 route.name h ∷ desired)

  module _ (owner : OwnerReference) (route : Route) (cfg : GatewayProxy)
      (backends : List ProxyBackend) where
    -- The history behind the applied children of some hostnames.
    abbrev pub applied : List Str → List (Call RouteObject) → List (Call RouteObject)
    applied [] h = h
    applied (host ∷ hosts) h = applied hosts (
        Call.apply (service_child server lib set_condition hex_sha256 owner route cfg backends host)
        ∷ h)

    apply_services_done :
        (hosts desired result : List Str) (w : World RouteObject)
        → let m =
            apply_services server lib set_condition hex_sha256 owner route cfg backends hosts
              desired w in
          m.0 ≡ ok result
          → (result ≡ child_names route hosts desired)
            × (m.1 ≡ record w { history = applied hosts w.history })
    unfolding apply_services
    apply_services_done [] desired result w h = (ground arith, refl)
    apply_services_done (host ∷ hosts) desired result w h =
        let child =
          service_child server lib set_condition hex_sha256 owner route cfg backends host in
        let name = route_child_name hex_sha256 route.name host in
        let v = record w { history = Call.apply child ∷ w.history } in
        elim (Result-cases (server.apply w.history child)) [
          | inl (_, e) ↦
              rw (e, apply_services)
                (apply_services_done hosts (name ∷ desired) result v (rw (e, apply_services) at h))
          | inr (x, e) ↦ let failed = rw (e, apply_services) at h in absurd (ground arith)
        ]

    -- What a translated route leaves: a child for each admitted hostname, the others of the listed
    -- children deleted, and the condition reported last.
    abbrev pub Translated : Gateway → ParentRef → World RouteObject → World RouteObject → Type 0
    Translated gw parent w v =
        let hosts = admitted_hostnames gw route cfg in
        let names = child_names route hosts [] in
        let c = outcome cfg route route.hostnames names in
        (h : List (Call RouteObject)) × Pruned route names (applied hosts w.history) h
        × (v.object.parents ≡ set_parents set_condition parent c w.object.parents)
        × (v.history ≡ Call.status_update v.object ∷ h)

    -- A translation that succeeds applies one child for each hostname that the Gateway admits, in
    -- order, then deletes of the listed children of the route exactly those with another name, and
    -- then reports the condition; the route is tried again at the resync interval.
    pub translate-Translated :
        (gw : Gateway) (parent : ParentRef) (w : World RouteObject) (q : Requeue)
        → let m =
            translate server lib set_condition hex_sha256 owner gw parent route cfg backends w in
          m.0 ≡ ok q → (q ≡ requeue_after resync_interval) × Translated gw parent w m.1
    unfolding translate set_route_condition
    translate-Translated gw parent w q h =
        let hosts = admitted_hostnames gw route cfg in
        elim (Result-cases
          (apply_services server lib set_condition hex_sha256 owner route cfg backends hosts []
            w).0) [
              | inr (x, e) ↦ let failed = rw e at h in absurd (ground arith)
              | inl (desired, e) ↦
                  let (same, calls) = apply_services_done hosts [] desired w e in
                  let names = child_names route hosts [] in
                  let v = record w { history = applied hosts w.history } in
                  elim (Result-cases (prune server lib set_condition hex_sha256 route names v).0) [
                    | inr (x, f) ↦ let failed = rw (e, same, calls, f) at h in absurd (ground arith)
                    | inl (r, f) ↦
                        let (listed, read, there) = prune_done route names v r f in
                        let after = deletions route names listed (
                          Call.list_services route.namespace
                            (http_route_label_value hex_sha256 route)
                          ∷ v.history) in
                        let c = outcome cfg route route.hostnames names in
                        let o = record w.object {
                          parents = set_parents set_condition parent c w.object.parents;
                        } in
                        elim (Result-cases (server.status_update after o)) [
                          | inr (x, g) ↦
                              let failed = rw (e, same, calls, f, there, g) at h in
                              absurd (ground arith)
                          | inl (_, g) ↦
                              let finished = rw (e, same, calls, f, there, g) at h in
                              (
                                ground arith,
                                rw (e, same, calls, f, there, g)
                                    (after, (listed, read, refl), refl, refl),
                              )
                        ]
                  ]
            ]

  -- A route that uses what cannot be represented ends, where its rejection succeeds, without any of
  -- the children that the cluster listed, and with the condition that names the reason.
  reject-Pruned :
      (parent : ParentRef) (route : Route) (reason : Unsupported) (w : World RouteObject)
      (q : Requeue)
      → let m = reject server lib set_condition hex_sha256 parent route reason w in
        let c = route_condition route false (bytes "UnsupportedValue") (reason_text reason) in
        m.0 ≡ ok q
        → (h : List (Call RouteObject)) × Pruned route [] w.history h
          × (m.1.object.parents ≡ set_parents set_condition parent c w.object.parents)
          × (m.1.history ≡ Call.status_update m.1.object ∷ h)
  unfolding reject set_route_condition
  reject-Pruned parent route reason w q h =
      elim (Result-cases (prune server lib set_condition hex_sha256 route [] w).0) [
        | inr (x, f) ↦ let failed = rw f at h in absurd (ground arith)
        | inl (r, f) ↦
            let (listed, read, there) = prune_done route [] w r f in
            let after = deletions route [] listed (
              Call.list_services route.namespace (http_route_label_value hex_sha256 route)
              ∷ w.history) in
            let c = route_condition route false (bytes "UnsupportedValue") (reason_text reason) in
            let o = record w.object {
              parents = set_parents set_condition parent c w.object.parents;
            } in
            elim (Result-cases (server.status_update after o)) [
              | inr (x, g) ↦ let failed = rw (f, there, g) at h in absurd (ground arith)
              | inl (_, g) ↦ rw (f, there, g) (after, (listed, read, refl), refl, refl)
            ]
      ]

  child_names_set :
      (route : Route) (hosts desired : List Str)
      → is_set (child_names route hosts desired) ≡ (is_set hosts || is_set desired)
  child_names_set route [] desired = refl
  child_names_set route (h ∷ hs) desired =
      ground (arith, child_names_set route hs (route_child_name hex_sha256 route.name h ∷ desired))

  outcome_set :
      (cfg : GatewayProxy) (route : Route) (hostnames names : List Str)
      → (outcome cfg route hostnames names).status ≡ is_set names
  unfolding outcome
  outcome_set cfg route [] [] = refl
  outcome_set cfg route (h ∷ hs) [] = refl
  outcome_set cfg route hostnames (n ∷ ns) = refl

  -- A translated route is Accepted exactly when the Gateway admits one of its hostnames.
  outcome_admitted :
      (gw : Gateway) (route : Route) (cfg : GatewayProxy)
      → let hosts = admitted_hostnames gw route cfg in
        (outcome cfg route route.hostnames (child_names route hosts [])).status ≡ is_set hosts
  outcome_admitted gw route cfg =
      let hosts = admitted_hostnames gw route cfg in
      ground (
        arith,
        outcome_set cfg route route.hostnames (child_names route hosts []),
        child_names_set route hosts [],
      )
