-- ===== src/Gateway/Translate.antt =====
-- `HTTPRouteReconciler`: the ReverseProxyServices of a route (gateway_controller.go).
pub mod Laws
pub mod Children
use netbird_operator.Prelude.{
  ℕ, Bool, true, false, not, ◌&&◌, Option, none, some, List, [], ◌∷◌, ◌++◌, Str, bytes, is_empty,
  str_eq, get_or, if◌then◌else◌,
}
use netbird_operator.Runtime.{Error, Result, ok, err}
use netbird_operator.Runtime.Exec.{Exec, pure, raise, modify, gets, attempt, continue, ◌>>=◌, ◌>>◌}
use netbird_operator.Api.{Meta, Reference}
use netbird_operator.Api.Requests.{OwnerReference}
use netbird_operator.Server.{
  Call, Server, Library, World, Child, RouteServiceSpec, ask, ignore_not_found,
}
use netbird_operator.Mirror.{Requeue, done, requeue_after, resync_interval, dependency_retry}
use netbird_operator.SetupKeyController.{controller_reference}
use netbird_operator.Gateway.Types.{Gateway, Route, ParentRef, ProxyBackend}
use netbird_operator.Gateway.Collect.{mem}
use netbird_operator.Gateway.Admission.{GatewayProxy, admitted_hostnames}
use netbird_operator.Gateway.Config.{gateway_proxy_config}
use netbird_operator.Gateway.Backends.{Checked, Unsupported, route_backends}
use netbird_operator.Gateway.Naming.{http_route_label_value, route_child_name}
use netbird_operator.Gateway.Status.{
  Condition, RouteParentStatus, RouteObject, SetCondition, gateway_controller, accepted_type,
}

abbrev no_match_text : Str
no_match_text = bytes "no route hostname matches the Gateway's proxy listener domain"

abbrev no_hostnames_text : GatewayProxy → Route → Str
no_hostnames_text cfg route =
    bytes "route has no hostnames and no concrete listener hostname under "
    ++ (cfg.domain
        ++ (bytes " admits namespace "
            ++ (route.namespace ++ bytes "; set spec.hostnames explicitly")))

abbrev pub route_condition : Route → Bool → Str → Str → Condition
route_condition route status reason msg = record {
  type = accepted_type;
  status = status;
  reason = reason;
  message = msg;
  observed_generation = route.generation;
}

-- The messages of `routeBackends`.
unfoldable pub reason_text : Unsupported → Str
reason_text Unsupported.rule_filters = bytes "route rule filters are not supported"
reason_text Unsupported.path_type = bytes "only PathPrefix path matches are supported"
reason_text Unsupported.backend_filters = bytes "backendRef filters are not supported"
reason_text Unsupported.weights =
    bytes "differing backend weights are not supported (the NetBird proxy has no weighted routing)"
reason_text Unsupported.no_traffic =
    bytes "a rule routes no traffic (no backendRefs, or all weights 0)"
reason_text Unsupported.no_rules = bytes "no backends to route to (route has no rules)"
reason_text Unsupported.too_many = bytes "too many path/backend combinations (max 64)"

-- The condition of a route from its hostnames and the names of its children.
unfoldable pub outcome : GatewayProxy → Route → List Str → List Str → Condition
outcome cfg route hostnames (name ∷ names) =
    route_condition route true (bytes "Accepted")
      (bytes "Translated to a NetBird ReverseProxyService")
outcome cfg route (h ∷ hs) [] =
    route_condition route false (bytes "NoMatchingListenerHostname") no_match_text
outcome cfg route [] [] =
    route_condition route false (bytes "UnsupportedValue") (no_hostnames_text cfg route)

-- What the owner reference takes from a route.
abbrev pub meta_of : RouteObject → Meta
meta_of o = record {
  name = o.route.name;
  namespace = o.route.namespace;
  uid = o.uid;
  deleting = false;
  finalizers = [];
}

module _ (set_condition : SetCondition) where
  abbrev new_parent : ParentRef → RouteParentStatus
  new_parent parent = record {
    parent_ref = parent;
    controller_name = gateway_controller;
    conditions = [];
  }

  -- The condition, set on the first entry of our controller, or on one that is appended.
  unfoldable pub set_parents :
      ParentRef → Condition → List RouteParentStatus → List RouteParentStatus
  set_parents parent c [] = record (new_parent parent) { conditions = set_condition c [] } ∷ []
  set_parents parent c (p ∷ ps) =
      let rest = set_parents parent c ps in
      if str_eq p.controller_name gateway_controller
      then record p { conditions = set_condition c p.conditions } ∷ ps
      else p ∷ rest

module _ (server : Server RouteObject) (lib : Library) (set_condition : SetCondition)
    (hex_sha256 : Str → Str) where
  -- `setRouteCondition`
  unfoldable pub set_route_condition : ParentRef → Condition → Exec (World RouteObject) (Unit {0})
  unfolding set_parents
  set_route_condition parent c w =
      let o = record w.object { parents = set_parents set_condition parent c w.object.parents } in
      ask (Call.status_update o) (λ h. server.status_update h o) (record w { object = o })

  abbrev pub service_key : Route → Str → Reference
  service_key route name = record { name = name; namespace = route.namespace }

  abbrev ignore_missing : Result (Unit {0}) → Exec (World RouteObject) (Unit {0})
  ignore_missing (ok _) = pure tt
  ignore_missing (err e) = if lib.kube_is_not_found e then pure tt else raise e

  abbrev remove_service : Route → Str → Exec (World RouteObject) (Unit {0})
  remove_service route name =
      attempt (
        ask (Call.delete_service (service_key route name))
          (λ h. server.delete_service h (service_key route name)))
      >>= ignore_missing

  -- The loop of `prune`, over the names of the listed children.
  unfoldable pub prune_services : Route → List Str → List Str → Exec (World RouteObject) (Unit {0})
  prune_services route desired [] = pure tt
  prune_services route desired (name ∷ names) = do
    if mem name desired then pure tt else remove_service route name
    prune_services route desired names

  -- `prune`
  unfoldable pub prune : Route → List Str → Exec (World RouteObject) (Unit {0})
  unfolding prune_services
  prune route desired = do
    let ns = route.namespace
    let label = http_route_label_value hex_sha256 route
    names ← ask (Call.list_services ns label) (λ h. server.list_services h ns label)
    prune_services route desired names

  -- The child of one hostname.
  abbrev pub service_child : OwnerReference → Route → GatewayProxy → List ProxyBackend → Str → Child
  service_child owner route cfg backends hostname =
      Child.proxy_service owner
        (service_key route (route_child_name hex_sha256 route.name hostname))
        (http_route_label_value hex_sha256 route)
        (record {
          domain = hostname;
          proxy_cluster = cfg.cluster_address;
          pass_host_header = true;
          backends = backends;
        })

  -- The loop over the admitted hostnames, with the names in the map `desired`.
  unfoldable pub apply_services :
      OwnerReference
      → Route
      → GatewayProxy
      → List ProxyBackend
      → List Str
      → List Str
      → Exec (World RouteObject) (List Str)
  apply_services owner route cfg backends [] desired = pure desired
  apply_services owner route cfg backends (hostname ∷ hostnames) desired = do
    let child = service_child owner route cfg backends hostname
    ask (Call.apply child) (λ h. server.apply h child)
    apply_services owner route cfg backends hostnames
        (route_child_name hex_sha256 route.name hostname ∷ desired)

  -- The end of `Reconcile`, for a route whose backends are supported.
  unfoldable pub translate :
      OwnerReference
      → Gateway
      → ParentRef
      → Route
      → GatewayProxy
      → List ProxyBackend
      → Exec (World RouteObject) Requeue
  unfolding apply_services prune set_route_condition outcome
  translate owner gw parent route cfg backends = do
    desired ← apply_services owner route cfg backends (admitted_hostnames gw route cfg) []
    prune route desired
    set_route_condition parent (outcome cfg route route.hostnames desired)
    pure (requeue_after resync_interval)

  -- A route that is rejected loses its children.
  unfoldable pub reject : ParentRef → Route → Unsupported → Exec (World RouteObject) Requeue
  unfolding prune set_route_condition
  reject parent route reason = do
    prune route []
    set_route_condition parent
        (route_condition route false (bytes "UnsupportedValue") (reason_text reason))
    pure done

  abbrev backed :
      OwnerReference
      → Gateway
      → ParentRef
      → Route
      → GatewayProxy
      → Checked (List ProxyBackend)
      → Exec (World RouteObject) Requeue
  backed owner gw parent route cfg (Checked.unsupported reason) = reject parent route reason
  backed owner gw parent route cfg (Checked.ok backends) =
      translate owner gw parent route cfg backends

  abbrev owned :
      Gateway
      → ParentRef
      → Route
      → GatewayProxy
      → Result OwnerReference
      → Exec (World RouteObject) Requeue
  owned gw parent route cfg (err e) = raise e
  owned gw parent route cfg (ok owner) = backed owner gw parent route cfg (route_backends route)

  abbrev configured :
      RouteObject → Gateway → ParentRef → Option GatewayProxy → Exec (World RouteObject) Requeue
  configured o gw parent none = do prune o.route []; pure (requeue_after dependency_retry)
  configured o gw parent (some cfg) =
      owned gw parent o.route cfg (controller_reference lib (meta_of o))

  -- `Reconcile` behind the Gateway that the route attaches to.
  unfoldable pub attached :
      RouteObject → Option (Gateway × ParentRef) → Exec (World RouteObject) Requeue
  unfolding prune translate reject
  attached o none = do prune o.route []; pure done
  attached o (some (gw, parent)) = configured o gw parent (gateway_proxy_config gw)

  -- The Gateway of one parent reference, unless the loop skips it.
  abbrev skip_missing : {A : Type 0} → Result A → Exec (World RouteObject) (Option A)
  skip_missing (ok a) = pure (some a)
  skip_missing (err e) = if lib.kube_is_not_found e then pure none else raise e

  abbrev ours : Gateway → Option Str → Option Gateway
  ours gw none = none
  ours gw (some controller) = if str_eq controller gateway_controller then some gw else none

  abbrev of_class : Option Gateway → Exec (World RouteObject) (Option Gateway)
  of_class none = pure none
  of_class (some gw) = do
    found ← attempt (ask (Call.kube_class gw.class_name) (λ h. server.kube_class h gw.class_name))
    controller ← skip_missing found
    pure (ours gw controller)

  abbrev parent_key : Route → ParentRef → Reference
  parent_key route p = record { name = p.name; namespace = get_or p.namespace route.namespace }

  -- The body of the loop of `resolveGateway`.
  unfoldable parent_gateway : Route → ParentRef → Exec (World RouteObject) (Option Gateway)
  parent_gateway route p = do
    let key = parent_key route p
    found ← attempt (ask (Call.kube_gateway key) (λ h. server.kube_gateway h key))
    gw ← skip_missing found
    of_class gw

  -- The loop of `resolveGateway`.
  unfoldable resolve_loop :
      Route → List ParentRef → Exec (World RouteObject) (Option (Gateway × ParentRef))
  unfolding parent_gateway
  resolve_loop route [] = pure none
  resolve_loop route (p ∷ ps) = parent_gateway route p >>= λ o. elim o [
    | some gw ↦ pure (some (gw, p))
    | none ↦ resolve_loop route ps
  ]

  -- `resolveGateway`
  abbrev resolve_gateway : Route → Exec (World RouteObject) (Option (Gateway × ParentRef))
  resolve_gateway route = resolve_loop route route.parent_refs

  abbrev load : Result RouteObject → Exec (World RouteObject) Requeue
  load (err e) = ignore_not_found lib e done
  load (ok o) = do
    modify (λ w. record w { object = o })
    parent ← resolve_gateway o.route
    attached o parent

  -- `HTTPRouteReconciler.Reconcile`
  unfoldable pub reconcile : Reference → Exec (World RouteObject) Requeue
  unfolding attached resolve_loop
  reconcile req = do found ← attempt (ask (Call.get req) (λ h. server.get h req)); load found
