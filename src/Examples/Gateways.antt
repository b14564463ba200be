-- ===== src/Examples/Gateways.antt =====
-- What a Gateway reports and what a route of it leaves in the cluster.
use netbird_operator.Gateway.Config.{route_references_gateway}
use netbird_operator.Gateway.Naming.{replace_all, safe_name, route_child_name}
use netbird_operator.Gateway.Hostname.{
  listener_hostname_matches, listener_under_domain, hostname_under_domain,
}
use netbird_operator.Gateway.Collect.{mem, collect_new}
use netbird_operator.Prelude.{
  has_prefix, trim_prefix, has_suffix, ◌≡◌, refl, true, false, not, some, List, [], ◌∷◌, Str, bytes,
  keep, str_eq, str_eq_refl, str_eq→eq, if◌then◌else◌, inl, inr, Bool-cases,
}
use netbird_operator.Runtime.{Error, ok}
use netbird_operator.Server.{Call, Server, World}
use netbird_operator.Mirror.{requeue_after, resync_interval}
use netbird_operator.Gateway.Types.{ParentRef, Gateway}
use netbird_operator.Gateway.Admission.{
  allowed_routes_permits, gateway_admits_route, admitted_hostnames,
}
use netbird_operator.Gateway.Status.{
  Condition, SetCondition, RouteParentStatus, RouteObject, GatewayObject,
}
use netbird_operator.Gateway.Status.Laws.{is_counted, is_counted-admitted, is_counted_wild}
use netbird_operator.Gateway.Reconcile.{sync_status}
use netbird_operator.Gateway.Reconcile.Listeners.{find_condition, SetsCondition}
use netbird_operator.Gateway.Reconcile.Laws.{IsSynced, sync_status-IsSynced}
use netbird_operator.Gateway.Translate.{set_parents, translate, service_child, apply_services}
use netbird_operator.Gateway.Translate.Children.{has_child, is_name, translate-has_child}
use netbird_operator.Gateway.Naming.{route_child_name}
use netbird_operator.Gateway.Collect.{mem}
use netbird_operator.Gateway.Translate.Laws.{
  is_ours, keep-set_parents, is_set, Translated, translate-Translated,
}
use netbird_operator.Examples.Worlds.{quiet, library, world, owner}
use netbird_operator.Examples.Clusters.{cluster}
use netbird_operator.Examples.Routes.{gateway, proxy, declared, inheriting, public, backends}

-- The condition replaces that of its type, in its place.
abbrev set_condition : SetCondition
set_condition c [] = c ∷ []
set_condition c (d ∷ ds) = if str_eq d.type c.type then c ∷ ds else d ∷ set_condition c ds

sets : (c : Condition) (cs : List Condition) → find_condition c.type (set_condition c cs) ≡ some c
sets c [] = rw (str_eq_refl c.type) refl
sets c (d ∷ ds) = elim (Bool-cases (str_eq d.type c.type)) [
  | inl e ↦ rw (e, str_eq_refl c.type) refl
  | inr e ↦ rw (e, e) (sets c ds)
]

leaves :
    (c : Condition) (cs : List Condition) (type : Str)
    → str_eq c.type type ≡ false
    → find_condition type (set_condition c cs) ≡ find_condition type cs
leaves c [] type away = rw away refl
leaves c (d ∷ ds) type away = elim (Bool-cases (str_eq d.type c.type)) [
  | inl e ↦ rw (e, away, str_eq→eq d.type c.type e, away) refl
  | inr e ↦ elim (Bool-cases (str_eq d.type type)) [
    | inl same ↦ rw (e, same) refl
    | inr differs ↦ rw (e, differs) (leaves c ds type away)
  ]
]

set_condition-SetsCondition : SetsCondition set_condition
set_condition-SetsCondition = record { sets = sets; leaves = leaves }

abbrev accepted : Condition
accepted = record {
  type = bytes "Accepted";
  status = true;
  reason = bytes "Accepted";
  message = [];
  observed_generation = 1;
}

abbrev parent : ParentRef
parent = record { namespace = some (bytes "infra"); name = bytes "gw" }

abbrev foreign_status : RouteParentStatus
foreign_status = record {
  parent_ref = parent;
  controller_name = bytes "example.org/gateway";
  conditions = accepted ∷ [];
}

keep-set_parents_example :
    keep (λ p. not (is_ours p)) (set_parents set_condition parent accepted (foreign_status ∷ []))
    ≡ foreign_status ∷ []
unfolding str_eq
keep-set_parents_example = keep-set_parents set_condition parent accepted (foreign_status ∷ [])

abbrev digest : Str → Str
digest s = s

abbrev shop_route : RouteObject
shop_route = record { uid = bytes "u2"; route = declared; parents = [] }

-- One child is listed that the route no longer wants.
abbrev routes_server : Server RouteObject
routes_server = record quiet {
  list_services = λ h ns label. ok (bytes "gone" ∷ []);
  delete_service = λ h ref. ok tt;
}

translate-Translated_example :
    (requeue_after resync_interval ≡ requeue_after resync_interval)
    × Translated routes_server library set_condition digest owner declared proxy backends gateway
        parent
        (world shop_route)
        (translate routes_server library set_condition digest owner gateway parent declared proxy
          backends
          (world shop_route)).1
unfolding translate admitted_hostnames collect_new mem gateway_admits_route hostname_under_domain
    str_eq has_suffix listener_under_domain trim_prefix listener_hostname_matches
    allowed_routes_permits route_child_name safe_name replace_all
translate-Translated_example =
    translate-Translated routes_server library set_condition digest owner declared proxy backends
      gateway parent (world shop_route) (requeue_after resync_interval) refl

abbrev stale : Str
stale = bytes "old.example.com"

-- The child of a hostname that the route no longer has.
abbrev before : World RouteObject
before = record (world shop_route) {
  history =
      Call.apply (
        service_child routes_server library set_condition digest owner declared proxy backends
          stale)
      ∷ [];
}

abbrev child_name : Str → Str
child_name host = route_child_name digest declared.name host

-- The list shows the new child and the stale one.
abbrev listing : List Str
listing = child_name (bytes "shop.example.com") ∷ child_name stale ∷ []

abbrev listing_server : Server RouteObject
listing_server = record routes_server { list_services = λ h ns label. ok listing }

shown :
    (n : Str)
    → mem n listing
      ≡ has_child listing_server library set_condition digest declared n
          (apply_services listing_server library set_condition digest owner declared proxy backends
            (admitted_hostnames gateway declared proxy)
            []
            before).1.history
unfolding has_child mem apply_services str_eq admitted_hostnames collect_new gateway_admits_route
    hostname_under_domain has_suffix listener_under_domain trim_prefix listener_hostname_matches
    allowed_routes_permits
shown n = refl

translate-has_child_example :
    has_child listing_server library set_condition digest declared
      (child_name stale)
      (translate listing_server library set_condition digest owner gateway parent declared proxy
        backends before).1.history
    ≡ is_name listing_server library set_condition digest owner declared proxy backends
        (child_name stale)
        (admitted_hostnames gateway declared proxy)
unfolding translate admitted_hostnames collect_new mem gateway_admits_route hostname_under_domain
    str_eq has_suffix listener_under_domain trim_prefix listener_hostname_matches
    allowed_routes_permits route_child_name safe_name replace_all
translate-has_child_example =
    translate-has_child listing_server library set_condition digest owner declared proxy backends
      gateway parent before (requeue_after resync_interval) listing refl shown refl
      (child_name stale)

is_counted-admitted_example :
    is_counted gateway declared proxy ≡ is_set (admitted_hostnames gateway declared proxy)
unfolding route_references_gateway str_eq
is_counted-admitted_example = is_counted-admitted gateway declared proxy (λ e. cc) refl

abbrev wild_gateway : Gateway
wild_gateway = record gateway { listeners = public ∷ [] }

is_counted_wild_example :
    (is_counted wild_gateway inheriting proxy ≡ true)
    × (admitted_hostnames wild_gateway inheriting proxy ≡ [])
unfolding route_references_gateway str_eq has_prefix listener_under_domain hostname_under_domain
    trim_prefix allowed_routes_permits
is_counted_wild_example = is_counted_wild wild_gateway inheriting proxy refl refl refl refl

abbrev gateway_object : GatewayObject
gateway_object = record {
  uid = bytes "u3";
  gateway = gateway;
  status = record { conditions = []; addresses = []; listeners = [] };
}

abbrev no_text : Error → Str
no_text e = []

sync_status-IsSynced_example :
    IsSynced quiet library set_condition no_text gateway proxy cluster []
      (sync_status quiet library set_condition no_text gateway proxy cluster
        (world gateway_object)).1
unfolding sync_status listener_under_domain hostname_under_domain str_eq trim_prefix has_suffix
sync_status-IsSynced_example =
    sync_status-IsSynced quiet library set_condition no_text set_condition-SetsCondition gateway
      proxy cluster (world gateway_object) refl
