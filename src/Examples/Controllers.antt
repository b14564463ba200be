-- ===== src/Examples/Controllers.antt =====
-- Groups, setup keys and routers on concrete servers.
use netbird_operator.Mirror.Ids.{verify_netbird_id}
use netbird_operator.Prelude.{str_eq, ◌≡◌, ◌⊎◌, refl, true, false, none, [], ◌∷◌, ◌++◌, bytes}
use netbird_operator.Runtime.{ok, err, api, kube}
use netbird_operator.Api.{
  Group, SetupKey, SetupKeySpec, NetworkRouter, NetworkRouterSpec, reconciled,
}
use netbird_operator.Api.Requests.{GroupInfo, KeyInfo, KeyState, OwnerReference}
use netbird_operator.Server.{Call, Server, Child}
use netbird_operator.Mirror.{requeue_after, resync_interval, set_status}
use netbird_operator.GroupController.{ensure_group}
use netbird_operator.GroupController.Laws.{Updated, Created, ensure_group-cases}
use netbird_operator.SetupKeyController.{
  key_differs, up_to_date, recreate, key_request, secret_name, controller_reference,
}
use netbird_operator.SetupKeyController.Laws.{
  IsCurrent, up_to_date-IsCurrent, recreate_order, removal,
}
use netbird_operator.NetworkRouter.{
  pods_ready, Flags, ensure_deployed_peers, upsert_router, router_request,
}
use netbird_operator.NetworkRouter.Laws.{
  Written, upsert_router_writes, PeersUp, ensure_deployed_peers-PeersUp,
}
use netbird_operator.Examples.Worlds.{quiet, library, object, world, owner, ref}

abbrev group : Group
group = object (record { name = bytes "ops" }) (record { group_id = bytes "g1" })

abbrev members : GroupInfo
members = record { id = bytes "g1"; peers = bytes "p1" ∷ []; resources = [] }

abbrev groups : Server Group
groups = record quiet {
  groups_get = λ h id. ok members;
  groups_update = λ h id req. ok id;
  groups_delete = λ h id. err (api 409);
}

ensure_group-cases_example :
    let end = (ensure_group groups library (bytes "ops") (bytes "g1") (world group)).1 in
    Updated groups library (bytes "ops") (bytes "g1") (bytes "g1") (world group) end
    ⊎ Created groups library (bytes "ops") (bytes "g1") (bytes "g1") (world group) end
unfolding ensure_group
ensure_group-cases_example =
    ensure_group-cases groups library (bytes "ops") (bytes "g1") (bytes "g1") (world group) refl

abbrev no_groups : Server Group
no_groups = record quiet { groups_create = λ h req. ok (bytes "g2") }

abbrev key_spec : SetupKeySpec
key_spec = record {
  name = bytes "ci";
  ephemeral = true;
  allow_extra_dns_labels = false;
  duration = none;
  auto_groups = [];
}

abbrev key : SetupKey
key = object key_spec (record { setup_key_id = bytes "k1" })

abbrev key_info : KeyState → KeyInfo
key_info state = record { id = bytes "k1"; key = bytes "A1B2C3D4"; state = state }

abbrev keys : KeyState → Server SetupKey
keys state = record quiet {
  keys_get = λ h id. ok (key_info state);
  keys_update = λ h id groups. ok tt;
  keys_create = λ h req. ok (record (key_info KeyState.valid) { id = bytes "k2" });
  keys_delete = λ h id. ok tt;
  kube_secret = λ h r. ok (bytes "A1B2C3D4");
}

up_to_date-IsCurrent_example : IsCurrent (keys KeyState.valid) library (bytes "k1") [] (world key)
unfolding up_to_date key_differs str_eq
up_to_date-IsCurrent_example =
    up_to_date-IsCurrent (keys KeyState.valid) library (bytes "k1") [] (world key) refl

recreate_order_example :
    let server = keys KeyState.other in
    let end = (recreate server library owner [] (world key)).1 in
    (info : KeyInfo) × (server.keys_create [] (key_request key []) ≡ ok info)
    × (end.object.status.setup_key_id ≡ info.id)
    × (end.object.ready ≡ reconciled)
    × (end.history
        ≡ Call.patch true end.object
          ∷ (removal server library (bytes "k1")
              ++ (Call.apply (Child.secret owner (bytes "prod") (secret_name key) info.key)
                  ∷ Call.patch false
                      (set_status (λ s. record { setup_key_id = info.id }) (world key)).object
                  ∷ Call.keys_create (key_request key [])
                  ∷ [])))
unfolding recreate
recreate_order_example =
    recreate_order (keys KeyState.other) library owner [] (world key)
      (requeue_after resync_interval) refl

abbrev router_spec : NetworkRouterSpec
router_spec = record {
  network_ref = ref;
  group = none;
  deploy = none;
  masquerade = true;
  metric = 9999;
  enabled = true;
}

abbrev router : NetworkRouter
router = object router_spec (record { network_id = []; group_id = []; router_id = [] })

abbrev flags : Flags
flags = record { client_image = bytes "netbird"; management_url = bytes "https://api.netbird.io" }

abbrev routers : Server NetworkRouter
routers = record quiet {
  routers_create = λ h network_id req. ok (bytes "r1");
  kube_group = λ h r. ok group;
  kube_setup_key = λ h r. ok key;
  kube_daemon_set = λ h r. ok (record { desired_number_scheduled = 2; number_ready = 2 });
}

upsert_router_writes_example :
    Written routers library
      (bytes "n1")
      (bytes "r0")
      (router_request router_spec (bytes "g1"))
      []
      (bytes "r1")
      (upsert_router routers library
        (bytes "n1")
        (bytes "r0")
        (bytes "g1")
        router_spec
        (world router)).1.history
unfolding upsert_router verify_netbird_id
upsert_router_writes_example =
    upsert_router_writes routers library (bytes "n1") (bytes "r0") (bytes "g1") router_spec
      (world router) (bytes "r1") refl

ensure_deployed_peers-PeersUp_example :
    (o : OwnerReference) × (controller_reference library router.meta ≡ ok o)
    × PeersUp routers library flags o router [] (bytes "g1")
unfolding ensure_deployed_peers pods_ready
ensure_deployed_peers-PeersUp_example =
    ensure_deployed_peers-PeersUp routers library flags router (bytes "g1") (world router) refl refl

-- The Group that was just applied is not read back.
abbrev lagging : Server NetworkRouter
lagging = record routers { kube_group = λ h r. err (kube 404) }
