-- ===== src/Mirror/NetworkResource.antt =====
-- internal/controller/networkresource_mirror.go
pub mod Laws
use netbird_operator.Prelude.{
  Bool, true, false, not, ◌&&◌, ◌||◌, List, [], Str, bytes, is_empty, str_eq, if◌then◌else◌,
}
use netbird_operator.Runtime.{Result, ok, err}
use netbird_operator.Runtime.Exec.{Exec, pure, raise, attempt, modify, gets, continue, ◌>>=◌, ◌>>◌}
use netbird_operator.Api.{NetworkResource, NetworkResourceStatus, NetworkResourceSpec}
use netbird_operator.Api.Requests.{ResourceRequest}
use netbird_operator.Server.{Call, Server, Library, World, ask}
use netbird_operator.Lookup.{get_group_ids}
use netbird_operator.Mirror.{Mirror, set_status}
use netbird_operator.Mirror.Ids.{verify_netbird_id, resolve_network_id}
use netbird_operator.Mirror.Network.{optional}

abbrev pub resource_request : NetworkResource → List Str → ResourceRequest
resource_request nr group_ids = record {
  address = nr.spec.address;
  enabled = nr.spec.enabled;
  groups = group_ids;
  name = nr.spec.name;
  description = optional nr.spec.description;
}

-- A network recreated under a new id took the recorded resource with it.
unfoldable pub move_network : Str → NetworkResourceStatus → NetworkResourceStatus
move_network network_id s = record {
  network_id = network_id;
  resource_id =
      if not (is_empty s.network_id) && not (str_eq s.network_id network_id)
      then []
      else s.resource_id;
}

module _ (server : Server NetworkResource) (lib : Library) where
  abbrev set_resource_id : Str → Exec (World NetworkResource) (Unit {0})
  set_resource_id id = modify (set_status (λ s. record s { resource_id = id }))

  abbrev update_resource : Str → ResourceRequest → Str → Exec (World NetworkResource) (Unit {0})
  update_resource network_id req id = do
    new_id ←
        ask (Call.resources_update network_id id req)
          (λ h. server.resources_update h network_id id req)
    set_resource_id new_id

  abbrev create_resource : Str → ResourceRequest → Exec (World NetworkResource) (Unit {0})
  create_resource network_id req = do
    new_id ←
        ask (Call.resources_create network_id req) (λ h. server.resources_create h network_id req)
    set_resource_id new_id

  -- The verified id is assigned before the error is looked at.
  abbrev assign_verified : Result Str → Exec (World NetworkResource) Str
  assign_verified (ok id) = do set_resource_id id; pure id
  assign_verified (err e) = do set_resource_id []; raise e

  -- The part of `applyNetworkResource` behind the resolved network and groups.
  abbrev pub apply_resource_at :
      Str → ResourceRequest → Str → Exec (World NetworkResource) (Unit {0})
  apply_resource_at network_id req recorded = do
    verified ← attempt (
        verify_netbird_id lib recorded
          λ id. ask (Call.resources_get network_id id) (λ h. server.resources_get h network_id id))
    id ← assign_verified verified
    if is_empty id then create_resource network_id req else update_resource network_id req id

  -- `applyNetworkResource`
  unfoldable pub apply_network_resource : Exec (World NetworkResource) (Unit {0})
  unfolding verify_netbird_id
  apply_network_resource = do
    nr ← gets (λ w. w.object)
    network_id ← resolve_network_id server lib nr.spec.network_ref
    modify (set_status (move_network network_id))
    group_ids ← get_group_ids server nr.spec.groups nr.meta.namespace
    moved ← gets (λ w. w.object)
    apply_resource_at network_id (resource_request nr group_ids) moved.status.resource_id

  abbrev delete_resource_at : Str → Str → Exec (World NetworkResource) (Unit {0})
  delete_resource_at network_id id =
      if is_empty id || is_empty network_id
      then pure tt
      else ask (Call.resources_delete network_id id) (λ h. server.resources_delete h network_id id)

  -- `deleteNetworkResource`
  unfoldable delete_network_resource : Exec (World NetworkResource) (Unit {0})
  delete_network_resource w =
      delete_resource_at w.object.status.network_id w.object.status.resource_id w

  -- `NewNetworkResourceReconciler`
  abbrev network_resource_mirror : Mirror NetworkResourceSpec NetworkResourceStatus
  network_resource_mirror = record {
    kind = bytes "NetworkResource";
    finalizer = bytes "networkresource";
    apply = apply_network_resource;
    del = delete_network_resource;
    in_use_msg =
        bytes "NetBird resource still in use (referenced by a proxy or policy); retrying deletion";
  }
