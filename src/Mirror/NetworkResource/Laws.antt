-- ===== src/Mirror/NetworkResource/Laws.antt =====
-- Resources whose network was recreated (internal/controller/networkresource_mirror.go).
use netbird_operator.Prelude.{◌≡◌, refl, ap, ◌∙◌, false, List, [], ◌∷◌, Str, is_empty, str_eq}
use netbird_operator.Runtime.{ok}
use netbird_operator.Api.{NetworkResource, NetworkResourceStatus}
use netbird_operator.Api.Requests.{ResourceRequest}
use netbird_operator.Server.{Call, Server, Library, World}
use netbird_operator.Lookup.{get_group_ids}
use netbird_operator.Lookup.Laws.{get_group_ids_object}
use netbird_operator.Mirror.{set_status}
use netbird_operator.Mirror.Ids.{verify_netbird_id, resolve_network_id}
use netbird_operator.Mirror.NetworkResource.{
  apply_network_resource, apply_resource_at, move_network, resource_request,
}

module _ (server : Server NetworkResource) (lib : Library) where
  -- Without a recorded id the resource is created, and the status keeps its network.
  create_at :
      (recorded network_id id : Str) (req : ResourceRequest) (w : World NetworkResource)
      → recorded ≡ []
      → w.object.status.network_id ≡ network_id
      → server.resources_create w.history network_id req ≡ ok id
      → let end = apply_resource_at server lib network_id req recorded w in
        (end.0 ≡ ok tt)
        × (end.1.object.status.network_id ≡ network_id)
        × (end.1.object.status.resource_id ≡ id)
        × (end.1.history ≡ Call.resources_create network_id req ∷ w.history)
  unfolding verify_netbird_id
  create_at [] network_id id req w none same created = rw created (refl, same, refl, refl)
  create_at (a ∷ s) network_id id req w none same created = cc

  moved_status :
      (s : NetworkResourceStatus) (network_id : Str)
      → is_empty s.network_id ≡ false
      → str_eq s.network_id network_id ≡ false
      → move_network network_id s ≡ record { network_id = network_id; resource_id = [] }
  unfolding move_network
  moved_status s network_id set other = rw (set, other)

  -- If the network has another id than the recorded one, the recorded resource id is dropped
  -- unread, and the resource is created in the network's new id.
  pub apply_network_resource_moved :
      (w v u : World NetworkResource) (network_id id : Str) (groups : List Str)
      → let nr = w.object in
        is_empty nr.status.network_id ≡ false
        → str_eq nr.status.network_id network_id ≡ false
        → resolve_network_id server lib nr.spec.network_ref w ≡ (ok network_id, v)
        → v.object ≡ nr
        → get_group_ids server nr.spec.groups nr.meta.namespace
            (set_status (move_network network_id) v)
          ≡ (ok groups, u)
        → server.resources_create u.history network_id (resource_request nr groups) ≡ ok id
        → let end = apply_network_resource server lib w in
          (end.0 ≡ ok tt)
          × (end.1.object.status.network_id ≡ network_id)
          × (end.1.object.status.resource_id ≡ id)
          × (end.1.history
              ≡ Call.resources_create network_id (resource_request nr groups) ∷ u.history)
  unfolding apply_network_resource
  apply_network_resource_moved w v u network_id id groups set other resolved same found created =
      let moved = set_status (move_network network_id) v in
      let kept : u.object ≡ moved.object =
        rw found at
          (get_group_ids_object server w.object.spec.groups w.object.meta.namespace moved) in
      let status : u.object.status ≡ record { network_id = network_id; resource_id = [] } =
        ap (λ (o : NetworkResource). o.status) kept
        ∙ ap (λ (o : NetworkResource). move_network network_id o.status) same
        ∙ moved_status w.object.status network_id set other in
      rw (resolved, found)
        (create_at u.object.status.resource_id network_id id (resource_request w.object groups) u
          (ap (λ (s : NetworkResourceStatus). s.resource_id) status)
          (ap (λ (s : NetworkResourceStatus). s.network_id) status) created)
