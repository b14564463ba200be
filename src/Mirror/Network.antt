-- ===== src/Mirror/Network.antt =====
-- internal/controller/network_mirror.go
pub mod Laws
pub mod Lifecycle
use netbird_operator.Prelude.{Option, none, some, Str, bytes, is_empty, if◌then◌else◌}
use netbird_operator.Runtime.{Result, ok, err}
use netbird_operator.Runtime.Exec.{Exec, pure, modify, gets, continue, ◌>>=◌, ◌>>◌}
use netbird_operator.Api.{Network, NetworkStatus, NetworkSpec}
use netbird_operator.Api.Requests.{NetworkRequest}
use netbird_operator.Server.{Call, Server, Library, World, ask}
use netbird_operator.Mirror.{Mirror, set_status}
use netbird_operator.Mirror.Ids.{verify_netbird_id}

-- A text field of a request that the spec may leave empty.
abbrev pub optional : Str → Option Str
optional t = if is_empty t then none else some t

abbrev pub network_request : Network → NetworkRequest
network_request net = record { name = net.spec.name; description = optional net.spec.description }

module _ (server : Server Network) (lib : Library) where
  abbrev set_network_id : Str → Exec (World Network) (Unit {0})
  set_network_id id = modify (set_status (λ s. record { network_id = id }))

  abbrev update_network : NetworkRequest → Str → Exec (World Network) (Unit {0})
  update_network req id = do
    new_id ← ask (Call.networks_update id req) (λ h. server.networks_update h id req)
    set_network_id new_id

  abbrev create_network : NetworkRequest → Exec (World Network) (Unit {0})
  create_network req = do
    new_id ← ask (Call.networks_create req) (λ h. server.networks_create h req)
    set_network_id new_id

  -- The body of `applyNetwork`, from the recorded id and the request.
  abbrev pub apply_network_at : Str → NetworkRequest → Exec (World Network) (Unit {0})
  apply_network_at recorded req = do
    id ←
        verify_netbird_id lib recorded
          λ id. ask (Call.networks_get id) (λ h. server.networks_get h id)
    set_network_id id
    if is_empty id then create_network req else update_network req id

  -- `applyNetwork`
  unfoldable pub apply_network : Exec (World Network) (Unit {0})
  unfolding verify_netbird_id
  apply_network w = apply_network_at w.object.status.network_id (network_request w.object) w

  -- `deleteNetwork`
  unfoldable pub delete_network : Exec (World Network) (Unit {0})
  delete_network = do
    net ← gets (λ w. w.object)
    let id = net.status.network_id
    if is_empty id
        then pure tt
        else ask (Call.networks_delete id) (λ h. server.networks_delete h id)

  -- `NewNetworkReconciler`
  abbrev pub network_mirror : Mirror NetworkSpec NetworkStatus
  network_mirror = record {
    kind = bytes "Network";
    finalizer = bytes "network";
    apply = apply_network;
    del = delete_network;
    in_use_msg = bytes "";
  }
