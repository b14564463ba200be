-- ===== src/Mirror/Ids.antt =====
-- Ids of NetBird objects that a status recorded or that a reference leads to (mirror.go).
use netbird_operator.Prelude.{[], ◌∷◌, ◌++◌, Str, bytes, is_empty, if◌then◌else◌}
use netbird_operator.Runtime.{Result, ok, err, dependency_not_ready}
use netbird_operator.Runtime.Exec.{Exec, pure, raise, attempt, ◌>>=◌}
use netbird_operator.Api.{Reference, Network, DnsZone}
use netbird_operator.Server.{Call, Server, Library, World, ask}

module _ {W : Type 0} (lib : Library) where
  abbrev verified : Str → Result (Unit {0}) → Exec W Str
  verified id (ok _) = pure id
  verified id (err e) = if lib.is_not_found e then pure [] else raise e

  -- `verifyNetbirdID`: the id if the object is still there, none if it is gone.
  unfoldable pub verify_netbird_id : Str → (Str → Exec W (Unit {0})) → Exec W Str
  verify_netbird_id [] get = pure []
  verify_netbird_id (a ∷ id) get = do found ← attempt (get (a ∷ id)); verified (a ∷ id) found

module _ {O : Type 0} (server : Server O) (lib : Library) where
  abbrev ready_id : Str → Str → Exec (World O) Str
  ready_id why id = if is_empty id then raise (dependency_not_ready why) else pure id

  abbrev network_text : Reference → Str → Str
  network_text ref why = bytes "Network " ++ (ref.namespace ++ (bytes "/" ++ (ref.name ++ why)))

  abbrev network_id : Reference → Result Network → Exec (World O) Str
  network_id ref (err e) =
      if lib.kube_is_not_found e
      then raise (dependency_not_ready (network_text ref (bytes " not found")))
      else raise e
  network_id ref (ok network) =
      ready_id (network_text ref (bytes " has no network id yet")) network.status.network_id

  -- `resolveNetworkID`
  unfoldable pub resolve_network_id : Reference → Exec (World O) Str
  resolve_network_id ref = do
    found ← attempt (ask (Call.kube_network ref) (λ h. server.kube_network h ref))
    network_id ref found

  abbrev zone_text : Reference → Str → Str
  zone_text ref why = bytes "DNSZone " ++ (ref.namespace ++ (bytes "/" ++ (ref.name ++ why)))

  abbrev zone_id : Reference → Result DnsZone → Exec (World O) Str
  zone_id ref (err e) =
      if lib.kube_is_not_found e
      then raise (dependency_not_ready (zone_text ref (bytes " not found")))
      else raise e
  zone_id ref (ok zone) = ready_id (zone_text ref (bytes " has no zone id yet")) zone.status.zone_id

  -- `resolveZoneID`
  unfoldable pub resolve_zone_id : Reference → Exec (World O) Str
  resolve_zone_id ref = do
    found ← attempt (ask (Call.kube_zone ref) (λ h. server.kube_zone h ref))
    zone_id ref found
