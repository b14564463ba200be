-- ===== src/Examples/Cluster.antt =====
-- Mirrored resources on concrete servers.
use netbird_operator.Prelude.{
  ℕ, ◌≡◌, refl, true, false, ◌&&◌, ◌||◌, Option, none, some, [], ◌∷◌, Str, bytes, any, ◌+◌,
  if◌then◌else◌, str_eq,
}
use netbird_operator.Runtime.{ok, err, api}
use netbird_operator.Cache
use netbird_operator.Cache.{ListCache, list, refresh, lookup, list_cache_ttl}
use netbird_operator.Cache.Laws.{Missed, lookup-Missed}
use netbird_operator.Api.{
  Network, NetworkResource, DnsZone, DnsRecord, NetworkSpec, NetworkStatus, DnsZoneSpec,
  DnsRecordSpec,
}
use netbird_operator.Api.Requests.{Zone, Record}
use netbird_operator.Server.{Call, Server, World}
use netbird_operator.Lookup.{get_group_ids}
use netbird_operator.Lookup.Laws.{is_rival}
use netbird_operator.Mirror.{
  requeue_after, resync_interval, Mirror, reconcile_live, reconcile_delete,
}
use netbird_operator.Mirror.Laws.{
  started, Outcome, reconcile_live-Outcome, Ended, reconcile_delete-Ended,
}
use netbird_operator.Mirror.Ids.{resolve_network_id}
use netbird_operator.Mirror.Network.{network_mirror, network_request, apply_network}
use netbird_operator.Mirror.Network.Laws.{Applied, apply_network-Applied}
use netbird_operator.Mirror.NetworkResource.{apply_network_resource, move_network, resource_request}
use netbird_operator.Mirror.NetworkResource.Laws.{apply_network_resource_moved}
use netbird_operator.Mirror.DnsZone.{shares_zone, delete_dns_zone}
use netbird_operator.Mirror.DnsZone.Laws.{checked, delete_dns_zone_shared}
use netbird_operator.Examples.Worlds.{
  quiet, library, library-KeepsFinalizers, meta, object, world, by_name, ref,
}

-- A network whose recorded id is no longer there.
abbrev network : Network
network =
    object (record { name = bytes "net"; description = [] }) (record { network_id = bytes "n1" })

-- It makes new networks.
abbrev networks : Server Network
networks = record quiet { networks_create = λ h req. ok (bytes "n2") }

abbrev mirrored : Mirror NetworkSpec NetworkStatus
mirrored = network_mirror networks library

abbrev refused : Server Network
refused = record quiet { patch = λ h b o. err (api 500) }

abbrev busy : Server Network
busy = record quiet { networks_delete = λ h id. err (api 409) }

reconcile_live-Outcome_example :
    let begun = started networks library mirrored (world network) in
    Outcome networks library mirrored
      (mirrored.apply begun).0
      (mirrored.apply begun).1
      (requeue_after resync_interval)
      (reconcile_live networks library mirrored (world network)).1
unfolding reconcile_live apply_network
reconcile_live-Outcome_example =
    reconcile_live-Outcome networks library mirrored (world network) (requeue_after resync_interval)
      refl

abbrev busy_mirror : Mirror NetworkSpec NetworkStatus
busy_mirror = network_mirror busy library

reconcile_delete-Ended_example :
    Ended busy library busy_mirror
      (busy_mirror.del (world network)).0
      (busy_mirror.del (world network)).1
      (reconcile_delete busy library busy_mirror (world network))
reconcile_delete-Ended_example =
    reconcile_delete-Ended busy library busy_mirror (world network) library-KeepsFinalizers

apply_network-Applied_example :
    Applied networks library
      (bytes "n1")
      (network_request network)
      (world network)
      (ok false)
      (apply_network networks library (world network))
apply_network-Applied_example = apply_network-Applied networks library (world network)

abbrev failing : Server Network
failing = record quiet { networks_get = λ h id. err (api 500) }

-- A resource recorded in a network that was recreated.
abbrev resource : NetworkResource
resource =
    object
      (record {
        network_ref = ref;
        name = bytes "db";
        address = bytes "10.0.0.7";
        description = [];
        groups = by_name (bytes "ops") ∷ [];
        enabled = true;
      })
      (record { network_id = bytes "n0"; resource_id = bytes "r0" })

abbrev resources : Server NetworkResource
resources = record quiet {
  kube_network = λ h r. ok network;
  groups_get_by_name = λ h name. ok (record { id = bytes "g1"; peers = []; resources = [] });
  resources_create = λ h network_id req. ok (bytes "r1");
}

abbrev resolved : World NetworkResource
resolved = record (world resource) { history = Call.kube_network ref ∷ [] }

abbrev grouped : World NetworkResource
grouped =
    record (world
      (record resource { status = record { network_id = bytes "n1"; resource_id = [] } })) {
        history = Call.groups_get_by_name (bytes "ops") ∷ Call.kube_network ref ∷ [];
      }

apply_network_resource_moved_example :
    let end = apply_network_resource resources library (world resource) in
    (end.0 ≡ ok tt)
    × (end.1.object.status.network_id ≡ bytes "n1")
    × (end.1.object.status.resource_id ≡ bytes "r1")
    × (end.1.history
        ≡ Call.resources_create (bytes "n1") (resource_request resource (bytes "g1" ∷ []))
          ∷ grouped.history)
unfolding str_eq resolve_network_id get_group_ids move_network
apply_network_resource_moved_example =
    apply_network_resource_moved resources library (world resource) resolved grouped (bytes "n1")
      (bytes "r1") (bytes "g1" ∷ []) refl refl refl refl refl refl

abbrev zone_spec : DnsZoneSpec
zone_spec = record {
  name = bytes "lan";
  domain = bytes "lan.example.com";
  distribution_groups = [];
  enable_search_domain = none;
  enabled = true;
}

abbrev zone : DnsZone
zone = object zone_spec (record { zone_id = bytes "z1" })

-- Another resource that declares the same zone.
abbrev twin : DnsZone
twin = record zone { meta = record meta { uid = bytes "u2" }; status = record { zone_id = [] } }

abbrev live_zone : Zone
live_zone = record { id = bytes "z1"; name = bytes "lan" }

abbrev zones : Server DnsZone
zones = record quiet {
  zones_get = λ h id. ok live_zone;
  zones_list = λ h. ok (live_zone ∷ []);
  zones_update = λ h id req. ok id;
  kube_zones = λ h. ok (zone ∷ twin ∷ []);
}

delete_dns_zone_shared_example : delete_dns_zone zones library (world zone) ≡ (
    if any (λ other. is_rival zone other && shares_zone zone (bytes "lan") other) (zone ∷ twin ∷ [])
    then (ok tt, record (world zone) { history = checked zones library (bytes "z1") [] })
    else (
      zones.zones_delete (checked zones library (bytes "z1") []) (bytes "z1"),
      record (world zone) {
        history = Call.zones_delete (bytes "z1") ∷ checked zones library (bytes "z1") [];
      },
    ))
delete_dns_zone_shared_example =
    delete_dns_zone_shared zones library (world zone) live_zone (zone ∷ twin ∷ []) refl refl refl

abbrev filled : World DnsZone
filled = record (world twin) {
  zones = record { items = live_zone ∷ []; ok = true; expires = 30000000000 };
  history = Call.zones_list ∷ [];
}

-- `net.ParseIP` and `String` on two texts of one address.
abbrev canonical : Str → Option Str
canonical t = if str_eq t (bytes "::1") || str_eq t (bytes "0::1") then some (bytes "::1") else none

abbrev record_spec : DnsRecordSpec
record_spec = record {
  zone_ref = ref;
  name = bytes "app.lan";
  type = bytes "AAAA";
  content = bytes "0::1";
  ttl = 300;
}

abbrev dns_record : DnsRecord
dns_record = object record_spec (record { zone_id = bytes "z1"; record_id = [] })

abbrev stored : Record
stored = record {
  id = bytes "d1";
  name = bytes "app.lan";
  type = bytes "AAAA";
  content = bytes "::1";
}

abbrev records : Server DnsRecord
records = record quiet {
  records_list = λ h id. ok (stored ∷ []);
  records_update = λ h zone_id id req. ok id;
}

-- A list call that always finds the one zone; the state counts the calls.
abbrev counted : Cache.Fetch Zone ℕ
counted n = (ok (live_zone ∷ []), n + 1)

lookup-Missed_example :
    Missed counted
      (λ z. str_eq z.name (bytes "dmz"))
      (lookup Cache.empty 5 counted (λ z. str_eq z.name (bytes "dmz")) 0).2
unfolding lookup list Cache.fetch_locked str_eq refresh
lookup-Missed_example =
    lookup-Missed counted Cache.empty 5 (λ z. str_eq z.name (bytes "dmz")) 0 refl
