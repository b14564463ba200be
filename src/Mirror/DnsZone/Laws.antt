-- ===== src/Mirror/DnsZone/Laws.antt =====
-- The sharing and the adoption of zones (internal/controller/dnszone_mirror.go).
use netbird_operator.Prelude.{
  ◌≡◌, false, ◌&&◌, List, [], ◌∷◌, Str, arith, if◌then◌else◌, is_empty, any,
}
use netbird_operator.Runtime.{ok}
use netbird_operator.Api.{DnsZone}
use netbird_operator.Api.Requests.{Zone, ZoneRequest}
use netbird_operator.Server.{Call, Server, Library, World}
use netbird_operator.Lookup.{get_dns_zone_by_name, another_live_matches}
use netbird_operator.Lookup.Laws.{is_rival, another_live_matches_lem}
use netbird_operator.Mirror.Ids.{verify_netbird_id}
use netbird_operator.Mirror.DnsZone.{shares_zone, delete_zone_at, delete_dns_zone, apply_zone_at}

module _ (server : Server DnsZone) (lib : Library) where
  -- The history behind the two reads that come before a delete of the zone `id`.
  abbrev pub checked : Str → List (Call DnsZone) → List (Call DnsZone)
  checked id h = Call.kube_zones ∷ Call.zones_get id ∷ h

  delete_at :
      (z : DnsZone) (id : Str) (w : World DnsZone) (zone : Zone) (items : List DnsZone)
      → is_empty id ≡ false
      → server.zones_get w.history id ≡ ok zone
      → server.kube_zones (Call.zones_get id ∷ w.history) ≡ ok items
      → delete_zone_at server lib z id w ≡ (
          if another_live_matches z items (shares_zone z zone.name)
          then (ok tt, record w { history = checked id w.history })
          else (
            server.zones_delete (checked id w.history) id,
            record w { history = Call.zones_delete id ∷ checked id w.history },
          ))
  delete_at z [] w zone items set e f = cc
  delete_at z (c ∷ id) w zone items set e f = rw (e, f) (ground arith)

  -- Where both reads succeed, a recorded zone is deleted exactly when no other live resource declares
  -- the zone's live name or has recorded its id; otherwise no call but the two reads is made.
  pub delete_dns_zone_shared :
      (w : World DnsZone) (zone : Zone) (items : List DnsZone)
      → let z = w.object in
        let id = z.status.zone_id in
        is_empty id ≡ false
        → server.zones_get w.history id ≡ ok zone
        → server.kube_zones (Call.zones_get id ∷ w.history) ≡ ok items
        → delete_dns_zone server lib w ≡ (
            if any (λ other. is_rival z other && shares_zone z zone.name other) items
            then (ok tt, record w { history = checked id w.history })
            else (
              server.zones_delete (checked id w.history) id,
              record w { history = Call.zones_delete id ∷ checked id w.history },
            ))
  unfolding delete_dns_zone
  delete_dns_zone_shared w zone items set e f =
      rw (← another_live_matches_lem w.object items (shares_zone w.object zone.name))
        (delete_at w.object w.object.status.zone_id w zone items set e f)

  -- Without a recorded zone, a zone that NetBird lists under the name is updated and recorded: none
  -- is created.
  apply_zone_adopts :
      (name id : Str) (req : ZoneRequest) (w w' : World DnsZone) (zone : Zone)
      → get_dns_zone_by_name server name w ≡ (ok zone, w')
      → is_empty zone.id ≡ false
      → server.zones_update w'.history zone.id req ≡ ok id
      → apply_zone_at server lib name req [] w ≡ (
        ok tt,
        record w' {
          object = record w'.object { status = record { zone_id = id } };
          history = Call.zones_update zone.id req ∷ w'.history;
        },
      )
  unfolding verify_netbird_id
  apply_zone_adopts name id req w w' zone found set updated = rw (found, set, updated)
