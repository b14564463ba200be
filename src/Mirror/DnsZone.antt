-- ===== src/Mirror/DnsZone.antt =====
-- internal/controller/dnszone_mirror.go
pub mod Laws
use netbird_operator.Prelude.{
  Bool, true, false, not, ◌&&◌, ◌||◌, Option, none, some, List, [], ◌∷◌, Str, bytes, is_empty,
  str_eq, get_or, if◌then◌else◌,
}
use netbird_operator.Runtime.{Error, Result, ok, err, is_zone_not_found}
use netbird_operator.Runtime.Exec.{Exec, pure, raise, modify, gets, attempt, continue, ◌>>=◌, ◌>>◌}
use netbird_operator.Api.{DnsZone, DnsZoneSpec, DnsZoneStatus}
use netbird_operator.Api.Requests.{ZoneRequest, Zone}
use netbird_operator.Server.{Call, Server, Library, World, ask}
use netbird_operator.Lookup.{get_group_ids, get_dns_zone_by_name, another_live_matches}
use netbird_operator.Mirror.{Mirror, set_status}
use netbird_operator.Mirror.Ids.{verify_netbird_id}

abbrev zone_request : DnsZone → List Str → ZoneRequest
zone_request z dist_groups = record {
  name = z.spec.name;
  domain = z.spec.domain;
  distribution_groups = dist_groups;
  enable_search_domain = get_or z.spec.enable_search_domain false;
  enabled = z.spec.enabled;
}

-- The other CR declares the zone's live name, or has recorded the zone's id.
abbrev pub shares_zone : DnsZone → Str → DnsZone → Bool
shares_zone z zone_name other =
    str_eq other.spec.name zone_name
    || (not (is_empty z.status.zone_id) && str_eq other.status.zone_id z.status.zone_id)

module _ (server : Server DnsZone) (lib : Library) where
  abbrev set_zone_id : Str → Exec (World DnsZone) (Unit {0})
  set_zone_id id = modify (set_status (λ s. record { zone_id = id }))

  abbrev create_zone : ZoneRequest → Exec (World DnsZone) (Unit {0})
  create_zone req = do
    id ← ask (Call.zones_create req) (λ h. server.zones_create h req)
    set_zone_id id

  abbrev after_update : ZoneRequest → Result Str → Exec (World DnsZone) (Unit {0})
  after_update req (ok id) = set_zone_id id
  after_update req (err e) = if lib.is_not_found e then create_zone req else raise e

  abbrev update_zone : ZoneRequest → Str → Exec (World DnsZone) (Unit {0})
  update_zone req id = do
    updated ← attempt (ask (Call.zones_update id req) (λ h. server.zones_update h id req))
    after_update req updated

  abbrev adopted : Result Zone → Exec (World DnsZone) Str
  adopted (ok existing) = pure existing.id
  adopted (err e) = if is_zone_not_found e then pure [] else raise e

  -- The recorded zone if it is there, else one of the same name.
  abbrev adopt_zone : Str → Str → Exec (World DnsZone) Str
  adopt_zone name [] = do existing ← attempt (get_dns_zone_by_name server name); adopted existing
  adopt_zone name (a ∷ id) = pure (a ∷ id)

  -- The part of `applyDNSZone` behind the resolved groups.
  abbrev pub apply_zone_at : Str → ZoneRequest → Str → Exec (World DnsZone) (Unit {0})
  apply_zone_at name req recorded = do
    verified ←
        verify_netbird_id lib recorded
          λ id. (do _ ← ask (Call.zones_get id) (λ h. server.zones_get h id); pure tt)
    id ← adopt_zone name verified
    if is_empty id then create_zone req else update_zone req id

  -- `applyDNSZone`
  unfoldable apply_dns_zone : Exec (World DnsZone) (Unit {0})
  unfolding verify_netbird_id
  apply_dns_zone = do
    z ← gets (λ w. w.object)
    dist_groups ← get_group_ids server z.spec.distribution_groups z.meta.namespace
    apply_zone_at z.spec.name (zone_request z dist_groups) z.status.zone_id

  -- `dnsZoneSharedByOther`
  abbrev dns_zone_shared_by_other : DnsZone → Str → Exec (World DnsZone) Bool
  dns_zone_shared_by_other z zone_name = do
    items ← ask Call.kube_zones (λ h. server.kube_zones h)
    pure (another_live_matches z items (shares_zone z zone_name))

  abbrev delete_found : DnsZone → Str → Result Zone → Exec (World DnsZone) (Unit {0})
  delete_found z id (err e) = if lib.is_not_found e then pure tt else raise e
  delete_found z id (ok zone) = do
    shared ← dns_zone_shared_by_other z zone.name
    if shared then pure tt else ask (Call.zones_delete id) (λ h. server.zones_delete h id)

  abbrev pub delete_zone_at : DnsZone → Str → Exec (World DnsZone) (Unit {0})
  delete_zone_at z [] = pure tt
  delete_zone_at z (a ∷ id) = do
    found ← attempt (ask (Call.zones_get (a ∷ id)) (λ h. server.zones_get h (a ∷ id)))
    delete_found z (a ∷ id) found

  -- `deleteDNSZone`
  unfoldable pub delete_dns_zone : Exec (World DnsZone) (Unit {0})
  delete_dns_zone w = delete_zone_at w.object w.object.status.zone_id w

  -- `NewDNSZoneReconciler`
  abbrev dns_zone_mirror : Mirror DnsZoneSpec DnsZoneStatus
  dns_zone_mirror = record {
    kind = bytes "DNSZone";
    finalizer = bytes "dnszone";
    apply = apply_dns_zone;
    del = delete_dns_zone;
    in_use_msg = bytes "";
  }
