-- ===== src/Mirror/DnsRecord.antt =====
-- internal/controller/dnsrecord_mirror.go, and the comparison key of serviceaddr.go.
pub mod Laws
use netbird_operator.Prelude.{
  Bool, true, false, not, ◌&&◌, ◌||◌, Option, none, some, List, [], ◌∷◌, ◌++◌, Str, bytes, is_empty,
  str_eq, get_or, if◌then◌else◌,
}
use netbird_operator.Runtime.{Error, Result, ok, err}
use netbird_operator.Runtime.Exec.{Exec, pure, raise, modify, gets, attempt, continue, ◌>>=◌, ◌>>◌}
use netbird_operator.Api.{DnsRecord, DnsRecordSpec, DnsRecordStatus}
use netbird_operator.Api.Requests.{RecordRequest, Record}
use netbird_operator.Server.{Call, Server, Library, World, ask}
use netbird_operator.Mirror.{Mirror, set_status}
use netbird_operator.Mirror.Ids.{verify_netbird_id, resolve_zone_id}

abbrev pub record_request : DnsRecord → RecordRequest
record_request rec = record {
  content = rec.spec.content;
  name = rec.spec.name;
  ttl = rec.spec.ttl;
  type = rec.spec.type;
}

-- A zone recreated under a new id took the recorded record with it.
unfoldable move_zone : Str → DnsRecordStatus → DnsRecordStatus
move_zone zone_id s = record {
  zone_id = zone_id;
  record_id =
      if not (is_empty s.zone_id) && not (str_eq s.zone_id zone_id) then [] else s.record_id;
}

-- `canonical_ip` is `net.ParseIP` and `String`: the canonical form of a text that is an IP.
module _ (canonical_ip : Str → Option Str) where
  -- `recordMatchKey`
  unfoldable pub record_match_key : Str → Str → Str
  record_match_key type content = type ++ (b'|' ∷ get_or (canonical_ip content) content)

  abbrev pub record_matches : DnsRecordSpec → Record → Bool
  record_matches spec r =
      str_eq r.name spec.name
      && str_eq (record_match_key r.type r.content) (record_match_key spec.type spec.content)

  -- The id of the first matching record.
  unfoldable pub matching_id : DnsRecordSpec → List Record → Str
  matching_id spec [] = []
  matching_id spec (r ∷ rs) =
      let rest = matching_id spec rs in if record_matches spec r then r.id else rest

  module _ (server : Server DnsRecord) (lib : Library) where
    abbrev set_record_id : Str → Exec (World DnsRecord) (Unit {0})
    set_record_id id = modify (set_status (λ s. record s { record_id = id }))

    abbrev create_record : Str → RecordRequest → Exec (World DnsRecord) (Unit {0})
    create_record zone_id req = do
      id ← ask (Call.records_create zone_id req) (λ h. server.records_create h zone_id req)
      set_record_id id

    abbrev after_update : Str → RecordRequest → Result Str → Exec (World DnsRecord) (Unit {0})
    after_update zone_id req (ok id) = set_record_id id
    after_update zone_id req (err e) =
        if lib.is_not_found e then create_record zone_id req else raise e

    abbrev update_record : Str → RecordRequest → Str → Exec (World DnsRecord) (Unit {0})
    update_record zone_id req id = do
      updated ←
          attempt
            (ask (Call.records_update zone_id id req) (λ h. server.records_update h zone_id id req))
      after_update zone_id req updated

    -- An identical record of the zone is taken over.
    abbrev adopt_record : Str → DnsRecordSpec → Str → Exec (World DnsRecord) Str
    adopt_record zone_id spec [] = do
      records ← ask (Call.records_list zone_id) (λ h. server.records_list h zone_id)
      set_record_id (matching_id spec records)
      pure (matching_id spec records)
    adopt_record zone_id spec (a ∷ id) = pure (a ∷ id)

    -- The verified id is assigned before the error is looked at.
    abbrev assign_verified : Result Str → Exec (World DnsRecord) Str
    assign_verified (ok id) = do set_record_id id; pure id
    assign_verified (err e) = do set_record_id []; raise e

    -- The part of `applyDNSRecord` behind the resolved zone.
    abbrev pub apply_record_at :
        Str → DnsRecordSpec → RecordRequest → Str → Exec (World DnsRecord) (Unit {0})
    apply_record_at zone_id spec req recorded = do
      found ← attempt (
          verify_netbird_id lib recorded
            λ id. ask (Call.records_get zone_id id) (λ h. server.records_get h zone_id id))
      verified ← assign_verified found
      id ← adopt_record zone_id spec verified
      if is_empty id then create_record zone_id req else update_record zone_id req id

    -- `applyDNSRecord`
    unfoldable apply_dns_record : Exec (World DnsRecord) (Unit {0})
    unfolding verify_netbird_id
    apply_dns_record = do
      rec ← gets (λ w. w.object)
      zone_id ← resolve_zone_id server lib rec.spec.zone_ref
      modify (set_status (move_zone zone_id))
      moved ← gets (λ w. w.object)
      apply_record_at zone_id rec.spec (record_request rec) moved.status.record_id

    abbrev delete_record_at : Str → Str → Exec (World DnsRecord) (Unit {0})
    delete_record_at zone_id id =
        if is_empty id || is_empty zone_id
        then pure tt
        else ask (Call.records_delete zone_id id) (λ h. server.records_delete h zone_id id)

    -- `deleteDNSRecord`
    unfoldable delete_dns_record : Exec (World DnsRecord) (Unit {0})
    delete_dns_record w = delete_record_at w.object.status.zone_id w.object.status.record_id w

    -- `NewDNSRecordReconciler`
    abbrev dns_record_mirror : Mirror DnsRecordSpec DnsRecordStatus
    dns_record_mirror = record {
      kind = bytes "DNSRecord";
      finalizer = bytes "dnsrecord";
      apply = apply_dns_record;
      del = delete_dns_record;
      in_use_msg = bytes "";
    }
