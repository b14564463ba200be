-- ===== src/Mirror/DnsRecord/Laws.antt =====
-- The adoption of records that a zone already has (internal/controller/dnsrecord_mirror.go).
use netbird_operator.Prelude.{◌≡◌, true, Option, some, Str, arith, str_eq_refl}
use netbird_operator.Api.{DnsRecord, DnsRecordSpec}
use netbird_operator.Api.Requests.{Record}
use netbird_operator.Server.{Server}
use netbird_operator.Mirror.DnsRecord.{record_match_key, record_matches}

module _ (canonical_ip : Str → Option Str) where
  -- A record of the spec's name and type whose content is the same IP, in another form or not,
  -- matches the spec.
  record_matches_ip :
      (spec : DnsRecordSpec) (r : Record) (ip : Str)
      → r.name ≡ spec.name
      → r.type ≡ spec.type
      → canonical_ip r.content ≡ some ip
      → canonical_ip spec.content ≡ some ip
      → record_matches canonical_ip spec r ≡ true
  unfolding record_match_key
  record_matches_ip spec r ip name type a b =
      rw (name, type, a, b)
        (ground (
          arith,
          str_eq_refl spec.name,
          str_eq_refl (record_match_key canonical_ip spec.type spec.content),
        ))
