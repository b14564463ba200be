-- ===== src/ProxyCluster/Laws/Records.antt =====
-- The records that publish the addresses of a proxy (reverseproxycluster_controller.go).
use netbird_operator.Prelude.{
  arith, ◌≡◌, refl, ◌∙◌, inl, inr, Bool, ◌||◌, Option, List, [], ◌∷◌, any, map, Bool-cases, Str,
  str_eq, if◌then◌else◌,
}
use netbird_operator.Runtime.{Result-cases, ok}
use netbird_operator.Runtime.Exec.{Exec, pure, ◌>>◌}
use netbird_operator.Api.{Reference}
use netbird_operator.Api.Requests.{OwnerReference}
use netbird_operator.Api.Proxies.{ReverseProxyCluster}
use netbird_operator.Server.{Call, Child, Server, Library, World}
use netbird_operator.Gateway.Collect.{mem}
use netbird_operator.LoadBalancer.{
  IpFamily, ipv4, ipv6, FamilyAddress, record_type, lb_ingress_addresses,
}
use netbird_operator.ProxyCluster.Address.{
  seen_family, first_addresses, address_record_child, catch_all_child, record_reference,
  publish_loop, stale_loop, apply_records, delete_stale, address_types,
}
use netbird_operator.ProxyCluster.Laws.Addresses.{
  of_family, Fresh, first_addresses-Fresh, lb_ingress_addresses-IsIp,
}

abbrev types : (Str → Option IpFamily) → List IpFamily → List Str
types ip_family = map (record_type ip_family)

-- The families of the addresses, in front of those seen before.
abbrev families : List FamilyAddress → List IpFamily → List IpFamily
families [] seen = seen
families (fa ∷ fas) seen = families fas (fa.family ∷ seen)

families_lem :
    (family : IpFamily) (fas : List FamilyAddress) (seen : List IpFamily)
    → seen_family family (families fas seen)
      ≡ (any (of_family family) fas || seen_family family seen)
families_lem family [] seen = refl
families_lem family (fa ∷ fas) seen = ground (arith, families_lem family fas (fa.family ∷ seen))

types_lem :
    (ip_family : Str → Option IpFamily) (family : IpFamily) (seen : List IpFamily)
    → mem (record_type ip_family family) (types ip_family seen) ≡ seen_family family seen
unfolding mem str_eq
types_lem ip_family family [] = refl
types_lem ip_family ipv4 (ipv4 ∷ seen) = refl
types_lem ip_family ipv4 (ipv6 ∷ seen) = types_lem ip_family ipv4 seen
types_lem ip_family ipv6 (ipv4 ∷ seen) = types_lem ip_family ipv6 seen
types_lem ip_family ipv6 (ipv6 ∷ seen) = refl

module _ (server : Server ReverseProxyCluster) (lib : Library) (ip_family : Str → Option IpFamily)
    (owner : OwnerReference) (rpc : ReverseProxyCluster) (zone_ref : Reference) where
  abbrev record_child : FamilyAddress → Child
  record_child fa =
      address_record_child owner rpc zone_ref (record_type ip_family fa.family) fa.address

  -- The history behind the applied records of the addresses.
  abbrev pub applied :
      List FamilyAddress → List (Call ReverseProxyCluster) → List (Call ReverseProxyCluster)
  applied [] h = h
  applied (fa ∷ fas) h = applied fas (Call.apply (record_child fa) ∷ h)

  -- The history behind the delete of the record of a family that no address has.
  abbrev cleared :
      IpFamily
      → List FamilyAddress
      → List (Call ReverseProxyCluster)
      → List (Call ReverseProxyCluster)
  cleared family fas h =
      if any (of_family family) fas
      then h
      else Call.delete_record
          (record_reference server lib ip_family owner rpc zone_ref (record_type ip_family family))
        ∷ h

  publish_done :
      (fas : List FamilyAddress) (seen : List IpFamily) (result : List Str)
      (w : World ReverseProxyCluster)
      → Fresh ip_family fas seen
      → let m = publish_loop server lib ip_family owner rpc zone_ref fas (types ip_family seen) w in
        m.0 ≡ ok result
        → (result ≡ types ip_family (families fas seen))
          × (m.1 ≡ record w { history = applied fas w.history })
  unfolding publish_loop
  publish_done [] seen result w fresh h = (ground arith, refl)
  publish_done (fa ∷ fas) seen result w (ip, new, fresh) h =
      let unpublished = types_lem ip_family fa.family seen ∙ new in
      let v = record w { history = Call.apply (record_child fa) ∷ w.history } in
      elim (Result-cases (server.apply w.history (record_child fa))) [
        | inl (_, e) ↦
            rw (ip, unpublished, e, publish_loop)
              (publish_done fas (fa.family ∷ seen) result v fresh
                (rw (ip, unpublished, e, publish_loop) at h))
        | inr (x, e) ↦
            let failed = rw (ip, unpublished, e, publish_loop) at h in absurd (ground arith)
      ]

  -- The name of a family's record in the last loop.
  abbrev mem_type : IpFamily → List FamilyAddress → Bool
  mem_type family fas = mem (record_type ip_family family) (types ip_family (families fas []))

  mem_type_lem :
      (family : IpFamily) (fas : List FamilyAddress)
      → mem_type family fas ≡ any (of_family family) fas
  mem_type_lem family fas =
      types_lem ip_family family (families fas []) ∙ (families_lem family fas [] ∙ ground arith)

  -- The step of the last loop for one family.
  abbrev clear : IpFamily → List FamilyAddress → Exec (World ReverseProxyCluster) (Unit {0})
  clear family fas =
      if any (of_family family) fas
      then pure tt
      else delete_stale server lib ip_family owner rpc zone_ref (record_type ip_family family)

  clear_done :
      (family : IpFamily) (fas : List FamilyAddress) (w : World ReverseProxyCluster) (r : Unit {0})
      → (clear family fas w).0 ≡ ok r
      → (clear family fas w).1 ≡ record w { history = cleared family fas w.history }
  clear_done family fas w r h = elim (Bool-cases (any (of_family family) fas)) [
    | inl e ↦ rw e refl
    | inr e ↦
        let ref =
          record_reference server lib ip_family owner rpc zone_ref (record_type ip_family family) in
        elim (Result-cases (server.delete_record w.history ref)) [
          | inl (_, d) ↦ rw (e, d) refl
          | inr (x, d) ↦ elim (Bool-cases (lib.kube_is_not_found x)) [
            | inl gone ↦ rw (e, d, gone) refl
            | inr other ↦ let failed = rw (e, d, other) at h in absurd (ground arith)
          ]
        ]
  ]

  both_done :
      (fas : List FamilyAddress) (w : World ReverseProxyCluster)
      → let m = (clear ipv4 fas >> (clear ipv6 fas >> pure tt)) w in
        m.0 ≡ ok tt → m.1 ≡ record w { history = cleared ipv6 fas (cleared ipv4 fas w.history) }
  both_done fas w h = elim (Result-cases (clear ipv4 fas w).0) [
    | inr (x, e) ↦ let failed = rw e at h in absurd (ground arith)
    | inl (r, e) ↦
        let first = clear_done ipv4 fas w r e in
        let v = record w { history = cleared ipv4 fas w.history } in
        elim (Result-cases (clear ipv6 fas v).0) [
          | inr (x, f) ↦ let failed = rw (e, first, f) at h in absurd (ground arith)
          | inl (q, f) ↦ rw (e, first, f) (clear_done ipv6 fas v q f)
        ]
  ]

  stale_done :
      (fas : List FamilyAddress) (w : World ReverseProxyCluster)
      → let m =
          stale_loop server lib ip_family owner rpc zone_ref address_types
            (types ip_family (families fas []))
            w in
        m.0 ≡ ok tt → m.1 ≡ record w { history = cleared ipv6 fas (cleared ipv4 fas w.history) }
  unfolding stale_loop
  stale_done fas w h =
      rw (mem_type_lem ipv4 fas, mem_type_lem ipv6 fas)
        (both_done fas w (rw (mem_type_lem ipv4 fas, mem_type_lem ipv6 fas) at h))

  -- The calls of `applyRecords` for the addresses of a Service, newest first.
  abbrev pub published :
      List FamilyAddress → List (Call ReverseProxyCluster) → List (Call ReverseProxyCluster)
  published fas h =
      Call.apply (catch_all_child owner rpc zone_ref)
      ∷ cleared ipv6 fas (cleared ipv4 fas (applied fas h))

  records_done :
      (fas : List FamilyAddress) (w : World ReverseProxyCluster)
      → Fresh ip_family fas []
      → let m = apply_records server lib ip_family owner rpc zone_ref fas w in
        m.0 ≡ ok tt → m.1 ≡ record w { history = published fas w.history }
  unfolding apply_records
  records_done fas w fresh h =
      elim (Result-cases (publish_loop server lib ip_family owner rpc zone_ref fas [] w).0) [
        | inr (x, e) ↦ let failed = rw e at h in absurd (ground arith)
        | inl (result, e) ↦
            let (same, calls) = publish_done fas [] result w fresh e in
            let v = record w { history = applied fas w.history } in
            elim (Result-cases
              (stale_loop server lib ip_family owner rpc zone_ref address_types
                (types ip_family (families fas [])) v).0) [
                  | inr (x, f) ↦ let failed = rw (e, same, calls, f) at h in absurd (ground arith)
                  | inl (_, f) ↦ rw (e, same, calls, f, stale_done fas v f) refl
                ]
      ]

  -- Where the records of the addresses of a Service are published, they are the first address of each
  -- family, one record each; the record of a family without an address is deleted, and the record of
  -- every name under the domain comes last.
  pub apply_records-published :
      (ips : List Str) (w : World ReverseProxyCluster)
      → let fas = first_addresses (lb_ingress_addresses ip_family ips) [] in
        let m = apply_records server lib ip_family owner rpc zone_ref fas w in
        m.0 ≡ ok tt → m.1 ≡ record w { history = published fas w.history }
  apply_records-published ips w h =
      let fas = lb_ingress_addresses ip_family ips in
      records_done (first_addresses fas []) w
        (first_addresses-Fresh ip_family fas [] (lb_ingress_addresses-IsIp ip_family ips)) h
