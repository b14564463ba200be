-- ===== src/LoadBalancer/Laws.antt =====
-- Which children of a Service are applied and which are deleted.
use netbird_operator.Prelude.{
  ◌≡◌, inl, inr, refl, ap, false, Option, none, some, List, [], ◌∷◌, Str, arith, if◌then◌else◌,
  Bool-cases, Option-cases,
}
use netbird_operator.Runtime.{Error, ok, Result-cases}
use netbird_operator.Runtime.Exec.{Exec}
use netbird_operator.Api.{NetworkResource, DnsRecord, GroupReference, Network}
use netbird_operator.Api.Requests.{OwnerReference}
use netbird_operator.Server.{Call, Server, Library, World}
use netbird_operator.Gateway.Collect.{mem}
use netbird_operator.Mirror.{Requeue, done, requeue_after, resync_interval}
use netbird_operator.LoadBalancer.{
  Service, Config, IpFamily, FamilyAddress, child_name, record_type, dns_record_type_for,
  resource_child, record_child,
}
use netbird_operator.LoadBalancer.Reconcile.{
  resource_names, record_names, child_at, remove_resource, remove_record, prune_loop, prune,
  advertised_text, advertise_loop, publish, advertises, reconcile_service,
}

-- The calls that delete the listed names that are not desired.
abbrev pub removed :
    (Str → Call Service) → List Str → List Str → List (Call Service) → List (Call Service)
removed delete desired [] h = h
removed delete desired (name ∷ names) h =
    removed delete desired names (if mem name desired then h else delete name ∷ h)

module _ (server : Server Service) (lib : Library) where
  prune_loop_done :
      (remove : Str → Exec (World Service) (Unit {0})) (delete : Str → Call Service)
      (desired names : List Str) (w : World Service)
      → ((n : Str) (v : World Service)
          → (remove n v).0 ≡ ok tt
          → (remove n v).1 ≡ record v { history = delete n ∷ v.history })
      → (prune_loop server lib remove desired names w).0 ≡ ok tt
      → (prune_loop server lib remove desired names w).1
        ≡ record w { history = removed delete desired names w.history }
  unfolding prune_loop
  prune_loop_done remove delete desired [] w removes h = refl
  prune_loop_done remove delete desired (n ∷ names) w removes h =
      elim (Bool-cases (mem n desired)) [
        | inl kept ↦ rw kept (prune_loop_done remove delete desired names w removes (rw kept at h))
        | inr stale ↦ elim (Result-cases (remove n w).0) [
          | inl (_, e) ↦
              let gone = removes n w e in
              rw (stale, e, gone)
                (prune_loop_done remove delete desired names
                  (record w { history = delete n ∷ w.history }) removes (rw (stale, e, gone) at h))
          | inr (x, e) ↦ let failed = rw (stale, e) at h in absurd (ground arith)
        ]
      ]

  remove_resource_done :
      (svc : Service) (n : Str) (v : World Service)
      → (remove_resource server lib svc n v).0 ≡ ok tt
      → (remove_resource server lib svc n v).1
        ≡ record v { history = Call.delete_resource (child_at server lib svc n) ∷ v.history }
  remove_resource_done svc n v h = ground arith

  remove_record_done :
      (svc : Service) (n : Str) (v : World Service)
      → (remove_record server lib svc n v).0 ≡ ok tt
      → (remove_record server lib svc n v).1
        ≡ record v { history = Call.delete_record (child_at server lib svc n) ∷ v.history }
  remove_record_done svc n v h = ground arith

  -- The history once the listed resources are pruned, and once the records are.
  abbrev pruned_resources :
      Service → List Str → List Str → List (Call Service) → List (Call Service)
  pruned_resources svc desired resources h =
      removed (λ n. Call.delete_resource (child_at server lib svc n)) desired resources
        (Call.list_resources svc.meta.namespace svc.meta.name ∷ h)

  abbrev pub pruned :
      Service → List Str → List Str → List Str → List (Call Service) → List (Call Service)
  pruned svc desired resources records h =
      removed (λ n. Call.delete_record (child_at server lib svc n)) desired records
        (Call.list_records svc.meta.namespace svc.meta.name
          ∷ pruned_resources svc desired resources h)

  -- The children of the Service were listed after the calls `h`, and the calls `h'` delete those
  -- that are not desired, and no other.
  abbrev pub Pruned : Service → List Str → List (Call Service) → List (Call Service) → Type 0
  Pruned svc desired h h' =
      (resources : List NetworkResource) × (records : List DnsRecord) × (server.list_resources h
          svc.meta.namespace svc.meta.name
        ≡ ok resources)
      × (server.list_records (pruned_resources svc desired (resource_names resources) h)
            svc.meta.namespace svc.meta.name
          ≡ ok records)
      × (h' ≡ pruned svc desired (resource_names resources) (record_names records) h)

  -- A prune that succeeds listed the resources and the records that carry the label of the Service,
  -- and deleted exactly the listed ones whose names are not desired.
  prune-Pruned :
      (svc : Service) (desired : List Str) (w : World Service)
      → (prune server lib svc desired w).0 ≡ ok tt
      → Pruned svc desired w.history (prune server lib svc desired w).1.history
  unfolding prune
  prune-Pruned svc desired w h =
      let ns = svc.meta.namespace in
      let label = svc.meta.name in
      let listed = record w { history = Call.list_resources ns label ∷ w.history } in
      elim (Result-cases (server.list_resources w.history ns label)) [
        | inl (resources, e) ↦
            elim (Result-cases
              (prune_loop server lib (remove_resource server lib svc) desired
                (resource_names resources) listed).0) [
                  | inl (_, p) ↦
                      let swept =
                        prune_loop_done (remove_resource server lib svc)
                          (λ n. Call.delete_resource (child_at server lib svc n)) desired
                          (resource_names resources) listed (remove_resource_done svc) p in
                      let h1 = pruned_resources svc desired (resource_names resources) w.history in
                      let relisted = record w { history = Call.list_records ns label ∷ h1 } in
                      elim (Result-cases (server.list_records h1 ns label)) [
                        | inl (records, f) ↦
                            let last =
                              prune_loop_done (remove_record server lib svc)
                                (λ n. Call.delete_record (child_at server lib svc n)) desired
                                (record_names records) relisted (remove_record_done svc)
                                (rw (e, p, swept, f) at h) in
                            (
                              resources,
                              records,
                              e,
                              f,
                              rw (e, p, swept, f) (ap (λ (v : World Service). v.history) last),
                            )
                        | inr (x, f) ↦
                            let failed = rw (e, p, swept, f) at h in absurd (ground arith)
                      ]
                  | inr (x, p) ↦ let failed = rw (e, p) at h in absurd (ground arith)
                ]
        | inr (x, e) ↦ absurd (ground arith)
      ]

  module _ (ip_family : Str → Option IpFamily) (error_string : Error → Str) (cfg : Config) where
    -- A Service that is no load balancer, is being deleted or is opted out ends without an advertised
    -- child: if the reconcile succeeds, it lists the resources and the records of the Service, deletes
    -- all that are listed, applies nothing, and does not come back on its own.
    pub reconcile_service_withdraws :
        (svc : Service) (ns : List (Str × Str)) (w : World Service) (q : Requeue)
        → advertises server lib ip_family error_string cfg svc ns ≡ false
        → (reconcile_service server lib ip_family error_string cfg svc ns w).0 ≡ ok q
        → (q ≡ done)
          × Pruned svc [] w.history
              (reconcile_service server lib ip_family error_string cfg svc ns w).1.history
    unfolding reconcile_service
    reconcile_service_withdraws svc ns w q off h =
        elim (Result-cases (prune server lib svc [] w).0) [
          | inl (_, e) ↦
              let finished = rw (off, e) at h in
              (ground arith, rw (off, e) (prune-Pruned svc [] w e))
          | inr (x, e) ↦ let failed = rw (off, e) at h in absurd (ground arith)
        ]

    module _ (owner : OwnerReference) (svc : Service) (network : Network)
        (groups : List GroupReference) where
      abbrev apply_both : FamilyAddress → Str → List (Call Service) → List (Call Service)
      apply_both fa type h =
          Call.apply (record_child owner svc cfg fa type)
          ∷ Call.apply (resource_child owner svc network groups fa)
          ∷ h

      -- The calls that apply the resource and the record of each address, in order.
      abbrev pub advertised : List FamilyAddress → List (Call Service) → List (Call Service)
      advertised [] h = h
      advertised (fa ∷ fas) h = elim (dns_record_type_for ip_family fa.address) [
        | none ↦ advertised fas h
        | some type ↦ advertised fas (apply_both fa type h)
      ]

      -- The names of those children, the last one first.
      abbrev pub names_of : List FamilyAddress → List Str → List Str
      names_of [] names = names
      names_of (fa ∷ fas) names = elim (dns_record_type_for ip_family fa.address) [
        | none ↦ names_of fas names
        | some type ↦ names_of fas (child_name svc.meta.name fa.family ∷ names)
      ]

      advertise_loop_done :
          (fas : List FamilyAddress) (names result : List Str) (w : World Service)
          → (advertise_loop server lib ip_family error_string cfg owner svc network groups fas names
              w).0
            ≡ ok result
          → (result ≡ names_of fas names)
            × ((advertise_loop server lib ip_family error_string cfg owner svc network groups fas
                  names w).1
                ≡ record w { history = advertised fas w.history })
      unfolding advertise_loop
      advertise_loop_done [] names result w h = (ground arith, refl)
      advertise_loop_done (fa ∷ fas) names result w h = elim (Option-cases (ip_family fa.address)) [
        | inl e ↦
            rw (e, names_of, advertised, advertise_loop)
              (advertise_loop_done fas names result w (rw (e, advertise_loop) at h))
        | inr (family, e) ↦
            let type = record_type ip_family family in
            let name = child_name svc.meta.name fa.family in
            let resource = resource_child owner svc network groups fa in
            let both = apply_both fa type w.history in
            elim (Result-cases (server.apply w.history resource)) [
              | inl (_, r) ↦
                  elim (Result-cases (
                    server.apply (Call.apply resource ∷ w.history)
                      (record_child owner svc cfg fa type))) [
                        | inl (_, c) ↦
                            rw (e, names_of, advertised, advertise_loop, r, c)
                              (advertise_loop_done fas (name ∷ names) result
                                (record w { history = both }) (rw (e, advertise_loop, r, c) at h))
                        | inr (x, c) ↦
                            let failed = rw (e, advertise_loop, r, c) at h in absurd (ground arith)
                      ]
              | inr (x, r) ↦ let failed = rw (e, advertise_loop, r) at h in absurd (ground arith)
            ]
      ]

      -- Where the end of `Reconcile` succeeds, it applied the resource and the record of each address,
      -- in order, and then pruned: of the children that were then listed, those whose name is that of
      -- an address were kept and the others deleted.
      pub publish_prunes :
          (fas : List FamilyAddress) (w : World Service) (q : Requeue)
          → (publish server lib ip_family error_string cfg owner svc network groups fas w).0 ≡ ok q
          → (q ≡ requeue_after resync_interval)
            × Pruned svc
                (names_of fas [])
                (Call.event (advertised_text svc network cfg) ∷ advertised fas w.history)
                (publish server lib ip_family error_string cfg owner svc network groups fas
                  w).1.history
      unfolding publish
      publish_prunes fas w q h =
          elim (Result-cases
            (advertise_loop server lib ip_family error_string cfg owner svc network groups fas []
              w).0) [
                | inl (desired, e) ↦
                    let (same, calls) = advertise_loop_done fas [] desired w e in
                    let text = advertised_text svc network cfg in
                    let told = record w { history = Call.event text ∷ advertised fas w.history } in
                    elim (Result-cases (prune server lib svc (names_of fas []) told).0) [
                      | inl (_, p) ↦
                          let finished = rw (e, calls, same, p) at h in
                          (
                            ground arith,
                            rw (e, calls, same, p) (prune-Pruned svc (names_of fas []) told p),
                          )
                      | inr (x, p) ↦
                          let failed = rw (e, calls, same, p) at h in absurd (ground arith)
                    ]
                | inr (x, e) ↦ let failed = rw e at h in absurd (ground arith)
              ]
