-- ===== src/ProxyCluster/Domain/Laws.antt =====
-- What `ensureDomain` deletes and what it creates (reverseproxycluster_controller.go).
use netbird_operator.Prelude.{
  arith, ◌≡◌, refl, inl, inr, Bool, true, false, ◌&&◌, ◌||◌, some, List, ◌∷◌, any, find, Bool-cases,
  Option-cases, Str, is_empty, str_eq, str_eq→eq,
}
use netbird_operator.Runtime.{Error, Result-cases, ok, err, is_cluster_not_found}
use netbird_operator.Api.Proxies.{ReverseProxyCluster, ProxyDomain, DomainRequest}
use netbird_operator.Runtime.Exec.{◌>>◌}
use netbird_operator.Server.{Call, Server, Library, World}
use netbird_operator.Lookup.{another_live_matches, get_proxy_cluster_by_address, fetch_clusters}
use netbird_operator.Cache.Laws.{lookup_keeps}
use netbird_operator.Lookup.Laws.{is_rival, another_live_matches_lem}
use netbird_operator.ProxyCluster.Domain.{
  uses_cluster, target_of, claim, ensure_domain, ignore_gone, delete_domain, create_domain,
}

abbrev is_delete_of : Str → Call ReverseProxyCluster → Bool
is_delete_of id (Call.domains_delete j) = str_eq j id
is_delete_of id _ = false

module _ (server : Server ReverseProxyCluster) (lib : Library) where
  -- The world behind the read of the other clusters.
  abbrev pub read_clusters : World ReverseProxyCluster → World ReverseProxyCluster
  read_clusters u = record u { history = Call.kube_clusters ∷ u.history }

  -- A registration is dead state in a world: its target is another cluster, which no other live CR
  -- uses and NetBird does not list.
  pub record HasDeadTarget (rpc : ReverseProxyCluster) (d : ProxyDomain)
      (u : World ReverseProxyCluster) : Type 0 where
    pub targeted : (is_empty (target_of d) || str_eq (target_of d) rpc.spec.cluster_address) ≡ false
    pub items : List ReverseProxyCluster
    pub read : server.kube_clusters u.history ≡ ok items
    pub unused : any (λ other. is_rival rpc other && uses_cluster (target_of d) other) items ≡ false
    pub error : Error
    pub missed : (get_proxy_cluster_by_address server (target_of d) (read_clusters u)).0 ≡ err error
    pub gone : is_cluster_not_found error ≡ true

  found_keeps :
      (id address : Str) (w : World ReverseProxyCluster)
      → any (is_delete_of id) (get_proxy_cluster_by_address server address w).1.history
        ≡ any (is_delete_of id) w.history
  unfolding get_proxy_cluster_by_address
  found_keeps id address w =
      lookup_keeps (fetch_clusters server)
        (λ v. any (is_delete_of id) v.history ≡ any (is_delete_of id) w.history) (λ v e. e)
        w.clusters (server.now w.history) (λ c. str_eq c.address address) w refl

  claim-HasDeadTarget :
      (rpc : ReverseProxyCluster) (d : ProxyDomain) (id : Str) (u : World ReverseProxyCluster)
      → any (is_delete_of id) u.history ≡ false
      → any (is_delete_of id) (claim server lib rpc d u).1.history ≡ true
      → (d.id ≡ id) × HasDeadTarget rpc d u
  claim-HasDeadTarget rpc d id u before after =
      let target = target_of d in
      let v = read_clusters u in
      elim (Bool-cases (is_empty target || str_eq target rpc.spec.cluster_address)) [
        | inl own ↦ let kept = rw own at after in absurd (ground arith)
        | inr other ↦ elim (Result-cases (server.kube_clusters u.history)) [
          | inr (x, r) ↦ let kept = rw (other, r) at after in absurd (ground arith)
          | inl (items, r) ↦
              elim (Bool-cases (another_live_matches rpc items (uses_cluster target))) [
                | inl used ↦ let kept = rw (other, r, used) at after in absurd (ground arith)
                | inr free ↦ elim (Result-cases (get_proxy_cluster_by_address server target v).0) [
                  | inl (c, f) ↦
                      let kept = rw (other, r, free, f) at after in
                      absurd (ground (arith, found_keeps id target v))
                  | inr (x, f) ↦ elim (Bool-cases (is_cluster_not_found x)) [
                    | inr transient ↦
                        let kept = rw (other, r, free, f, transient) at after in
                        absurd (ground (arith, found_keeps id target v))
                    | inl gone ↦
                        let deleted = rw (other, r, free, f, gone) at after in
                        (
                          ground (arith, found_keeps id target v, str_eq→eq d.id id),
                          record {
                            targeted = other;
                            items = items;
                            read = r;
                            unused =
                                rw (← another_live_matches_lem rpc items (uses_cluster target))
                                  free;
                            error = x;
                            missed = f;
                            gone = gone;
                          },
                        )
                  ]
                ]
              ]
        ]
      ]

  -- The world behind the list of the registrations.
  abbrev pub read_domains : World ReverseProxyCluster → World ReverseProxyCluster
  read_domains w = record w { history = Call.domains_list ∷ w.history }

  -- The registration `id` is the one of the domain that NetBird lists first, and it is dead.
  pub record IsDead (rpc : ReverseProxyCluster) (id : Str) (w : World ReverseProxyCluster)
      : Type 0 where
    pub domain : ProxyDomain
    pub same : domain.id ≡ id
    pub domains : List ProxyDomain
    pub listed : server.domains_list w.history ≡ ok domains
    pub found : find (λ d. str_eq d.domain rpc.spec.domain) domains ≡ some domain
    pub dead : HasDeadTarget rpc domain (read_domains w)

  -- A registration that `ensureDomain` deletes is dead: it is that of the cluster's domain, and it
  -- targets another cluster, which no other live CR declares or has recorded and which NetBird does
  -- not list.
  pub ensure_domain-IsDead :
      (rpc : ReverseProxyCluster) (id : Str) (w : World ReverseProxyCluster)
      → any (is_delete_of id) w.history ≡ false
      → any (is_delete_of id) (ensure_domain server lib rpc w).1.history ≡ true
      → IsDead rpc id w
  unfolding ensure_domain
  ensure_domain-IsDead rpc id w before after = elim (Result-cases (server.domains_list w.history)) [
    | inr (x, e) ↦ let kept = rw e at after in absurd (ground arith)
    | inl (domains, e) ↦ elim (Option-cases (find (λ d. str_eq d.domain rpc.spec.domain) domains)) [
      | inl f ↦ let kept = rw (e, f) at after in absurd (ground arith)
      | inr (d, f) ↦
          let (same, dead) =
            claim-HasDeadTarget rpc d id (read_domains w) before (rw (e, f) at after) in
          record { domain = d; same = same; domains = domains; listed = e; found = f; dead = dead }
    ]
  ]

  abbrev pub domain_request : ReverseProxyCluster → DomainRequest
  domain_request rpc = record {
    domain = rpc.spec.domain;
    target_cluster = rpc.spec.cluster_address;
  }

  replaced :
      (rpc : ReverseProxyCluster) (id new : Str) (v : World ReverseProxyCluster)
      → (ignore_gone server lib (server.domains_delete v.history id) v).0 ≡ ok tt
      → server.domains_create (Call.domains_delete id ∷ v.history) (domain_request rpc) ≡ ok new
      → (delete_domain server lib id >> create_domain server lib rpc) v ≡ (
        ok new,
        record v {
          history = Call.domains_create (domain_request rpc) ∷ Call.domains_delete id ∷ v.history;
        },
      )
  replaced rpc id new v deleted created = elim (Result-cases (server.domains_delete v.history id)) [
    | inl (_, e) ↦ rw (e, created) refl
    | inr (x, e) ↦ elim (Bool-cases (lib.is_not_found x)) [
      | inl gone ↦ rw (e, gone, created) refl
      | inr other ↦ let failed = rw (e, other) at deleted in absurd (ground arith)
    ]
  ]

  -- A dead registration heals itself: where NetBird deletes it, or has it no longer, and accepts the
  -- new one, `ensureDomain` returns the new id, and its last two calls are that delete and that
  -- create.
  pub ensure_domain_heals :
      (rpc : ReverseProxyCluster) (id new : Str) (w : World ReverseProxyCluster)
      (dead : IsDead rpc id w)
      → let d = dead.domain in
        let v =
          (get_proxy_cluster_by_address server (target_of d) (read_clusters (read_domains w))).1 in
        (ignore_gone server lib (server.domains_delete v.history d.id) v).0 ≡ ok tt
        → server.domains_create (Call.domains_delete d.id ∷ v.history) (domain_request rpc) ≡ ok new
        → ensure_domain server lib rpc w ≡ (
          ok new,
          record v {
            history =
                Call.domains_create (domain_request rpc) ∷ Call.domains_delete d.id ∷ v.history;
          },
        )
  unfolding ensure_domain
  ensure_domain_heals rpc id new w dead deleted created =
      rw
        (
          dead.listed,
          dead.found,
          dead.dead.targeted,
          dead.dead.read,
          another_live_matches_lem rpc dead.dead.items (uses_cluster (target_of dead.domain)),
          dead.dead.unused,
          dead.dead.missed,
          dead.dead.gone,
        )
        (replaced rpc dead.domain.id new _ deleted created)

  found_object :
      (address : Str) (w : World ReverseProxyCluster)
      → (get_proxy_cluster_by_address server address w).1.object ≡ w.object
  unfolding get_proxy_cluster_by_address
  found_object address w =
      lookup_keeps (fetch_clusters server) (λ v. v.object ≡ w.object) (λ v e. e) w.clusters
        (server.now w.history) (λ c. str_eq c.address address) w refl

  claim_object :
      (rpc : ReverseProxyCluster) (d : ProxyDomain) (w : World ReverseProxyCluster)
      → (claim server lib rpc d w).1.object ≡ w.object
  claim_object rpc d w = ground (arith, found_object (target_of d) (read_clusters w))

  -- `ensureDomain` leaves the object under reconciliation alone.
  pub ensure_domain_object :
      (rpc : ReverseProxyCluster) (w : World ReverseProxyCluster)
      → (ensure_domain server lib rpc w).1.object ≡ w.object
  unfolding ensure_domain
  ensure_domain_object rpc w = elim (Result-cases (server.domains_list w.history)) [
    | inr (x, e) ↦ rw e refl
    | inl (domains, e) ↦ elim (Option-cases (find (λ d. str_eq d.domain rpc.spec.domain) domains)) [
      | inl f ↦ rw (e, f) refl
      | inr (d, f) ↦ rw (e, f) (claim_object rpc d (read_domains w))
    ]
  ]
