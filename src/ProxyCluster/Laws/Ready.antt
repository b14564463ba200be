-- ===== src/ProxyCluster/Laws/Ready.antt =====
-- The token of a cluster, and what holds when it is Ready (reverseproxycluster_controller.go).
use netbird_operator.Prelude.{
  ap, sym, ◌∙◌, arith, ◌≡◌, refl, inl, inr, true, false, Option, List, ◌∷◌, Bool-cases, Str,
  is_empty, str_eq, str_eq→eq, if◌then◌else◌,
}
use netbird_operator.Runtime.{Error, Result-cases, ok}
use netbird_operator.Api.{reconciled}
use netbird_operator.Api.Requests.{OwnerReference, ProxyCluster}
use netbird_operator.Api.Proxies.{ReverseProxyCluster, TokenInfo}
use netbird_operator.Server.{Call, Server, Library, World}
use netbird_operator.LoadBalancer.{IpFamily}
use netbird_operator.Mirror.{mark, set_status, requeue_after, resync_interval}
use netbird_operator.ProxyCluster.Domain.{ensure_domain}
use netbird_operator.ProxyCluster.Domain.Laws.{ensure_domain_object}
use netbird_operator.ProxyCluster.Reconcile.{
  enrolled_status, mint, token_name, token_secret, enrolled, registered, validated,
}

module _ (server : Server ReverseProxyCluster) (lib : Library) (ip_family : Str → Option IpFamily)
    (error_string : Error → Str) (management_url : Str) where
  -- What a mint that succeeded left behind.
  abbrev pub Minted :
      OwnerReference
      → ReverseProxyCluster
      → World ReverseProxyCluster
      → World ReverseProxyCluster
      → Type 0
  Minted owner rpc w v =
      (token : TokenInfo) × (server.tokens_create w.history (token_name rpc) ≡ ok token)
      × (v.object.status.token_id ≡ token.id)
      × (v.history
          ≡ Call.patch false v.object
            ∷ Call.apply (token_secret owner rpc token.plain_token)
            ∷ Call.tokens_create (token_name rpc)
            ∷ w.history)

  -- A cluster with a recorded token keeps it, and no call is made. For another, a mint that succeeds
  -- created one token, stored it in the Secret of the cluster and then recorded its id, in this order.
  pub mint-Minted :
      (owner : OwnerReference) (rpc : ReverseProxyCluster) (w : World ReverseProxyCluster)
      → let m = mint server lib ip_family error_string management_url owner rpc w in
        m.0 ≡ ok tt → if is_empty rpc.status.token_id then Minted owner rpc w m.1 else (m.1 ≡ w)
  unfolding mint
  mint-Minted owner rpc w h = elim (Bool-cases (is_empty rpc.status.token_id)) [
    | inr set ↦ rw set refl
    | inl new ↦ elim (Result-cases (server.tokens_create w.history (token_name rpc))) [
      | inr (x, e) ↦ let failed = rw (new, e) at h in absurd (ground arith)
      | inl (token, e) ↦
          let h' = Call.tokens_create (token_name rpc) ∷ w.history in
          elim (Result-cases (server.apply h' (token_secret owner rpc token.plain_token))) [
            | inr (x, f) ↦ let failed = rw (new, e, f) at h in absurd (ground arith)
            | inl (_, f) ↦ rw (new, e, f) (token, refl, refl, refl)
          ]
    ]
  ]

  -- The end of a reconcile that left the cluster Ready with a registration.
  pub record IsReady (cluster : ProxyCluster) (address id : Str) (v : World ReverseProxyCluster)
      : Type 0 where
    pub ready : v.object.ready ≡ reconciled
    pub online : v.object.status.online ≡ cluster.online
    pub proxies : v.object.status.connected_proxies ≡ cluster.connected_proxies
    pub address_recorded : v.object.status.cluster_address ≡ address
    pub domain_recorded : v.object.status.domain_id ≡ id
    pub before : List (Call ReverseProxyCluster)
    pub validated : server.domains_validate before id ≡ ok tt
    pub calls : v.history ≡ Call.patch true v.object ∷ Call.domains_validate id ∷ before

  validated-IsReady :
      (rpc : ReverseProxyCluster) (cluster : ProxyCluster) (address id : Str)
      (w : World ReverseProxyCluster) (before : List (Call ReverseProxyCluster))
      → w.object.status.online ≡ cluster.online
      → w.object.status.connected_proxies ≡ cluster.connected_proxies
      → w.object.status.cluster_address ≡ address
      → w.object.status.domain_id ≡ id
      → server.domains_validate before id ≡ ok tt
      → w.history ≡ Call.domains_validate id ∷ before
      → IsReady cluster address id
          (validated server lib ip_family error_string management_url rpc (ok tt) w).1
  validated-IsReady rpc cluster address id w before on proxies at same e calls =
      let v = mark reconciled w in
      elim (Result-cases (server.patch v.history true v.object)) [
        | inl (_, p) ↦ rw p (record {
          ready = refl;
          online = on;
          proxies = proxies;
          address_recorded = at;
          domain_recorded = same;
          before = before;
          validated = e;
          calls = ap (λ h. Call.patch true v.object ∷ h) calls;
        })
        | inr (x, p) ↦ rw p (record {
          ready = refl;
          online = on;
          proxies = proxies;
          address_recorded = at;
          domain_recorded = same;
          before = before;
          validated = e;
          calls = ap (λ h. Call.patch true v.object ∷ h) calls;
        })
      ]

  registered-IsReady :
      (rpc : ReverseProxyCluster) (cluster : ProxyCluster) (address id : Str)
      (w : World ReverseProxyCluster)
      → rpc.status.domain_id ≡ w.object.status.domain_id
      → w.object.status.online ≡ cluster.online
      → w.object.status.connected_proxies ≡ cluster.connected_proxies
      → w.object.status.cluster_address ≡ address
      → let m = registered server lib ip_family error_string management_url rpc (ok id) w in
        m.0 ≡ ok (requeue_after resync_interval) → IsReady cluster address id m.1
  registered-IsReady rpc cluster address id w same on proxies at h =
      elim (Bool-cases (str_eq rpc.status.domain_id id)) [
        | inl known ↦ elim (Result-cases (server.domains_validate w.history id)) [
          | inr (x, e) ↦ let failed = rw (known, e) at h in absurd (ground arith)
          | inl (_, e) ↦
              let there = sym same ∙ str_eq→eq rpc.status.domain_id id known in
              rw (known, e)
                (validated-IsReady rpc cluster address id
                  (record w { history = Call.domains_validate id ∷ w.history }) w.history on proxies
                  at there e refl)
        ]
        | inr new ↦
            let v = set_status (λ s. record s { domain_id = id }) w in
            elim (Result-cases (server.patch v.history false v.object)) [
              | inr (x, p) ↦ let failed = rw (new, p) at h in absurd (ground arith)
              | inl (_, p) ↦
                  let before = Call.patch false v.object ∷ w.history in
                  elim (Result-cases (server.domains_validate before id)) [
                    | inr (x, e) ↦ let failed = rw (new, p, e) at h in absurd (ground arith)
                    | inl (_, e) ↦
                        rw (new, p, e)
                          (validated-IsReady rpc cluster address id
                            (record v { history = Call.domains_validate id ∷ before }) before on
                            proxies at refl e refl)
                  ]
            ]
      ]

  -- A cluster that NetBird lists is requeued at the resync interval only when `ensureDomain` gave a
  -- registration that was then validated; it is Ready, and its status has what NetBird reports, the
  -- address and the registration.
  pub enrolled-IsReady :
      (rpc : ReverseProxyCluster) (cluster : ProxyCluster) (w : World ReverseProxyCluster)
      → rpc.status.domain_id ≡ w.object.status.domain_id
      → let v = set_status (enrolled_status rpc.spec.cluster_address cluster) w in
        let m = enrolled server lib ip_family error_string management_url rpc (ok cluster) w in
        m.0 ≡ ok (requeue_after resync_interval)
        → (id : Str) × ((ensure_domain server lib rpc v).0 ≡ ok id)
          × IsReady cluster rpc.spec.cluster_address id m.1
  unfolding enrolled
  enrolled-IsReady rpc cluster w same h =
      let v = set_status (enrolled_status rpc.spec.cluster_address cluster) w in
      let u = (ensure_domain server lib rpc v).1 in
      let still = ensure_domain_object server lib rpc v in
      elim (Result-cases (ensure_domain server lib rpc v).0) [
        | inl (id, e) ↦ (
          id,
          e,
          rw e (
              registered-IsReady rpc cluster rpc.spec.cluster_address id u (rw still same)
                (rw still refl) (rw still refl) (rw still refl) (rw e at h)),
        )
        | inr (x, e) ↦ let failed = rw e at h in absurd (ground (arith))
      ]
