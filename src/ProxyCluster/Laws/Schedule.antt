-- ===== src/ProxyCluster/Laws/Schedule.antt =====
-- The next try of a cluster that is not being deleted (reverseproxycluster_controller.go).
use netbird_operator.Prelude.{
  bytes, arith, ◌≡◌, ◌⊎◌, refl, inl, inr, true, false, Option, List, [], ◌∷◌, Str,
}
use netbird_operator.Runtime.{
  Error, Result, Result-cases, ok, err, is_cluster_not_found, is_dependency,
}
use netbird_operator.Runtime.Exec.{attempt, ◌>>=◌, ◌>>◌}
use netbird_operator.Runtime.Yields.{Leaves, bind-Leaves, if-Leaves, raise-Leaves}
use netbird_operator.Api.{Reference, reconciled, dependency}
use netbird_operator.Api.Requests.{OwnerReference, ProxyCluster}
use netbird_operator.Api.Proxies.{ReverseProxyCluster}
use netbird_operator.Server.{Call, Server, Library, World, ask}
use netbird_operator.Lookup.{get_proxy_cluster_by_address}
use netbird_operator.LoadBalancer.{IpFamily, FamilyAddress}
use netbird_operator.Mirror.{
  mark, set_status, set_finalizers, finalizer_name, patch, Requeue, requeue_after, resync_interval,
  dependency_retry,
}
use netbird_operator.SetupKeyController.{controller_reference}
use netbird_operator.ProxyCluster.Address.{apply_records, service_addresses}
use netbird_operator.ProxyCluster.Reconcile.{
  offline, wait, mint, enrolled, registered, validated, record_domain, served, owned, set_up,
  addressed, ensure_zone, apply_deployment, apply_service, reconcile_live,
}

module _ (server : Server ReverseProxyCluster) (lib : Library) (ip_family : Str → Option IpFamily)
    (error_string : Error → Str) (management_url : Str) where
  -- The object was sent last, as it is, and is Ready; it is tried again at the resync interval.
  abbrev Settled : Requeue → World ReverseProxyCluster → Type 0
  Settled q w =
      (q ≡ requeue_after resync_interval)
      × (w.object.ready ≡ reconciled)
      × (h : List (Call ReverseProxyCluster)) × (w.history ≡ Call.patch true w.object ∷ h)

  -- The object was sent last, as it is, and waits for something; it is tried again at the shorter
  -- interval.
  abbrev Waiting : Requeue → World ReverseProxyCluster → Type 0
  Waiting q w =
      (q ≡ requeue_after dependency_retry)
      × (msg : Str) × (w.object.ready ≡ dependency msg)
      × (h : List (Call ReverseProxyCluster)) × (w.history ≡ Call.patch false w.object ∷ h)

  abbrev pub Again : Requeue → World ReverseProxyCluster → Type 0
  Again q w = Settled q w ⊎ Waiting q w

  wait-Leaves :
      (msg : Str) → Leaves Again (wait server lib ip_family error_string management_url msg)
  wait-Leaves msg w q h =
      elim (Result-cases (server.patch w.history false (mark (dependency msg) w).object)) [
        | inr (x, e) ↦ let failed = rw e at h in absurd (ground arith)
        | inl (_, e) ↦ rw e (inr (ground arith, msg, refl, w.history, refl))
      ]

  validated-Leaves :
      (rpc : ReverseProxyCluster) (r : Result (Unit {0}))
      → Leaves Again (validated server lib ip_family error_string management_url rpc r)
  validated-Leaves rpc (ok _) w q h =
      elim (Result-cases (server.patch w.history true (mark reconciled w).object)) [
        | inr (x, e) ↦ let failed = rw e at h in absurd (ground arith)
        | inl (_, e) ↦ rw e (inl (ground arith, refl, w.history, refl))
      ]
  validated-Leaves rpc (err e) w q h = wait-Leaves _ w q h

  registered-Leaves :
      (rpc : ReverseProxyCluster) (r : Result Str)
      → Leaves Again (registered server lib ip_family error_string management_url rpc r)
  registered-Leaves rpc (err e) =
      if-Leaves Again (is_dependency e) _ _ (wait-Leaves _) (raise-Leaves Again e)
  registered-Leaves rpc (ok id) =
      let R = record_domain server lib ip_family error_string management_url rpc in
      let V = validated server lib ip_family error_string management_url rpc in
      let check = attempt (ask (Call.domains_validate id) (λ h. server.domains_validate h id)) in
      bind-Leaves Again (R id) (λ _. check >>= V)
        (λ _. bind-Leaves Again check V (validated-Leaves rpc))

  enrolled-Leaves :
      (rpc : ReverseProxyCluster) (r : Result ProxyCluster)
      → Leaves Again (enrolled server lib ip_family error_string management_url rpc r)
  unfolding enrolled
  enrolled-Leaves rpc (err e) w q h =
      if-Leaves Again (is_cluster_not_found e) _ _
        (λ v p k. wait-Leaves _ (set_status offline v) p k) (raise-Leaves Again e) w q h
  enrolled-Leaves rpc (ok cluster) w q h = registered-Leaves rpc _ _ q h

  served-Leaves :
      (owner : OwnerReference) (rpc : ReverseProxyCluster) (zone_ref : Reference)
      (fas : List FamilyAddress)
      → Leaves Again
          (served server lib ip_family error_string management_url owner rpc zone_ref fas)
  unfolding served
  served-Leaves owner rpc zone_ref [] w q h = wait-Leaves _ (set_status offline w) q h
  served-Leaves owner rpc zone_ref (fa ∷ fas) w q h =
      let look = attempt (get_proxy_cluster_by_address server rpc.spec.cluster_address) in
      let rest = enrolled server lib ip_family error_string management_url rpc in
      bind-Leaves Again (apply_records server lib ip_family owner rpc zone_ref (fa ∷ fas))
        (λ _. look >>= rest) (λ _. bind-Leaves Again look rest (enrolled-Leaves rpc))
        (set_status (λ s. record s { load_balancer_ip = fa.address }) w) q h

  set_up-Leaves :
      (owner : OwnerReference) (rpc : ReverseProxyCluster)
      → Leaves Again (set_up server lib ip_family error_string management_url owner rpc)
  set_up-Leaves owner rpc =
      let M = mint server lib ip_family error_string management_url owner rpc in
      let Z = ensure_zone server lib ip_family error_string management_url owner rpc in
      let D = apply_deployment server lib ip_family error_string management_url owner rpc in
      let S = apply_service server lib ip_family error_string management_url owner rpc in
      let A = addressed server lib ip_family error_string management_url owner rpc in
      let rest = served server lib ip_family error_string management_url owner rpc in
      bind-Leaves Again (M >> Z) (λ zone_ref. (D >> S) >> A zone_ref)
        (λ zone_ref.
          bind-Leaves Again (D >> S) (λ _. A zone_ref)
            (λ _.
              bind-Leaves Again (service_addresses server lib ip_family rpc) (rest zone_ref)
                (served-Leaves owner rpc zone_ref)))

  owned-Leaves :
      (rpc : ReverseProxyCluster) (r : Result OwnerReference)
      → Leaves Again (owned server lib ip_family error_string management_url rpc r)
  owned-Leaves rpc (err e) w q h = raise-Leaves Again e w q h
  owned-Leaves rpc (ok owner) w q h = set_up-Leaves owner rpc w q h

  -- A reconcile of a cluster that is not being deleted, where it succeeds, ends with a send of the
  -- object and schedules another try: at the resync interval when the object was sent Ready, and
  -- at the shorter one when it was sent as waiting for a dependency.
  pub reconcile_live-Again :
      (w : World ReverseProxyCluster) (q : Requeue)
      → (reconcile_live server lib ip_family error_string management_url w).0 ≡ ok q
      → Again q (reconcile_live server lib ip_family error_string management_url w).1
  unfolding reconcile_live
  reconcile_live-Again w q h =
      let added =
        set_finalizers (lib.add_finalizer (finalizer_name (bytes "reverseproxycluster"))) w in
      bind-Leaves Again (patch server false)
        (λ _ v.
          owned server lib ip_family error_string management_url v.object
            (controller_reference lib v.object.meta) v)
        (λ _ v p k. owned-Leaves v.object (controller_reference lib v.object.meta) v p k) added q h
