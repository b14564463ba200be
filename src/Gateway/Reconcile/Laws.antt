-- ===== src/Gateway/Reconcile/Laws.antt =====
-- The status of a Gateway (gateway_controller.go).
use netbird_operator.Prelude.{
  arith, ◌≡◌, refl, ap, ◌∙◌, inl, inr, Bool, true, false, List, [], ◌∷◌, Bool-cases, Str, str_eq,
  is_empty, if◌then◌else◌,
}
use netbird_operator.Runtime.{Error, Result-cases, ok}
use netbird_operator.Runtime.Exec.{Exec, modify, ◌>>=◌, ◌>>◌}
use netbird_operator.Api.Proxies.{ReverseProxyCluster}
use netbird_operator.Server.{Call, Server, Library, World}
use netbird_operator.Gateway.Types.{Gateway}
use netbird_operator.Gateway.Admission.{GatewayProxy}
use netbird_operator.Gateway.Status.{
  Condition, GatewayObject, SetCondition, accepted_type, programmed_type, gateway_accepted,
  gateway_programmed,
}
use netbird_operator.Gateway.Reconcile.{
  add_condition, or_no_routes, update_status, set_gateway_status, is_ready, statuses_loop,
  listener_statuses, sync_status,
}
use netbird_operator.Gateway.Reconcile.Listeners.{
  SetsCondition, is_true, two_set, AllReported, statuses_loop-Yields, statuses_loop_object,
}

module _ (server : Server GatewayObject) (lib : Library) (set_condition : SetCondition)
    (error_string : Error → Str) where
  -- What a Gateway reports of the cluster that it owns.
  pub record IsSynced (gw : Gateway) (cfg : GatewayProxy) (rpc : ReverseProxyCluster)
      (before : List Str) (v : World GatewayObject) : Type 0 where
    pub accepted : is_true accepted_type v.object.status.conditions ≡ true
    pub programmed : is_true programmed_type v.object.status.conditions ≡ is_ready rpc.ready
    pub addresses : v.object.status.addresses ≡ (
        if is_empty rpc.status.load_balancer_ip then before else rpc.status.load_balancer_ip ∷ [])
    pub listeners :
        AllReported server lib set_condition error_string cfg
          (is_ready rpc.ready)
          gw.listeners
          v.object.status.listeners

  -- The two conditions of a Gateway, set one after the other.
  gateway_conditions :
      SetsCondition set_condition
      → (gw : Gateway) (ready : Bool) (cs : List Condition)
      → let cs' =
          set_condition
            (gateway_programmed set_condition gw ready)
            (set_condition (gateway_accepted set_condition gw) cs) in
        (is_true accepted_type cs' ≡ true) × (is_true programmed_type cs' ≡ ready)
  unfolding str_eq
  gateway_conditions s gw true cs =
      two_set set_condition s (gateway_accepted set_condition gw)
        (gateway_programmed set_condition gw true) cs refl
  gateway_conditions s gw false cs =
      two_set set_condition s (gateway_accepted set_condition gw)
        (gateway_programmed set_condition gw false) cs refl

  -- The end of `syncStatus`.
  abbrev report : Gateway → GatewayProxy → Bool → Exec (World GatewayObject) (Unit {0})
  report gw cfg ready = do
    statuses ← listener_statuses server lib set_condition error_string gw cfg ready
    modify (
        set_gateway_status server lib set_condition error_string
          (λ s. record s { listeners = statuses }))
    update_status server lib set_condition error_string

  report_done :
      SetsCondition set_condition
      → (gw : Gateway) (cfg : GatewayProxy) (ready : Bool) (w : World GatewayObject)
      → let m = report gw cfg ready w in
        m.0 ≡ ok tt
        → (m.1.object.status.conditions ≡ w.object.status.conditions)
          × (m.1.object.status.addresses ≡ w.object.status.addresses)
          × AllReported server lib set_condition error_string cfg ready gw.listeners
              m.1.object.status.listeners
  unfolding listener_statuses
  report_done s gw cfg ready w h =
      let routes =
        or_no_routes server lib set_condition error_string (server.kube_routes w.history) in
      let v = record w { history = Call.kube_routes ∷ w.history } in
      let same =
        statuses_loop_object server lib set_condition error_string gw cfg ready routes gw.listeners
          v in
      elim (Result-cases
        (statuses_loop server lib set_condition error_string gw cfg ready routes gw.listeners
          v).0) [
            | inr (x, e) ↦ let failed = rw e at h in absurd (ground arith)
            | inl (ss, e) ↦ rw e (
              ap (λ o. o.status.conditions) same,
              ap (λ o. o.status.addresses) same,
              statuses_loop-Yields server lib set_condition error_string s gw cfg ready routes
                  gw.listeners v ss e,
            )
          ]

  -- The status of a Gateway whose cluster was read, where its update succeeds: it is Accepted, it is
  -- Programmed exactly when the cluster is Ready, it keeps its address until the cluster has another
  -- one, and there is one report for each listener, in order. A listener is Accepted exactly when its
  -- hostname is under the registered domain, and Programmed only with its references resolved.
  pub sync_status-IsSynced :
      SetsCondition set_condition
      → (gw : Gateway) (cfg : GatewayProxy) (rpc : ReverseProxyCluster) (w : World GatewayObject)
      → let m = sync_status server lib set_condition error_string gw cfg rpc w in
        m.0 ≡ ok tt → IsSynced gw cfg rpc w.object.status.addresses m.1
  unfolding sync_status listener_statuses
  sync_status-IsSynced s gw cfg rpc w h =
      let ready = is_ready rpc.ready in
      let v =
        add_condition server lib set_condition error_string
          (gateway_programmed set_condition gw ready)
          (add_condition server lib set_condition error_string (gateway_accepted set_condition gw)
            w) in
      let (a, p) = gateway_conditions s gw ready w.object.status.conditions in
      elim (Bool-cases (is_empty rpc.status.load_balancer_ip)) [
        | inl e ↦
            let (cs, ips, ls) = report_done s gw cfg ready v (rw e at h) in
            rw e (record {
              accepted = ap (is_true accepted_type) cs ∙ a;
              programmed = ap (is_true programmed_type) cs ∙ p;
              addresses = rw e ips;
              listeners = ls;
            })
        | inr e ↦
            let u =
              set_gateway_status server lib set_condition error_string
                (λ s. record s { addresses = rpc.status.load_balancer_ip ∷ [] }) v in
            let (cs, ips, ls) = report_done s gw cfg ready u (rw e at h) in
            rw e (record {
              accepted = ap (is_true accepted_type) cs ∙ a;
              programmed = ap (is_true programmed_type) cs ∙ p;
              addresses = rw e ips;
              listeners = ls;
            })
      ]
