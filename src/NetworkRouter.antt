-- ===== src/NetworkRouter.antt =====
-- internal/controller/networkrouter_controller.go: a NetBird router for a network, and the peers
-- that the operator deploys behind it.
pub mod Laws
use netbird_operator.Prelude.{
  ℕ, Bool, true, false, not, ◌&&◌, ◌||◌, ◌==◌, Option, none, some, List, [], ◌∷◌, ◌++◌, Str, bytes,
  is_empty, str_eq, if◌then◌else◌,
}
use netbird_operator.Runtime.{Error, Result, ok, err, dependency_not_ready, is_dependency}
use netbird_operator.Runtime.Exec.{Exec, pure, raise, modify, gets, attempt, continue, ◌>>=◌, ◌>>◌}
use netbird_operator.Api.{
  NetworkRouter, NetworkRouterSpec, NetworkRouterStatus, RouterDeploy, Object, Group, SetupKey,
  Reference, GroupReference, reconciled,
}
use netbird_operator.Api.Requests.{RouterRequest, OwnerReference, DaemonSetStatus}
use netbird_operator.Server.{Call, Server, Library, World, Child, ask, ignore_not_found}
use netbird_operator.Lookup.{get_group_ids}
use netbird_operator.Mirror.{
  Requeue, done, requeue_after, resync_interval, finalizer_name, set_finalizers, set_status, mark,
  patch, not_ready,
}
use netbird_operator.Mirror.Ids.{verify_netbird_id, resolve_network_id}
use netbird_operator.SetupKeyController.{controller_reference, secret_name}

-- The fields of `NetworkRouterReconciler` that reach the DaemonSet.
pub record Flags : Type 0 where
  pub client_image : Str
  pub management_url : Str

-- The name of the Group, the SetupKey and the DaemonSet of a router.
abbrev pub child_name : NetworkRouter → Str
child_name nr = nr.meta.name ++ bytes "-router"

abbrev pub group_name : NetworkRouter → Str
group_name nr = bytes "networkrouter-" ++ (nr.meta.namespace ++ (bytes "-" ++ nr.meta.name))

abbrev override : Str → Str → Str
override default [] = default
override default (a ∷ text) = a ∷ text

-- The DaemonSet that `ensureDaemonSet` applies, by what differs between two of them.
unfoldable pub router_daemon_set : Flags → OwnerReference → NetworkRouter → SetupKey → Child
router_daemon_set flags owner nr key = elim nr.spec.deploy [
  | none ↦
      Child.daemon_set owner nr.meta.namespace (child_name nr) flags.client_image (bytes "info")
        flags.management_url (secret_name key) []
  | some deploy ↦
      Child.daemon_set owner nr.meta.namespace (child_name nr)
        (override flags.client_image deploy.image) (override (bytes "info") deploy.log_level)
        flags.management_url (secret_name key) deploy.node_selector
]

-- The pods are up: some are scheduled and all of those are ready.
unfoldable pub pods_ready : DaemonSetStatus → Bool
pods_ready ds =
    not (ds.desired_number_scheduled == 0 || not (ds.number_ready == ds.desired_number_scheduled))

abbrev pub router_request : NetworkRouterSpec → Str → RouterRequest
router_request spec group_id = record {
  enabled = spec.enabled;
  masquerade = spec.masquerade;
  metric = spec.metric;
  peer_groups = group_id ∷ [];
}

module _ (server : Server NetworkRouter) (lib : Library) where
  -- `upsertRouter`, after the recorded router has been verified.
  abbrev write_router : Str → Str → RouterRequest → Exec (World NetworkRouter) Str
  write_router network_id [] req =
      ask (Call.routers_create network_id req) (λ h. server.routers_create h network_id req)
  write_router network_id (a ∷ id) req =
      ask (Call.routers_update network_id (a ∷ id) req)
        (λ h. server.routers_update h network_id (a ∷ id) req)

  -- `upsertRouter`
  unfoldable pub upsert_router :
      Str → Str → Str → NetworkRouterSpec → Exec (World NetworkRouter) Str
  upsert_router network_id router_id group_id spec = do
    verified ←
        verify_netbird_id lib router_id
          (λ id. ask (Call.routers_get network_id id) (λ h. server.routers_get h network_id id))
    write_router network_id verified (router_request spec group_id)

  module _ (flags : Flags) where
    abbrev check_pods : Str → Result DaemonSetStatus → Exec (World NetworkRouter) Str
    check_pods group_id (err e) = ignore_not_found lib e []
    check_pods group_id (ok ds) =
        if pods_ready ds
        then pure group_id
        else raise (dependency_not_ready (bytes "router pods not ready"))

    abbrev pub deploy_pods :
        OwnerReference → NetworkRouter → Str → SetupKey → Exec (World NetworkRouter) Str
    deploy_pods owner nr group_id key = do
      let child = router_daemon_set flags owner nr key
      let ref : Reference = record { name = child_name nr; namespace = nr.meta.namespace }
      ask (Call.apply child) (λ h. server.apply h child)
      ds ← attempt (ask (Call.kube_daemon_set ref) (λ h. server.kube_daemon_set h ref))
      check_pods group_id ds

    abbrev check_key :
        OwnerReference → NetworkRouter → Str → Result SetupKey → Exec (World NetworkRouter) Str
    check_key owner nr group_id (err e) = ignore_not_found lib e []
    check_key owner nr group_id (ok key) =
        if is_empty key.status.setup_key_id
        then raise (dependency_not_ready (bytes "router setup key not ready"))
        else deploy_pods owner nr group_id key

    abbrev pub deploy_key : OwnerReference → NetworkRouter → Str → Exec (World NetworkRouter) Str
    deploy_key owner nr group_id = do
      let name = child_name nr
      let child = Child.setup_key owner nr.meta.namespace name (group_name nr) name
      let ref : Reference = record { name = name; namespace = nr.meta.namespace }
      ask (Call.apply child) (λ h. server.apply h child)
      key ← attempt (ask (Call.kube_setup_key ref) (λ h. server.kube_setup_key h ref))
      check_key owner nr group_id key

    abbrev check_group :
        OwnerReference → NetworkRouter → Result Group → Exec (World NetworkRouter) Str
    check_group owner nr (err e) = ignore_not_found lib e []
    check_group owner nr (ok group) =
        if is_empty group.status.group_id
        then raise (dependency_not_ready (bytes "router group not ready"))
        else deploy_key owner nr group.status.group_id

    abbrev pub deploy_group : OwnerReference → NetworkRouter → Exec (World NetworkRouter) Str
    deploy_group owner nr = do
      let name = child_name nr
      let child = Child.group owner nr.meta.namespace name (group_name nr)
      let ref : Reference = record { name = name; namespace = nr.meta.namespace }
      ask (Call.apply child) (λ h. server.apply h child)
      group ← attempt (ask (Call.kube_group ref) (λ h. server.kube_group h ref))
      check_group owner nr group

    abbrev owned : NetworkRouter → Result OwnerReference → Exec (World NetworkRouter) Str
    owned nr (err e) = raise e
    owned nr (ok owner) = deploy_group owner nr

    -- `ensureDeployedPeers`
    unfoldable pub ensure_deployed_peers : NetworkRouter → Exec (World NetworkRouter) Str
    unfolding controller_reference
    ensure_deployed_peers nr = owned nr (controller_reference lib nr.meta)

    abbrev first_id : List Str → Exec (World NetworkRouter) Str
    first_id [] = raise (dependency_not_ready (bytes "peer group not resolved"))
    first_id (id ∷ ids) =
        if is_empty id
        then raise (dependency_not_ready (bytes "peer group not resolved"))
        else pure id

    abbrev named_peer_group : Option GroupReference → NetworkRouter → Exec (World NetworkRouter) Str
    named_peer_group (some ref) nr = do
      ids ← get_group_ids server (ref ∷ []) nr.meta.namespace
      first_id ids
    named_peer_group none nr = ensure_deployed_peers nr

    -- `resolvePeerGroup`
    unfoldable pub resolve_peer_group : NetworkRouter → Exec (World NetworkRouter) Str
    unfolding ensure_deployed_peers
    resolve_peer_group nr = named_peer_group nr.spec.group nr

    -- `dependency`
    unfoldable pub dependency_or_fail : Error → Exec (World NetworkRouter) Requeue
    dependency_or_fail e = if is_dependency e then not_ready server e else raise e

    -- The status that records the network: a router of another network is forgotten.
    abbrev pub moved_to : Str → NetworkRouterStatus → NetworkRouterStatus
    moved_to network_id status =
        if not (is_empty status.network_id) && not (str_eq status.network_id network_id)
        then record status { network_id = network_id; router_id = [] }
        else record status { network_id = network_id }

    abbrev pub with_group : Str → Str → Exec (World NetworkRouter) Requeue
    with_group network_id group_id = do
      modify (set_status (λ s. record s { group_id = group_id }))
      nr ← gets (λ w. w.object)
      router_id ← upsert_router network_id nr.status.router_id group_id nr.spec
      modify (set_status (λ s. record s { router_id = router_id }))
      modify (mark reconciled)
      patch server true
      pure (requeue_after resync_interval)

    abbrev on_group : Str → Result Str → Exec (World NetworkRouter) Requeue
    on_group network_id (err e) = dependency_or_fail e
    on_group network_id (ok group_id) = with_group network_id group_id

    abbrev pub on_network : Result Str → Exec (World NetworkRouter) Requeue
    on_network (err e) = dependency_or_fail e
    on_network (ok network_id) = do
      modify (set_status (moved_to network_id))
      nr ← gets (λ w. w.object)
      group ← attempt (resolve_peer_group nr)
      on_group network_id group

    -- `Reconcile` on a router that is not being deleted.
    unfoldable pub reconcile_live : Exec (World NetworkRouter) Requeue
    unfolding upsert_router resolve_peer_group dependency_or_fail
    reconcile_live = do
      modify (set_finalizers (lib.add_finalizer (finalizer_name (bytes "networkrouter"))))
      patch server false
      nr ← gets (λ w. w.object)
      network ← attempt (resolve_network_id server lib nr.spec.network_ref)
      on_network network

  abbrev ignore_gone : Result (Unit {0}) → Exec (World NetworkRouter) (Unit {0})
  ignore_gone (ok _) = pure tt
  ignore_gone (err e) = if lib.is_not_found e then pure tt else raise e

  abbrev delete_router : Str → Str → Exec (World NetworkRouter) (Unit {0})
  delete_router network_id router_id =
      if not (is_empty network_id) && not (is_empty router_id)
      then attempt (
          ask (Call.routers_delete network_id router_id)
            (λ h. server.routers_delete h network_id router_id))
        >>= ignore_gone
      else pure tt

  -- `reconcileDelete`
  unfoldable pub reconcile_delete : Exec (World NetworkRouter) Requeue
  reconcile_delete = do
    nr ← gets (λ w. w.object)
    delete_router nr.status.network_id nr.status.router_id
    modify (set_finalizers (lib.remove_finalizer (finalizer_name (bytes "networkrouter"))))
    patch server false
    pure done

  module _ (flags : Flags) where
    abbrev load : Result NetworkRouter → Exec (World NetworkRouter) Requeue
    load (err e) w = ignore_not_found lib e done w
    load (ok obj) w =
        let w' = record w { object = obj } in
        if obj.meta.deleting then reconcile_delete w' else reconcile_live flags w'

    -- `NetworkRouterReconciler.Reconcile`
    unfoldable pub reconcile : Reference → Exec (World NetworkRouter) Requeue
    unfolding reconcile_live reconcile_delete
    reconcile req = do found ← attempt (ask (Call.get req) (λ h. server.get h req)); load found
