-- ===== src/NetworkRouter/Laws.antt =====
-- When a router counts as ready, and which router is written.
use netbird_operator.Prelude.{
  ◌≡◌, ◌≢◌, ◌⊎◌, inl, inr, refl, true, false, List, [], ◌∷◌, Str, arith, is_empty, Bool-cases,
}
use netbird_operator.Runtime.{Error, ok, err, Result-cases}
use netbird_operator.Api.{NetworkRouter, NetworkRouterSpec, Group, SetupKey, Reference}
use netbird_operator.Api.Requests.{RouterRequest, OwnerReference, DaemonSetStatus}
use netbird_operator.Server.{Call, Server, Library, World, Child}
use netbird_operator.Mirror.Ids.{verify_netbird_id}
use netbird_operator.SetupKeyController.{controller_reference}
use netbird_operator.NetworkRouter.{
  Flags, child_name, group_name, router_daemon_set, pods_ready, router_request, upsert_router,
  deploy_pods, deploy_key, deploy_group, ensure_deployed_peers,
}

abbrev child_ref : NetworkRouter → Reference
child_ref nr = record { name = child_name nr; namespace = nr.meta.namespace }

abbrev group_child : OwnerReference → NetworkRouter → Child
group_child owner nr = Child.group owner nr.meta.namespace (child_name nr) (group_name nr)

abbrev key_child : OwnerReference → NetworkRouter → Child
key_child owner nr =
    Child.setup_key owner nr.meta.namespace (child_name nr) (group_name nr) (child_name nr)

module _ (server : Server NetworkRouter) (lib : Library) where
  -- What `upsert_router` does to reach the id that it returns.
  abbrev pub Written :
      Str
      → Str
      → RouterRequest
      → List (Call NetworkRouter)
      → Str
      → List (Call NetworkRouter)
      → Type 0
  Written network_id router_id req h id h' =
      ((server.routers_get h network_id router_id ≡ ok tt)
        × (server.routers_update (Call.routers_get network_id router_id ∷ h) network_id router_id
              req
            ≡ ok id)
        × (h'
            ≡ Call.routers_update network_id router_id req
              ∷ Call.routers_get network_id router_id
              ∷ h))
      ⊎ (((e : Error) × (server.routers_get h network_id router_id ≡ err e)
            × (lib.is_not_found e ≡ true)
            × (server.routers_create (Call.routers_get network_id router_id ∷ h) network_id req
                ≡ ok id)
            × (h' ≡ Call.routers_create network_id req ∷ Call.routers_get network_id router_id ∷ h))
          ⊎ ((router_id ≡ [])
              × (server.routers_create h network_id req ≡ ok id)
              × (h' ≡ Call.routers_create network_id req ∷ h)))

  -- An id that `upsert_router` returns is the answer of one write to the network: an update of the
  -- recorded router that was just found, or a create where none is recorded or the recorded one is
  -- gone.
  pub upsert_router_writes :
      (network_id router_id group_id : Str) (spec : NetworkRouterSpec) (w : World NetworkRouter)
      (id : Str)
      → (upsert_router server lib network_id router_id group_id spec w).0 ≡ ok id
      → Written network_id router_id
          (router_request spec group_id)
          w.history
          id
          (upsert_router server lib network_id router_id group_id spec w).1.history
  unfolding upsert_router verify_netbird_id
  upsert_router_writes network_id [] group_id spec w id h = inr (inr (refl, h, refl))
  upsert_router_writes network_id (a ∷ r) group_id spec w id h =
      elim (Result-cases (server.routers_get w.history network_id (a ∷ r))) [
        | inl (_, e) ↦ inl (e, rw e at h, rw e refl)
        | inr (x, e) ↦ elim (Bool-cases (lib.is_not_found x)) [
          | inl gone ↦ inr (inl (x, e, gone, rw (e, gone) at h, rw (e, gone) refl))
          | inr kept ↦ let raised = rw (e, kept) at h in absurd (ground arith)
        ]
      ]

  module _ (flags : Flags) where
    -- The peers of `nr` are up as seen after the calls `h`, and belong to the group `id`.
    abbrev pub PeersUp : OwnerReference → NetworkRouter → List (Call NetworkRouter) → Str → Type 0
    PeersUp owner nr h id =
        (group : Group) × (key : SetupKey) × (ds : DaemonSetStatus) × (group.status.group_id ≡ id)
        × (server.kube_group (Call.apply (group_child owner nr) ∷ h) (child_ref nr) ≡ ok group)
        × (is_empty key.status.setup_key_id ≡ false)
        × (server.kube_setup_key
              (Call.apply (key_child owner nr)
                ∷ Call.kube_group (child_ref nr)
                ∷ Call.apply (group_child owner nr)
                ∷ h)
              (child_ref nr)
            ≡ ok key)
        × (server.kube_daemon_set
              (Call.apply (router_daemon_set flags owner nr key)
                ∷ Call.kube_setup_key (child_ref nr)
                ∷ Call.apply (key_child owner nr)
                ∷ Call.kube_group (child_ref nr)
                ∷ Call.apply (group_child owner nr)
                ∷ h)
              (child_ref nr)
            ≡ ok ds)
        × (ds.desired_number_scheduled ≢ 0)
        × (ds.number_ready ≡ ds.desired_number_scheduled)

    deploy_pods_up :
        (owner : OwnerReference) (nr : NetworkRouter) (id group_id : Str) (key : SetupKey)
        (w : World NetworkRouter)
        → is_empty id ≡ false
        → (deploy_pods server lib flags owner nr group_id key w).0 ≡ ok id
        → (ds : DaemonSetStatus) × (group_id ≡ id)
          × (server.kube_daemon_set
                (Call.apply (router_daemon_set flags owner nr key) ∷ w.history)
                (child_ref nr)
              ≡ ok ds)
          × (ds.desired_number_scheduled ≢ 0)
          × (ds.number_ready ≡ ds.desired_number_scheduled)
    unfolding pods_ready
    deploy_pods_up owner nr id group_id key w set h =
        elim (Result-cases (
          server.kube_daemon_set (Call.apply (router_daemon_set flags owner nr key) ∷ w.history)
            (child_ref nr))) [
              | inl (ds, e) ↦ (ds, ground arith, e, ground arith, ground arith)
              | inr (x, e) ↦ absurd (ground arith)
            ]

    deploy_key_up :
        (owner : OwnerReference) (nr : NetworkRouter) (id group_id : Str) (w : World NetworkRouter)
        → is_empty id ≡ false
        → (deploy_key server lib flags owner nr group_id w).0 ≡ ok id
        → (key : SetupKey) × (ds : DaemonSetStatus) × (group_id ≡ id)
          × (is_empty key.status.setup_key_id ≡ false)
          × (server.kube_setup_key (Call.apply (key_child owner nr) ∷ w.history) (child_ref nr)
              ≡ ok key)
          × (server.kube_daemon_set
                (Call.apply (router_daemon_set flags owner nr key)
                  ∷ Call.kube_setup_key (child_ref nr)
                  ∷ Call.apply (key_child owner nr)
                  ∷ w.history)
                (child_ref nr)
              ≡ ok ds)
          × (ds.desired_number_scheduled ≢ 0)
          × (ds.number_ready ≡ ds.desired_number_scheduled)
    deploy_key_up owner nr id group_id w set h =
        let applied = Call.apply (key_child owner nr) ∷ w.history in
        elim (Result-cases (server.kube_setup_key applied (child_ref nr))) [
          | inl (key, e) ↦
              let v = record w { history = Call.kube_setup_key (child_ref nr) ∷ applied } in
              let deployed : (deploy_pods server lib flags owner nr group_id key v).0 ≡ ok id =
                ground arith in
              let (ds, same, read, some_scheduled, all_ready) =
                deploy_pods_up owner nr id group_id key v set deployed in
              (key, ds, same, ground arith, e, read, some_scheduled, all_ready)
          | inr (x, e) ↦ absurd (ground arith)
        ]

    deploy_group_up :
        (owner : OwnerReference) (nr : NetworkRouter) (id : Str) (w : World NetworkRouter)
        → is_empty id ≡ false
        → (deploy_group server lib flags owner nr w).0 ≡ ok id
        → PeersUp owner nr w.history id
    deploy_group_up owner nr id w set h =
        let applied = Call.apply (group_child owner nr) ∷ w.history in
        elim (Result-cases (server.kube_group applied (child_ref nr))) [
          | inl (group, e) ↦
              let v = record w { history = Call.kube_group (child_ref nr) ∷ applied } in
              let deployed : (deploy_key server lib flags owner nr group.status.group_id v).0
                  ≡ ok id =
                ground arith in
              let (key, ds, same, known, read_key, read, some_scheduled, all_ready) =
                deploy_key_up owner nr id group.status.group_id v set deployed in
              (group, key, ds, same, e, known, read_key, read, some_scheduled, all_ready)
          | inr (x, e) ↦ absurd (ground arith)
        ]

    -- A peer group with an id is only handed out when the peers behind it are up: the Group and the
    -- SetupKey of the router, read after they were applied, have ids, and of the DaemonSet, read
    -- after it was applied, some pods are scheduled and all of those are ready.
    pub ensure_deployed_peers-PeersUp :
        (nr : NetworkRouter) (id : Str) (w : World NetworkRouter)
        → is_empty id ≡ false
        → (ensure_deployed_peers server lib flags nr w).0 ≡ ok id
        → (owner : OwnerReference) × (controller_reference lib nr.meta ≡ ok owner)
          × PeersUp owner nr w.history id
    unfolding ensure_deployed_peers
    ensure_deployed_peers-PeersUp nr id w set h =
        elim (Result-cases (controller_reference lib nr.meta)) [
          | inl (owner, e) ↦ (owner, e, deploy_group_up owner nr id w set (rw e at h))
          | inr (x, e) ↦ absurd (ground arith)
        ]

    -- The calls up to the read of the Group.
    abbrev pub read_group :
        OwnerReference → NetworkRouter → List (Call NetworkRouter) → List (Call NetworkRouter)
    read_group owner nr h = Call.kube_group (child_ref nr) ∷ Call.apply (group_child owner nr) ∷ h
