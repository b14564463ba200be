-- ===== src/GroupController.antt =====
-- internal/controller/group_controller.go
pub mod Laws
use netbird_operator.Prelude.{
  Bool, true, false, Option, none, some, List, [], ◌∷◌, ◌++◌, Str, bytes, is_empty, if◌then◌else◌,
}
use netbird_operator.Runtime.{Error, Result, ok, err, is_conflict}
use netbird_operator.Runtime.Exec.{Exec, pure, raise, modify, gets, attempt, continue, ◌>>=◌, ◌>>◌}
use netbird_operator.Api.{Group, Reference, reconciled}
use netbird_operator.Api.Requests.{GroupInfo, GroupRequest}
use netbird_operator.Server.{Call, Server, Library, World, ask, ignore_not_found}
use netbird_operator.Mirror.{
  Requeue, done, requeue_after, resync_interval, cleanup_retry, finalizer_name, set_finalizers,
  set_status, mark, patch, record_event,
}

module _ (server : Server Group) (lib : Library) where
  abbrev create_group : Str → Exec (World Group) Str
  create_group name =
      let req : GroupRequest = record { name = name; peers = none; resources = none } in
      ask (Call.groups_create req) (λ h. server.groups_create h req)

  abbrev after_update : Str → Result Str → Exec (World Group) Str
  after_update name (ok id) = pure id
  after_update name (err e) = if lib.is_not_found e then create_group name else raise e

  -- The update sends the members that were just read back.
  abbrev member_request : Str → GroupInfo → GroupRequest
  member_request name info = record {
    name = name;
    peers = some info.peers;
    resources = some info.resources;
  }

  abbrev after_get : Str → Str → Result GroupInfo → Exec (World Group) Str
  after_get name id (err e) = if lib.is_not_found e then create_group name else raise e
  after_get name id (ok info) = do
    let req = member_request name info
    updated ← attempt (ask (Call.groups_update id req) (λ h. server.groups_update h id req))
    after_update name updated

  -- The function literal of `Reconcile` that returns the group's id.
  unfoldable pub ensure_group : Str → Str → Exec (World Group) Str
  ensure_group name [] = create_group name
  ensure_group name (a ∷ id) = do
    found ← attempt (ask (Call.groups_get (a ∷ id)) (λ h. server.groups_get h (a ∷ id)))
    after_get name (a ∷ id) found

  -- `Reconcile` on a group that is not being deleted.
  unfoldable pub reconcile_live : Exec (World Group) Requeue
  reconcile_live = do
    modify (set_finalizers (lib.add_finalizer (finalizer_name (bytes "group"))))
    patch server false
    group ← gets (λ w. w.object)
    id ← ensure_group group.spec.name group.status.group_id
    modify (set_status (λ s. record { group_id = id }))
    modify (mark reconciled)
    patch server true
    pure (requeue_after resync_interval)

  abbrev pub finalize : Exec (World Group) Requeue
  finalize = do
    modify (set_finalizers (lib.remove_finalizer (finalizer_name (bytes "group"))))
    patch server false
    pure done

  abbrev retry_delete : Str → Exec (World Group) Requeue
  retry_delete id = do
    record_event (bytes "NetBird group " ++ (id ++ bytes " still in use; retrying deletion"))
    pure (requeue_after cleanup_retry)

  abbrev after_delete : Str → Result (Unit {0}) → Exec (World Group) Requeue
  after_delete id (ok _) = finalize
  after_delete id (err e) =
      if lib.is_not_found e then finalize else if is_conflict e then retry_delete id else raise e

  -- `reconcileDelete`, from the recorded id.
  abbrev pub delete_at : Str → Exec (World Group) Requeue
  delete_at [] = finalize
  delete_at (a ∷ id) = do
    deleted ← attempt (ask (Call.groups_delete (a ∷ id)) (λ h. server.groups_delete h (a ∷ id)))
    after_delete (a ∷ id) deleted

  unfoldable pub reconcile_delete : Exec (World Group) Requeue
  reconcile_delete w = delete_at w.object.status.group_id w

  unfoldable pub reconcile_loaded : Exec (World Group) Requeue
  unfolding reconcile_live reconcile_delete
  reconcile_loaded w = if w.object.meta.deleting then reconcile_delete w else reconcile_live w

  abbrev load : Result Group → Exec (World Group) Requeue
  load (err e) = ignore_not_found lib e done
  load (ok obj) = do modify (λ w. record w { object = obj }); reconcile_loaded

  -- `GroupReconciler.Reconcile`
  unfoldable pub reconcile : Reference → Exec (World Group) Requeue
  unfolding reconcile_loaded
  reconcile req = do found ← attempt (ask (Call.get req) (λ h. server.get h req)); load found
