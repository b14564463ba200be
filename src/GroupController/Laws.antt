-- ===== src/GroupController/Laws.antt =====
-- Updates, re-creation and deletion of groups (internal/controller/group_controller.go).
use netbird_operator.Prelude.{
  arith, ◌≡◌, ◌∙◌, ◌⊎◌, inl, inr, refl, true, false, List, [], ◌∷◌, Str, is_empty, some, none,
  Bool-cases,
}
use netbird_operator.Runtime.{Error, Result-cases, ok, err, is_conflict}
use netbird_operator.Api.{Group}
use netbird_operator.Api.Requests.{GroupInfo, GroupRequest}
use netbird_operator.Server.{Call, Server, Library, World}
use netbird_operator.Mirror.{requeue_after, cleanup_retry}
use netbird_operator.GroupController.{ensure_group, delete_at, reconcile_delete}

-- A request with the members of a group.
abbrev with_members : Str → GroupInfo → GroupRequest
with_members name info = record {
  name = name;
  peers = some info.peers;
  resources = some info.resources;
}

module _ (server : Server Group) (lib : Library) where
  -- An update went through: it sent the name with the peers and the resources of the group as it was
  -- read just before.
  abbrev pub Updated : Str → Str → Str → World Group → World Group → Type 0
  Updated name id new_id w v =
      let h = Call.groups_get id ∷ w.history in
      (info : GroupInfo) × (server.groups_get w.history id ≡ ok info)
      × (server.groups_update h id (with_members name info) ≡ ok new_id)
      × (v ≡ record w { history = Call.groups_update id (with_members name info) ∷ h })

  -- There was nothing to update: no id is recorded, or the read or the update did not find the group.
  abbrev Missing : Str → Str → World Group → List (Call Group) → Type 0
  Missing name id w h =
      ((is_empty id ≡ true) × (h ≡ w.history))
      ⊎ ((e : Error) × (lib.is_not_found e ≡ true)
          × (((server.groups_get w.history id ≡ err e) × (h ≡ Call.groups_get id ∷ w.history))
              ⊎ ((info : GroupInfo) × (server.groups_get w.history id ≡ ok info)
                  × (server.groups_update (Call.groups_get id ∷ w.history) id
                        (with_members name info)
                      ≡ err e)
                  × (h
                      ≡ Call.groups_update id (with_members name info)
                        ∷ Call.groups_get id
                        ∷ w.history))))

  -- A group without members was created, behind a history that shows that there was none.
  abbrev pub Created : Str → Str → Str → World Group → World Group → Type 0
  Created name id new_id w v =
      let req : GroupRequest = record { name = name; peers = none; resources = none } in
      (h : List (Call Group)) × Missing name id w h
      × (server.groups_create h req ≡ ok new_id)
      × (v ≡ record w { history = Call.groups_create req ∷ h })

  -- Where a group is ensured, whatever is answered: either it was updated with the name of the spec
  -- and the very peers and resources that were read just before, and was not created anew, or it was
  -- created without members, which happens only when no id is recorded or NetBird lacks the group.
  pub ensure_group-cases :
      (name id new_id : Str) (w : World Group)
      → let m = ensure_group server lib name id w in
        m.0 ≡ ok new_id → Updated name id new_id w m.1 ⊎ Created name id new_id w m.1
  unfolding ensure_group
  ensure_group-cases name [] new_id w h = inr (w.history, inl (refl, refl), h, refl)
  ensure_group-cases name (a ∷ id) new_id w h =
      let read = Call.groups_get (a ∷ id) ∷ w.history in
      elim (Result-cases (server.groups_get w.history (a ∷ id))) [
        | inr (x, e) ↦ elim (Bool-cases (lib.is_not_found x)) [
          | inr failed ↦ let failing = rw (e, failed) at h in absurd (ground arith)
          | inl gone ↦
              rw (e, gone) (inr (read, inr (x, gone, inl (refl, refl)), rw (e, gone) at h, refl))
        ]
        | inl (info, e) ↦
            let req = with_members name info in
            elim (Result-cases (server.groups_update read (a ∷ id) req)) [
              | inl (new, f) ↦
                  let same = rw (e, f) at h in rw (e, f) (inl (info, refl, f ∙ same, refl))
              | inr (x, f) ↦ elim (Bool-cases (lib.is_not_found x)) [
                | inr failed ↦ let failing = rw (e, f, failed) at h in absurd (ground arith)
                | inl gone ↦
                    rw (e, f, gone)
                      (inr (
                        Call.groups_update (a ∷ id) req ∷ read,
                        inr (x, gone, inr (info, refl, f, refl)),
                        rw (e, f, gone) at h,
                        refl,
                      ))
              ]
            ]
      ]

  retried_at :
      (id : Str) (w : World Group) (e : Error)
      → is_empty id ≡ false
      → server.groups_delete w.history id ≡ err e
      → lib.is_not_found e ≡ false
      → is_conflict e ≡ true
      → let end = delete_at server lib id w in
        (end.0 ≡ ok (requeue_after cleanup_retry)) × (end.1.object ≡ w.object)
  retried_at [] w e set failed found conflict = cc
  retried_at (a ∷ id) w e set failed found conflict = rw (failed, found, conflict) (refl, refl)

  -- While NetBird refuses the delete because the group is in use, the group keeps its finalizer and
  -- the delete is tried again after a minute.
  reconcile_delete_retries :
      (w : World Group) (e : Error)
      → is_empty w.object.status.group_id ≡ false
      → server.groups_delete w.history w.object.status.group_id ≡ err e
      → lib.is_not_found e ≡ false
      → is_conflict e ≡ true
      → let end = reconcile_delete server lib w in
        (end.0 ≡ ok (requeue_after cleanup_retry)) × (end.1.object ≡ w.object)
  unfolding reconcile_delete
  reconcile_delete_retries w = retried_at w.object.status.group_id w
