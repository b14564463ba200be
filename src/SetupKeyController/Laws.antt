-- ===== src/SetupKeyController/Laws.antt =====
-- When a setup key is kept, and in what order a new one replaces it.
use netbird_operator.Prelude.{
  ◌≡◌, inl, inr, refl, ap, Bool, true, false, List, [], ◌∷◌, ◌++◌, Str, arith,
}
use netbird_operator.Runtime.{ok, Result-cases}
use netbird_operator.Api.{SetupKey, Reference, reconciled}
use netbird_operator.Api.Requests.{KeyInfo, KeyState, OwnerReference}
use netbird_operator.Server.{Call, Server, Library, World, Child}
use netbird_operator.Mirror.{Requeue, set_status}
use netbird_operator.SetupKeyController.{
  up_to_date, recreate, delete_key, finish_key, key_differs, key_request, secret_name, check_state,
}

module _ (server : Server SetupKey) (lib : Library) where
  abbrev secret_ref : World SetupKey → Reference
  secret_ref w = record { name = secret_name w.object; namespace = w.object.meta.namespace }

  -- The evidence on which a recorded key is kept.
  abbrev pub IsCurrent : Str → List Str → World SetupKey → Type 0
  IsCurrent id groups w =
      (info : KeyInfo) × (stored : Str) × (server.keys_get w.history id ≡ ok info)
      × (info.state ≡ KeyState.valid)
      × (server.kube_secret (Call.keys_get id ∷ w.history) (secret_ref w) ≡ ok stored)
      × (key_differs info.key stored ≡ false)

  current_at :
      (id : Str) (groups : List Str) (w : World SetupKey) (info : KeyInfo) (state : KeyState)
      (v : World SetupKey)
      → (check_state server lib id groups info.key state v).0 ≡ ok true
      → (stored : Str) × (state ≡ KeyState.valid)
        × (server.kube_secret v.history (secret_ref v) ≡ ok stored)
        × (key_differs info.key stored ≡ false)
  current_at id groups w info KeyState.valid v h =
      elim (Result-cases (server.kube_secret v.history (secret_ref v))) [
        | inl (stored, e) ↦ (stored, refl, e, ground arith)
        | inr (x, e) ↦ absurd (ground arith)
      ]
  current_at id groups w info KeyState.overused v h = cc
  current_at id groups w info KeyState.other v h = cc

  -- A key is kept only if NetBird has it in the state valid and the stored Secret agrees with it in
  -- the first five bytes.
  pub up_to_date-IsCurrent :
      (id : Str) (groups : List Str) (w : World SetupKey)
      → (up_to_date server lib id groups w).0 ≡ ok true
      → IsCurrent id groups w
  unfolding up_to_date
  up_to_date-IsCurrent [] groups w h = cc
  up_to_date-IsCurrent (a ∷ id) groups w h =
      elim (Result-cases (server.keys_get w.history (a ∷ id))) [
        | inl (info, e) ↦
            let v = record w { history = Call.keys_get (a ∷ id) ∷ w.history } in
            let (stored, valid, read, same) =
              current_at (a ∷ id) groups w info info.state v (rw e at h) in
            (info, stored, e, valid, read, same)
        | inr (x, e) ↦ absurd (ground arith)
      ]

  -- A call that makes, changes or deletes a setup key, or that writes a child such as its Secret.
  abbrev pub is_key_write : Call SetupKey → Bool
  is_key_write (Call.keys_create req) = true
  is_key_write (Call.keys_update id groups) = true
  is_key_write (Call.keys_delete id) = true
  is_key_write (Call.apply child) = true
  is_key_write _ = false

  -- The key with this id is there and overused, whenever NetBird is asked for it.
  abbrev IsOverused : Str → Type 0
  IsOverused id =
      (h : List (Call SetupKey))
      → (info : KeyInfo) × (server.keys_get h id ≡ ok info) × (info.state ≡ KeyState.overused)

  -- The delete of the key that is replaced, if there was one.
  abbrev pub removal : Str → List (Call SetupKey)
  removal [] = []
  removal (a ∷ id) = Call.keys_delete (a ∷ id) ∷ []

  delete_key_done :
      (old : Str) (v : World SetupKey)
      → (delete_key server lib old v).0 ≡ ok tt
      → (delete_key server lib old v).1 ≡ record v { history = removal old ++ v.history }
  delete_key_done [] v h = refl
  delete_key_done (a ∷ id) v h = ground arith

  finish_key_done :
      (old : Str) (v : World SetupKey) (q : Requeue)
      → (finish_key server lib old v).0 ≡ ok q
      → let end = (finish_key server lib old v).1 in
        (end.object ≡ record v.object { ready = reconciled })
        × (end.history ≡ Call.patch true end.object ∷ (removal old ++ v.history))
  finish_key_done [] v q h = ground arith
  finish_key_done (a ∷ id) v q h = ground arith

  -- Where `recreate` returns, the API made a new key from the spec, the status records its id and is
  -- Ready, and the calls were, in this order: the new key is created and its id written, then its
  -- Secret is applied, and only then is the key it replaces deleted, if there was one.
  pub recreate_order :
      (owner : OwnerReference) (groups : List Str) (w : World SetupKey) (q : Requeue)
      → (recreate server lib owner groups w).0 ≡ ok q
      → let end = (recreate server lib owner groups w).1 in
        (info : KeyInfo) × (server.keys_create w.history (key_request w.object groups) ≡ ok info)
        × (end.object.status.setup_key_id ≡ info.id)
        × (end.object.ready ≡ reconciled)
        × (end.history
            ≡ Call.patch true end.object
              ∷ (removal w.object.status.setup_key_id
                  ++ (Call.apply
                        (Child.secret owner w.object.meta.namespace (secret_name w.object) info.key)
                      ∷ Call.patch false
                          (set_status (λ s. record { setup_key_id = info.id }) w).object
                      ∷ Call.keys_create (key_request w.object groups)
                      ∷ w.history)))
  unfolding recreate
  recreate_order owner groups w q h =
      elim (Result-cases (server.keys_create w.history (key_request w.object groups))) [
        | inl (info, e) ↦
            let created = Call.keys_create (key_request w.object groups) in
            let v = set_status (λ s. record { setup_key_id = info.id }) w in
            let recorded = Call.patch false v.object ∷ created ∷ w.history in
            let secret =
              Child.secret owner w.object.meta.namespace (secret_name w.object) info.key in
            let next = record v { history = Call.apply secret ∷ recorded } in
            elim (Result-cases (server.patch (created ∷ w.history) false v.object)) [
              | inl (_, p) ↦ elim (Result-cases (server.apply recorded secret)) [
                | inl (_, a) ↦
                    let (object, calls) =
                      finish_key_done w.object.status.setup_key_id next q (rw (e, p, a) at h) in
                    rw (e, p, a)
                      (
                        info,
                        refl,
                        ap (λ o. o.status.setup_key_id) object,
                        ap (λ o. o.ready) object,
                        calls,
                      )
                | inr (_, a) ↦ absurd (ground arith)
              ]
              | inr (_, p) ↦ absurd (ground arith)
            ]
        | inr (x, e) ↦ absurd (ground arith)
      ]
