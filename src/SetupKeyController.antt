-- ===== src/SetupKeyController.antt =====
-- internal/controller/setupkey_controller.go, and the owner reference of internal/k8sutil/owner.go.
pub mod Laws
use Prim.Native.Nat.{◌/◌}
use netbird_operator.Prelude.Int.{ℤ, pos, negsuc, negated}
use netbird_operator.Prelude.{
  ℕ, ◌+◌, Bool, true, false, not, ◌||◌, Option, none, some, List, [], ◌∷◌, ◌++◌, Str, bytes,
  is_empty, str_eq, get_or, if◌then◌else◌, ltb, length, take,
}
use netbird_operator.Runtime.{Error, Result, ok, err, message}
use netbird_operator.Runtime.Exec.{Exec, pure, raise, modify, gets, attempt, continue, ◌>>=◌, ◌>>◌}
use netbird_operator.Api.{SetupKey, Meta, Object, Reference, reconciled}
use netbird_operator.Api.Requests.{
  KeyInfo, KeyState, valid, overused, SetupKeyRequest, OwnerReference,
}
use netbird_operator.Server.{Call, Server, Library, World, Child, ask, ignore_not_found}
use netbird_operator.Lookup.{get_group_ids}
use netbird_operator.Mirror.{
  Requeue, done, requeue_after, resync_interval, finalizer_name, set_finalizers, set_status, mark,
  patch, record_event,
}

-- `ControllerReference`
unfoldable pub controller_reference : Library → Meta → Result OwnerReference
controller_reference lib owner = elim lib.gvk [
  | err e ↦ err e
  | ok (api_version, kind) ↦ ok (record {
    api_version = api_version;
    kind = kind;
    name = owner.name;
    uid = owner.uid;
    controller = true;
    block_owner_deletion = true;
  })
]

-- `SetupKey.SecretName`; the Secret stands in the namespace of the request, which is the key's.
abbrev pub secret_name : SetupKey → Str
secret_name key = bytes "setup-key-" ++ key.meta.name

abbrev key_prefix_len : ℕ
key_prefix_len = 5

-- The stored key is not that of NetBird, as far as the prefixes tell.
unfoldable pub key_differs : Str → Str → Bool
key_differs key stored =
    ltb (length key) key_prefix_len
    || (ltb (length stored) key_prefix_len
        || not (str_eq (take key_prefix_len key) (take key_prefix_len stored)))

-- `int(Duration.Seconds())`: whole seconds, towards zero.
abbrev seconds : ℤ → ℤ
seconds (pos n) = pos (n / 1000000000)
seconds (negsuc n) = negated ((n + 1) / 1000000000)

-- `expiresIn`, which is 0 without a duration.
abbrev expiry : Option ℤ → ℤ
expiry none = pos 0
expiry (some duration) = seconds duration

abbrev pub key_request : SetupKey → List Str → SetupKeyRequest
key_request key groups = record {
  allow_extra_dns_labels = key.spec.allow_extra_dns_labels;
  auto_groups = groups;
  ephemeral = key.spec.ephemeral;
  expires_in = expiry key.spec.duration;
  name = key.spec.name;
  type = bytes "reusable";
  usage_limit = 0;
}

module _ (server : Server SetupKey) (lib : Library) where
  abbrev update_groups : Str → List Str → Exec (World SetupKey) Bool
  update_groups id groups = do
    ask (Call.keys_update id groups) (λ h. server.keys_update h id groups)
    pure true

  abbrev check_secret : Str → List Str → Str → Result Str → Exec (World SetupKey) Bool
  check_secret id groups key (err e) = if lib.kube_is_not_found e then pure false else raise e
  check_secret id groups key (ok stored) =
      if key_differs key stored then pure false else update_groups id groups

  abbrev read_secret : Str → List Str → Str → Exec (World SetupKey) Bool
  read_secret id groups key = do
    object ← gets (λ w. w.object)
    let ref : Reference = record { name = secret_name object; namespace = object.meta.namespace }
    stored ← attempt (ask (Call.kube_secret ref) (λ h. server.kube_secret h ref))
    check_secret id groups key stored

  abbrev refuse_overused : Exec (World SetupKey) Bool
  refuse_overused = do
    record_event (bytes "Setup key is overused; recreating")
    raise (message (bytes "setup key is overused"))

  abbrev check_state : Str → List Str → Str → KeyState → Exec (World SetupKey) Bool
  check_state id groups key KeyState.valid = read_secret id groups key
  check_state id groups key KeyState.overused = refuse_overused
  check_state id groups key KeyState.other = pure false

  abbrev check_found : Str → List Str → Result KeyInfo → Exec (World SetupKey) Bool
  check_found id groups (err e) = if lib.is_not_found e then pure false else raise e
  check_found id groups (ok info) = check_state id groups info.key info.state

  -- The function literal of `Reconcile` that checks that the recorded key is up to date.
  unfoldable pub up_to_date : Str → List Str → Exec (World SetupKey) Bool
  up_to_date [] groups = pure false
  up_to_date (a ∷ id) groups = do
    found ← attempt (ask (Call.keys_get (a ∷ id)) (λ h. server.keys_get h (a ∷ id)))
    check_found (a ∷ id) groups found

  abbrev ignore_gone : Result (Unit {0}) → Exec (World SetupKey) (Unit {0})
  ignore_gone (ok _) = pure tt
  ignore_gone (err e) = if lib.is_not_found e then pure tt else raise e

  -- Delete a key that may be gone already.
  abbrev pub delete_key : Str → Exec (World SetupKey) (Unit {0})
  delete_key [] = pure tt
  delete_key (a ∷ id) = do
    deleted ← attempt (ask (Call.keys_delete (a ∷ id)) (λ h. server.keys_delete h (a ∷ id)))
    ignore_gone deleted

  -- The end of `Reconcile`, from the id of the key that is replaced.
  abbrev pub finish_key : Str → Exec (World SetupKey) Requeue
  finish_key old = do
    delete_key old
    modify (mark reconciled)
    patch server true
    pure (requeue_after resync_interval)

  -- The part of `Reconcile` that makes a new key, in place of the recorded one.
  unfoldable pub recreate : OwnerReference → List Str → Exec (World SetupKey) Requeue
  recreate owner groups = do
    key ← gets (λ w. w.object)
    let req = key_request key groups
    info ← ask (Call.keys_create req) (λ h. server.keys_create h req)
    modify (set_status (λ s. record { setup_key_id = info.id }))
    patch server false
    let secret = Child.secret owner key.meta.namespace (secret_name key) info.key
    ask (Call.apply secret) (λ h. server.apply h secret)
    finish_key key.status.setup_key_id

  -- `Reconcile` on a key that is not being deleted.
  unfoldable pub reconcile_live : OwnerReference → Exec (World SetupKey) Requeue
  reconcile_live owner = do
    modify (set_finalizers (lib.add_finalizer (finalizer_name (bytes "setupkey"))))
    patch server false
    key ← gets (λ w. w.object)
    groups ← get_group_ids server key.spec.auto_groups key.meta.namespace
    current ← up_to_date key.status.setup_key_id groups
    if current then pure (requeue_after resync_interval) else recreate owner groups

  -- `reconcileDelete`
  unfoldable pub reconcile_delete : Exec (World SetupKey) Requeue
  reconcile_delete = do
    key ← gets (λ w. w.object)
    delete_key key.status.setup_key_id
    modify (set_finalizers (lib.remove_finalizer (finalizer_name (bytes "setupkey"))))
    patch server false
    pure done

  abbrev owned : Result OwnerReference → Exec (World SetupKey) Requeue
  owned (err e) w = raise e w
  owned (ok owner) w = if w.object.meta.deleting then reconcile_delete w else reconcile_live owner w

  abbrev load : Result SetupKey → Exec (World SetupKey) Requeue
  load (err e) = ignore_not_found lib e done
  load (ok obj) = do
    modify (λ w. record w { object = obj })
    owned (controller_reference lib obj.meta)

  -- `SetupKeyReconciler.Reconcile`
  unfoldable pub reconcile : Reference → Exec (World SetupKey) Requeue
  unfolding reconcile_live reconcile_delete controller_reference
  reconcile req = do found ← attempt (ask (Call.get req) (λ h. server.get h req)); load found
