-- ===== src/Mirror/Network/Lifecycle.antt =====
-- The runs of the reconciler of Networks (mirror.go with network_mirror.go), over any sequence of
-- calls of `Reconcile` and any answers.
use netbird_operator.Prelude.{
  arith, ◌≡◌, inl, inr, Bool, true, false, ◌&&◌, ◌||◌, List, [], ◌∷◌, Str, bytes, is_empty, str_eq,
  str_eq_refl, Bool-cases, if◌then◌else◌,
}
use netbird_operator.Runtime.{is_ok, Result, Result-cases, ok, err, is_dependency, is_conflict}
use netbird_operator.Api.{Network, Reference}
use netbird_operator.Api.Requests.{NetworkRequest}
use netbird_operator.Gateway.Collect.{mem}
use netbird_operator.Server.{Call, Server, Library, World, ignore_not_found}
use netbird_operator.Mirror.{
  Requeue, finalizer_name, mark, set_finalizers, finish_apply, error_text, finalize, reconcile,
  reconcile_live, reconcile_delete, reconcile_loaded,
}
use netbird_operator.Mirror.Ids.{verify_netbird_id}
use netbird_operator.Mirror.Laws.{KeepsFinalizers, started}
use netbird_operator.Mirror.Network.{
  apply_network, apply_network_at, delete_network, network_mirror, network_request,
}
use netbird_operator.Api.{reconciled, dependency}

-- The object carries the finalizer of Networks.
abbrev is_held : Network → Bool
is_held o = mem (finalizer_name (bytes "network")) o.meta.finalizers

module _ (server : Server Network) (lib : Library) where
  -- The object carried the finalizer when a send of it was last accepted.
  unfoldable is_protected : List (Call Network) → Bool
  is_protected [] = false
  is_protected (Call.patch b o ∷ h) =
      let rest = is_protected h in if is_ok (server.patch h b o) then is_held o else rest
  is_protected (_ ∷ h) = is_protected h

  abbrev is_gone : Result (Unit {0}) → Bool
  is_gone (ok _) = true
  is_gone (err e) = lib.is_not_found e

  -- The last call deleted the network, or found it gone.
  unfoldable is_deleted : Str → List (Call Network) → Bool
  is_deleted id (Call.networks_delete d ∷ h) = str_eq id d && is_gone (server.networks_delete h d)
  is_deleted id _ = false

  -- Each creation of a network is behind a send that left the finalizer on the object, and each send
  -- without it is of an object that records no network, or comes right after the recorded one is gone.
  unfoldable pub is_safe : List (Call Network) → Bool
  unfolding is_protected is_deleted
  is_safe [] = true
  is_safe (Call.patch b o ∷ h) =
      let id = o.status.network_id in (is_held o || (is_empty id || is_deleted id h)) && is_safe h
  is_safe (Call.networks_create req ∷ h) = is_protected h && is_safe h
  is_safe (_ ∷ h) = is_safe h

  -- A run: any number of calls of `Reconcile`, each of which reads the object anew.
  pub data Reach (w : World Network) : World Network → Type 0 where
    start : Reach w w
    pass :
        {v : World Network}
        → Reach w v
        → (req : Reference) → Reach w (reconcile server lib (network_mirror server lib) req v).1

  apply_at_safe :
      (id : Str) (req : NetworkRequest) (w : World Network)
      → is_held w.object ≡ true
      → is_protected w.history ≡ true
      → is_safe w.history ≡ true
      → let end = (apply_network_at server lib id req w).1 in
        (is_held end.object ≡ true) × (is_safe end.history ≡ true)
  unfolding verify_netbird_id is_safe is_protected
  apply_at_safe [] req w held kept safe = ground arith
  apply_at_safe (c ∷ id) req w held kept safe = ground arith

  finish_safe :
      (r : Result (Unit {0})) (w : World Network)
      → is_held w.object ≡ true
      → is_safe w.history ≡ true
      → is_safe (finish_apply server lib (network_mirror server lib) r w).1.history ≡ true
  unfolding is_safe
  finish_safe (ok _) w held safe =
      elim (Result-cases (server.patch w.history true (mark reconciled w).object)) [
        | inl (_, e) ↦ rw e (ground arith)
        | inr (x, e) ↦ rw e (ground arith)
      ]
  finish_safe (err x) w held safe = elim (Bool-cases (is_dependency x)) [
    | inr raised ↦ rw raised safe
    | inl waits ↦
        elim (Result-cases
          (server.patch w.history false (mark (dependency (error_text x)) w).object)) [
            | inl (_, e) ↦ rw (waits, e) (ground arith)
            | inr (y, e) ↦ rw (waits, e) (ground arith)
          ]
  ]

  live_safe :
      KeepsFinalizers lib
      → (w : World Network) → is_safe w.history ≡ true
      → is_safe (reconcile_live server lib (network_mirror server lib) w).1.history ≡ true
  unfolding is_safe reconcile_live is_protected apply_network
  live_safe keeps w safe =
      let v = started server lib (network_mirror server lib) w in
      let held = keeps.added (finalizer_name (bytes "network")) w.object.meta.finalizers in
      elim (Result-cases (server.patch w.history false v.object)) [
        | inr (x, e) ↦ rw e (ground arith)
        | inl (_, e) ↦
            let kept : is_protected v.history ≡ true = rw (e, is_protected) held in
            let (still, good) =
              apply_at_safe v.object.status.network_id (network_request v.object) v held kept
                (ground arith) in
            let end = apply_network server lib v in rw e (finish_safe end.0 end.1 still good)
      ]

  finalize_safe :
      (w : World Network)
      → (is_empty w.object.status.network_id || is_deleted w.object.status.network_id w.history)
        ≡ true
      → is_safe w.history ≡ true
      → is_safe (finalize server lib (network_mirror server lib) w).1.history ≡ true
  unfolding is_safe
  finalize_safe w left safe =
      let v = set_finalizers (lib.remove_finalizer (finalizer_name (bytes "network"))) w in
      elim (Result-cases (server.patch w.history false v.object)) [
        | inl (_, e) ↦ rw e (ground arith)
        | inr (x, e) ↦ rw e (ground arith)
      ]

  delete_safe :
      (w : World Network)
      → is_safe w.history ≡ true
      → is_safe (reconcile_delete server lib (network_mirror server lib) w).1.history ≡ true
  unfolding is_safe reconcile_delete delete_network is_deleted
  delete_safe w safe =
      let id = w.object.status.network_id in
      let v = record w { history = Call.networks_delete id ∷ w.history } in
      elim (Bool-cases (is_empty id)) [
        | inl none ↦ rw none (finalize_safe w (ground arith) safe)
        | inr there ↦ elim (Result-cases (server.networks_delete w.history id)) [
          | inl (_, e) ↦ rw (there, e) (finalize_safe v (ground (arith, str_eq_refl id)) safe)
          | inr (x, e) ↦ elim (Bool-cases (lib.is_not_found x)) [
            | inl gone ↦ rw (there, e, gone) (finalize_safe v (ground (arith, str_eq_refl id)) safe)
            | inr found ↦ elim (Bool-cases (is_conflict x)) [
              | inl used ↦ rw (there, e, found, used) safe
              | inr failed ↦ rw (there, e, found, failed) safe
            ]
          ]
        ]
      ]

  either_safe :
      (b : Bool) (m n : Result Requeue × World Network)
      → is_safe m.1.history ≡ true
      → is_safe n.1.history ≡ true
      → is_safe (if b then m else n).1.history ≡ true
  either_safe true m n e f = e
  either_safe false m n e f = f

  loaded_safe :
      KeepsFinalizers lib
      → (w : World Network) → is_safe w.history ≡ true
      → is_safe (reconcile_loaded server lib (network_mirror server lib) w).1.history ≡ true
  unfolding reconcile_loaded
  loaded_safe keeps w safe =
      either_safe w.object.meta.deleting _ _ (delete_safe w safe) (live_safe keeps w safe)

  pass_safe :
      KeepsFinalizers lib
      → (req : Reference) (w : World Network) → is_safe w.history ≡ true
      → is_safe (reconcile server lib (network_mirror server lib) req w).1.history ≡ true
  unfolding reconcile is_safe
  pass_safe keeps req w safe = elim (Result-cases (server.get w.history req)) [
    | inl (o, e) ↦
        rw e (loaded_safe keeps (record w { object = o; history = Call.get req ∷ w.history }) safe)
    | inr (x, e) ↦ elim (Bool-cases (lib.kube_is_not_found x)) [
      | inl missing ↦ rw (e, missing, ignore_not_found) safe
      | inr failed ↦ rw (e, failed, ignore_not_found) safe
    ]
  ]

  -- In every run from a safe history, whatever is answered and whichever calls fail: a network is
  -- created only when the last accepted send of the object left the finalizer on it, and the object is
  -- sent without the finalizer only when it records no network, or right after a delete of the
  -- recorded one that succeeded or found it gone.
  pub Reach-is_safe :
      KeepsFinalizers lib
      → (w v : World Network) → is_safe w.history ≡ true
      → Reach w v
      → is_safe v.history ≡ true
  Reach-is_safe keeps w v safe start = safe
  Reach-is_safe keeps w v safe (pass r req) = pass_safe keeps req _ (Reach-is_safe keeps w _ safe r)
