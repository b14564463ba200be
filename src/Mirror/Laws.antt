-- ===== src/Mirror/Laws.antt =====
-- Finalizers, conditions and requeues of the shared reconciler (internal/controller/mirror.go).
use netbird_operator.Prelude.{
  ◌≡◌, ◌⊎◌, inl, inr, refl, Bool, true, false, List, ◌∷◌, Str, arith, Bool-cases,
}
use netbird_operator.Runtime.{Error, Result, ok, err, is_dependency, is_conflict, Result-cases}
use netbird_operator.Api.{Object, reconciled, dependency}
use netbird_operator.Server.{Call, Server, Library, World}
use netbird_operator.Gateway.Collect.{mem}
use netbird_operator.Mirror.{
  Requeue, done, requeue_after, resync_interval, dependency_retry, cleanup_retry, finalizer_name,
  Mirror, set_finalizers, mark, finish_apply, reconcile_live, after_delete, finalize, in_use,
  reconcile_delete, error_text,
}

-- What `controllerutil` documents of its two functions on finalizers.
pub record KeepsFinalizers (lib : Library) : Type 0 where
  pub added : (f : Str) (fs : List Str) → mem f (lib.add_finalizer f fs) ≡ true
  pub removed : (f : Str) (fs : List Str) → mem f (lib.remove_finalizer f fs) ≡ false

module _ {S T : Type 0} (server : Server (Object S T)) (lib : Library) (m : Mirror S T) where
  -- The world in which `apply` starts: the finalizer is set and sent.
  abbrev pub started : World (Object S T) → World (Object S T)
  started w =
      let marked = set_finalizers (lib.add_finalizer (finalizer_name m.finalizer)) w in
      record marked { history = Call.patch false marked.object ∷ w.history }

  -- How a reconcile that reports success left the object, from what `apply` returned and the world
  -- that it left: as it was sent last, Ready if `apply` succeeded, waiting if a dependency misses.
  abbrev pub Outcome :
      Result (Unit {0}) → World (Object S T) → Requeue → World (Object S T) → Type 0
  Outcome applied v q end =
      ((q ≡ requeue_after resync_interval)
        × (applied ≡ ok tt)
        × (end.object.ready ≡ reconciled)
        × (end.history ≡ Call.patch true end.object ∷ v.history))
      ⊎ ((e : Error) × (q ≡ requeue_after dependency_retry)
          × (applied ≡ err e)
          × (is_dependency e ≡ true)
          × (end.object.ready ≡ dependency (error_text e))
          × (end.history ≡ Call.patch false end.object ∷ v.history))

  finish_apply-Outcome :
      (r : Result (Unit {0})) (v : World (Object S T)) (q : Requeue)
      → (finish_apply server lib m r v).0 ≡ ok q
      → Outcome r v q (finish_apply server lib m r v).1
  finish_apply-Outcome (ok tt) v q h =
      elim (Result-cases (server.patch v.history true (mark reconciled v).object)) [
        | inl (_, e) ↦ rw e (inl (ground arith, refl, refl, refl))
        | inr (x, e) ↦ absurd (ground arith)
      ]
  finish_apply-Outcome (err x) v q h = elim (Bool-cases (is_dependency x)) [
    | inl d ↦
        elim (Result-cases
          (server.patch v.history false (mark (dependency (error_text x)) v).object)) [
            | inl (_, e) ↦ rw (d, e) (inr (x, ground arith, refl, d, refl, refl))
            | inr (y, e) ↦ absurd (ground arith)
          ]
    | inr n ↦ absurd (ground arith)
  ]

  -- A successful first send hands over to `apply`.
  reconcile_live-started :
      (w : World (Object S T))
      → server.patch w.history false (started w).object ≡ ok tt
      → reconcile_live server lib m w
        ≡ finish_apply server lib m (m.apply (started w)).0 (m.apply (started w)).1
  unfolding reconcile_live
  reconcile_live-started w sent = rw sent

  -- If the send of the object with its finalizer fails, that is the only call made: `apply` does
  -- not run, and the error is returned.
  reconcile_live_guarded :
      (w : World (Object S T)) (e : Error)
      → KeepsFinalizers lib
      → server.patch w.history false (started w).object ≡ err e
      → (mem (finalizer_name m.finalizer) (started w).object.meta.finalizers ≡ true)
        × (reconcile_live server lib m w ≡ (err e, started w))
  unfolding reconcile_live
  reconcile_live_guarded w e keeps failed =
      (keeps.added (finalizer_name m.finalizer) w.object.meta.finalizers, rw failed)

  -- A reconcile of a live object that reports success ended in one of the two outcomes.
  pub reconcile_live-Outcome :
      (w : World (Object S T)) (q : Requeue)
      → (reconcile_live server lib m w).0 ≡ ok q
      → Outcome (m.apply (started w)).0 (m.apply (started w)).1 q (reconcile_live server lib m w).1
  unfolding reconcile_live
  reconcile_live-Outcome w q h =
      elim (Result-cases (server.patch w.history false (started w).object)) [
        | inl (_, sent) ↦ rw (reconcile_live-started w sent) (
            finish_apply-Outcome (m.apply (started w)).0 (m.apply (started w)).1 q
              (rw (reconcile_live-started w sent) at h))
        | inr (e, failed) ↦ absurd (ground arith)
      ]

  -- Whether an error of the delete counts as success.
  abbrev pub gone : Result (Unit {0}) → Bool
  gone (ok _) = true
  gone (err e) = lib.is_not_found e

  abbrev unfinalized : World (Object S T) → World (Object S T)
  unfinalized = set_finalizers (lib.remove_finalizer (finalizer_name m.finalizer))

  -- The object sent last is the object, with only its finalizer removed.
  abbrev Released : World (Object S T) → World (Object S T) → Type 0
  Released v end =
      (mem (finalizer_name m.finalizer) end.object.meta.finalizers ≡ false)
      × (end.object ≡ (unfinalized v).object)
      × (end.history ≡ Call.patch false end.object ∷ v.history)

  finalize-Released :
      (v : World (Object S T)) → KeepsFinalizers lib → Released v (finalize server lib m v).1
  finalize-Released v keeps =
      elim (Result-cases (server.patch v.history false (unfinalized v).object)) [
        | inl (_, e) ↦
            rw e (keeps.removed (finalizer_name m.finalizer) v.object.meta.finalizers, refl, refl)
        | inr (x, e) ↦
            rw e (keeps.removed (finalizer_name m.finalizer) v.object.meta.finalizers, refl, refl)
      ]

  -- What the send of the object without its finalizer makes of the result.
  abbrev pub sent : Result (Unit {0}) → Result Requeue
  sent (ok _) = ok done
  sent (err e) = err e

  -- The object is as it was and is not sent; it is tried again after a minute while it is in use, and
  -- the error is returned otherwise.
  abbrev Kept : Error → World (Object S T) → Result Requeue × World (Object S T) → Type 0
  Kept e v end =
      (end.1.object ≡ v.object)
      × (((is_conflict e ≡ true)
            × (end.0 ≡ ok (requeue_after cleanup_retry))
            × (end.1.history ≡ Call.event (in_use server lib m) ∷ v.history))
          ⊎ ((is_conflict e ≡ false) × (end.0 ≡ err e) × (end.1.history ≡ v.history)))

  -- How a delete ends, from what `del` returned and the world that it left.
  abbrev pub Ended :
      Result (Unit {0}) → World (Object S T) → Result Requeue × World (Object S T) → Type 0
  Ended r v end =
      ((gone r ≡ true)
        × Released v end.1
        × (end.0 ≡ sent (server.patch v.history false end.1.object)))
      ⊎ ((e : Error) × (r ≡ err e) × (lib.is_not_found e ≡ false) × Kept e v end)

  finalize-sent :
      (v : World (Object S T))
      → let end = finalize server lib m v in
        end.0 ≡ sent (server.patch v.history false end.1.object)
  finalize-sent v = elim (Result-cases (server.patch v.history false (unfinalized v).object)) [
    | inl (_, e) ↦ rw (e, e) refl
    | inr (x, e) ↦ rw (e, e) refl
  ]

  after_delete-Ended :
      (r : Result (Unit {0})) (v : World (Object S T))
      → KeepsFinalizers lib
      → Ended r v (after_delete server lib m r v)
  after_delete-Ended (ok _) v keeps = inl (refl, finalize-Released v keeps, finalize-sent v)
  after_delete-Ended (err e) v keeps = elim (Bool-cases (lib.is_not_found e)) [
    | inl lost ↦ rw lost (inl (refl, finalize-Released v keeps, finalize-sent v))
    | inr there ↦ elim (Bool-cases (is_conflict e)) [
      | inl used ↦ rw (there, used) (inr (e, refl, there, (refl, inl (used, refl, refl))))
      | inr failed ↦ rw (there, failed) (inr (e, refl, there, (refl, inr (failed, refl, refl))))
    ]
  ]

  -- Every delete ends in one of two ways, whatever is answered. Either the NetBird object is gone,
  -- deleted now or found missing: the object is sent last with only the finalizer removed, and the
  -- delete is done when that send is accepted and returns its error otherwise. Or the NetBird object
  -- may still be there: the object stays as the delete left it and is not sent, and it is tried again
  -- after a minute if it is in use, while the error is returned otherwise.
  pub reconcile_delete-Ended :
      (w : World (Object S T))
      → KeepsFinalizers lib
      → Ended (m.del w).0 (m.del w).1 (reconcile_delete server lib m w)
  unfolding reconcile_delete
  reconcile_delete-Ended w keeps = after_delete-Ended (m.del w).0 (m.del w).1 keeps
