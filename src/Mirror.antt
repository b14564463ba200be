-- ===== src/Mirror.antt =====
-- internal/controller/mirror.go: the reconciler that all NetBird-mirror kinds share.
pub mod Ids
pub mod Laws
pub mod Network
pub mod NetworkResource
pub mod DnsZone
pub mod DnsRecord
use netbird_operator.Prelude.{
  ℕ, Bool, true, false, not, Option, none, some, List, [], ◌∷◌, ◌++◌, Str, bytes, is_empty,
  if◌then◌else◌,
}
use netbird_operator.Runtime.{
  Error, Result, ok, err, dependency_not_ready, is_dependency, is_conflict,
}
use netbird_operator.Runtime.Exec.{Exec, pure, raise, gets, attempt, modify, continue, ◌>>=◌, ◌>>◌}
use netbird_operator.Api.{Object, Meta, Ready, reconciled, dependency, Reference}
use netbird_operator.Server.{Call, Server, Library, World, ask, ignore_not_found}

-- `ctrl.Result`: done, or `RequeueAfter` in seconds.
pub data Requeue : Type 0 where
  done : Requeue
  requeue_after : ℕ → Requeue

-- The intervals of internal/controller/reconcile.go.
abbrev pub resync_interval : ℕ
resync_interval = 900

abbrev pub dependency_retry : ℕ
dependency_retry = 10

abbrev pub cleanup_retry : ℕ
cleanup_retry = 60

-- `k8sutil.Finalizer`
abbrev pub finalizer_name : Str → Str
finalizer_name kind = bytes "finalizers.netbird.io" ++ (b'/' ∷ kind)

-- `err.Error()` of an error that wraps `errDependencyNotReady`.
abbrev pub error_text : Error → Str
error_text (dependency_not_ready t) = bytes "dependency not ready: " ++ t
error_text _ = []

-- `mirror`
pub record Mirror (S T : Type 0) : Type 0 where
  pub kind : Str
  pub finalizer : Str
  pub apply : Exec (World (Object S T)) (Unit {0})
  pub del : Exec (World (Object S T)) (Unit {0})
  pub in_use_msg : Str

module _ {S T : Type 0} where
  abbrev pub set_finalizers : (List Str → List Str) → World (Object S T) → World (Object S T)
  set_finalizers f w = record w {
    object = record w.object {
      meta = record w.object.meta { finalizers = f w.object.meta.finalizers };
    };
  }

  -- `conditions.MarkTrue` and `conditions.MarkFalse` on the Ready condition.
  abbrev pub mark : Ready → World (Object S T) → World (Object S T)
  mark r w = record w { object = record w.object { ready = r } }

  abbrev pub set_status : (T → T) → World (Object S T) → World (Object S T)
  set_status f w = record w { object = record w.object { status = f w.object.status } }

  module _ (server : Server (Object S T)) where
    -- `sp.Patch`, with the flag of `WithStatusObservedGeneration`.
    abbrev pub patch : Bool → Exec (World (Object S T)) (Unit {0})
    patch observed w = ask (Call.patch observed w.object) (λ h. server.patch h observed w.object) w

  -- `recordEvent`; its failure is not seen.
  abbrev pub record_event : Str → Exec (World (Object S T)) (Unit {0})
  record_event msg = ask (Call.event msg) (λ h. ok tt)

  -- The wait for a dependency.
  abbrev pub not_ready : Server (Object S T) → Error → Exec (World (Object S T)) Requeue
  not_ready server e = do
    modify (mark (dependency (error_text e)))
    patch server false
    pure (requeue_after dependency_retry)

module _ {S T : Type 0} (server : Server (Object S T)) (lib : Library) (m : Mirror S T) where
  abbrev pub finish_apply : Result (Unit {0}) → Exec (World (Object S T)) Requeue
  finish_apply (ok _) = do
    modify (mark reconciled)
    patch server true
    pure (requeue_after resync_interval)
  finish_apply (err e) = if is_dependency e then not_ready server e else raise e

  -- `Reconcile` on an object that is not being deleted.
  unfoldable pub reconcile_live : Exec (World (Object S T)) Requeue
  reconcile_live = do
    modify (set_finalizers (lib.add_finalizer (finalizer_name m.finalizer)))
    patch server false
    applied ← attempt m.apply
    finish_apply applied

  abbrev pub finalize : Exec (World (Object S T)) Requeue
  finalize = do
    modify (set_finalizers (lib.remove_finalizer (finalizer_name m.finalizer)))
    patch server false
    pure done

  abbrev pub in_use : Str
  in_use =
      if is_empty m.in_use_msg
      then bytes "NetBird " ++ (m.kind ++ bytes " still in use; retrying deletion")
      else m.in_use_msg

  -- The object is still referenced: an event, and another try.
  abbrev pub retry_delete : Exec (World (Object S T)) Requeue
  retry_delete = do record_event in_use; pure (requeue_after cleanup_retry)

  abbrev pub after_delete : Result (Unit {0}) → Exec (World (Object S T)) Requeue
  after_delete (ok _) = finalize
  after_delete (err e) =
      if lib.is_not_found e then finalize else if is_conflict e then retry_delete else raise e

  -- `reconcileDelete`
  unfoldable pub reconcile_delete : Exec (World (Object S T)) Requeue
  reconcile_delete = do deleted ← attempt m.del; after_delete deleted

  unfoldable pub reconcile_loaded : Exec (World (Object S T)) Requeue
  unfolding reconcile_live reconcile_delete
  reconcile_loaded w = if w.object.meta.deleting then reconcile_delete w else reconcile_live w

  abbrev load : Result (Object S T) → Exec (World (Object S T)) Requeue
  load (err e) = ignore_not_found lib e done
  load (ok obj) = do modify (λ w. record w { object = obj }); reconcile_loaded

  -- `MirrorReconciler.Reconcile`
  unfoldable pub reconcile : Reference → Exec (World (Object S T)) Requeue
  unfolding reconcile_loaded
  reconcile req = do found ← attempt (ask (Call.get req) (λ h. server.get h req)); load found
