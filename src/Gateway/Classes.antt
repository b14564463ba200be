-- ===== src/Gateway/Classes.antt =====
-- `GatewayClassReconciler` (gateway_controller.go).
use netbird_operator.Prelude.{true, ◌&&◌, Str, bytes, is_empty, str_eq, if◌then◌else◌}
use netbird_operator.Runtime.{Result, ok, err}
use netbird_operator.Runtime.Exec.{Exec, pure, modify, attempt, ◌>>=◌, ◌>>◌}
use netbird_operator.Api.{Reference}
use netbird_operator.Server.{Call, Server, Library, World, Child, ask, ignore_not_found}
use netbird_operator.Mirror.{Requeue, done}
use netbird_operator.Gateway.Status.{
  Condition, GatewayClass, SetCondition, gateway_controller, accepted_type,
}

module _ (server : Server GatewayClass) (lib : Library) (set_condition : SetCondition)
    (managed : Str) where
  -- `GatewayClassReconciler.ensure`
  unfoldable ensure : Exec (World GatewayClass) (Unit {0})
  ensure =
      if is_empty managed
      then pure tt
      else let child =
          Child.gateway_class managed gateway_controller
            (bytes "NetBird reverse-proxy gateway (operator-managed)") in
        ask (Call.apply child) (λ h. server.apply h child)

  abbrev class_accepted : GatewayClass → Condition
  class_accepted gc = record {
    type = accepted_type;
    status = true;
    reason = bytes "Accepted";
    message = bytes "Accepted by the NetBird reverse-proxy gateway controller";
    observed_generation = gc.generation;
  }

  abbrev accept_class : GatewayClass → Exec (World GatewayClass) Requeue
  accept_class gc = do
    let gc' = record gc { conditions = set_condition (class_accepted gc) gc.conditions }
    modify (λ w. record w { object = gc' })
    ask (Call.status_update gc') (λ h. server.status_update h gc')
    pure done

  abbrev class_found : Str → Result GatewayClass → Exec (World GatewayClass) Requeue
  class_found name (err e) =
      if lib.kube_is_not_found e && str_eq name managed
      then ensure >> pure done
      else ignore_not_found lib e done
  class_found name (ok gc) =
      if str_eq gc.controller_name gateway_controller then accept_class gc else pure done

  -- `GatewayClassReconciler.Reconcile`
  unfoldable reconcile_class : Reference → Exec (World GatewayClass) Requeue
  unfolding ensure
  reconcile_class req = do
    found ← attempt (ask (Call.get req) (λ h. server.get h req))
    class_found req.name found

  -- `GatewayClassReconciler.Start`, whose failure is only logged.
  unfoldable pub start : Exec (World GatewayClass) (Unit {0})
  unfolding ensure
  start = do result ← attempt ensure; pure tt
