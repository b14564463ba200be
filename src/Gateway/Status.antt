-- ===== src/Gateway/Status.antt =====
-- The conditions and the statuses that the Gateway controllers write (gateway_controller.go).
pub mod Laws
use netbird_operator.Prelude.{
  ℕ, ◌+◌, Bool, true, false, ◌&&◌, ◌||◌, Option, none, some, List, [], ◌∷◌, ◌++◌, Str, bytes, any,
  is_empty, if◌then◌else◌,
}
use netbird_operator.Gateway.Types.{Listener, Gateway, Route, ParentRef}
use netbird_operator.Gateway.Hostname.{listener_under_domain, listener_hostname_matches}
use netbird_operator.Gateway.Admission.{GatewayProxy, allowed_routes_permits}
use netbird_operator.Gateway.Config.{route_references_gateway}

-- `metav1.Condition` without its times; `status` is whether it is True.
pub record Condition : Type 0 where
  pub type : Str
  pub status : Bool
  pub reason : Str
  pub message : Str
  pub observed_generation : ℕ

-- `gwv1.ListenerStatus`; the kinds are groups and kinds.
pub record ListenerStatus : Type 0 where
  pub name : Str
  pub supported_kinds : List (Str × Str)
  pub attached_routes : ℕ
  pub conditions : List Condition

pub record GatewayStatus : Type 0 where
  pub conditions : List Condition
  -- the values of the addresses, which are IPs
  pub addresses : List Str
  pub listeners : List ListenerStatus

-- A Gateway as the controller holds it.
pub record GatewayObject : Type 0 where
  pub uid : Str
  pub gateway : Gateway
  pub status : GatewayStatus

-- `gwv1.RouteParentStatus`
pub record RouteParentStatus : Type 0 where
  pub parent_ref : ParentRef
  pub controller_name : Str
  pub conditions : List Condition

-- An HTTPRoute as the controller holds it.
pub record RouteObject : Type 0 where
  pub uid : Str
  pub route : Route
  pub parents : List RouteParentStatus

pub record GatewayClass : Type 0 where
  pub name : Str
  pub controller_name : Str
  pub generation : ℕ
  pub conditions : List Condition

-- `meta.SetStatusCondition`
abbrev pub SetCondition : Type 0
SetCondition = Condition → List Condition → List Condition

-- `gatewayController`
abbrev pub gateway_controller : Str
gateway_controller = bytes "netbird.io/gateway-controller"

abbrev pub accepted_type : Str
accepted_type = bytes "Accepted"

abbrev pub programmed_type : Str
programmed_type = bytes "Programmed"

abbrev resolved_refs_type : Str
resolved_refs_type = bytes "ResolvedRefs"

abbrev pub matches_some : List Str → Listener → Bool
matches_some [] l = true
matches_some (h ∷ hs) l = any (listener_hostname_matches l.hostname) (h ∷ hs)

-- The test of the loop of `listenerAttachedRoutes`.
unfoldable pub is_attached : Gateway → Listener → Route → Bool
is_attached gw l route =
    route_references_gateway route gw
    && (allowed_routes_permits gw l route.namespace && matches_some route.hostnames l)

-- `listenerAttachedRoutes`
unfoldable pub listener_attached_routes : Gateway → Listener → List Route → ℕ
unfolding is_attached
listener_attached_routes gw l [] = 0
listener_attached_routes gw l (route ∷ routes) =
    let rest = listener_attached_routes gw l routes in
    if is_attached gw l route then rest + 1 else rest

abbrev pub unused_condition : Gateway → GatewayProxy → Condition
unused_condition gw cfg = record {
  type = accepted_type;
  status = false;
  reason = bytes "Unused";
  message = bytes "listener hostname is not under the proxy's registered domain " ++ cfg.domain;
  observed_generation = gw.generation;
}

abbrev pub listener_accepted : Gateway → Condition
listener_accepted gw = record {
  type = accepted_type;
  status = true;
  reason = bytes "Accepted";
  message = bytes "Accepted";
  observed_generation = gw.generation;
}

abbrev cert_name : Option (List Str) → Str
cert_name (some (name ∷ names)) = name
cert_name _ = []

-- The condition on the references of a listener, from whether its certificate is there.
abbrev pub resolved_condition : Gateway → Listener → Bool → Condition
resolved_condition gw l cert_ok =
    if cert_ok
    then record {
      type = resolved_refs_type;
      status = true;
      reason = bytes "ResolvedRefs";
      message = bytes "resolved";
      observed_generation = gw.generation;
    }
    else record {
      type = resolved_refs_type;
      status = false;
      reason = bytes "InvalidCertificateRef";
      message = bytes "Secret \"" ++ (cert_name l.certificate_refs ++ bytes "\" not found");
      observed_generation = gw.generation;
    }

abbrev pub listener_programmed : Gateway → Bool → Condition
listener_programmed gw status = record {
  type = programmed_type;
  status = status;
  reason = bytes "Programmed";
  message = [];
  observed_generation = gw.generation;
}

module _ (set_condition : SetCondition) where
  -- The status of a listener outside the domain.
  abbrev pub unused_status : Gateway → GatewayProxy → Listener → ListenerStatus
  unused_status gw cfg l = record {
    name = l.name;
    supported_kinds = (bytes "gateway.networking.k8s.io", bytes "HTTPRoute") ∷ [];
    attached_routes = 0;
    conditions = set_condition (unused_condition gw cfg) [];
  }

  -- The status of a listener under the domain, from whether its certificate is there.
  abbrev pub used_status : Gateway → Bool → List Route → Listener → Bool → ListenerStatus
  used_status gw programmed routes l cert_ok = record {
    name = l.name;
    supported_kinds = (bytes "gateway.networking.k8s.io", bytes "HTTPRoute") ∷ [];
    attached_routes = listener_attached_routes gw l routes;
    conditions =
        set_condition (listener_programmed gw (programmed && cert_ok)) (
          set_condition (resolved_condition gw l cert_ok)
            (set_condition (listener_accepted gw) []));
  }

  -- The condition of a Gateway that is translated.
  abbrev pub gateway_accepted : Gateway → Condition
  gateway_accepted gw = record {
    type = accepted_type;
    status = true;
    reason = bytes "Accepted";
    message = bytes "Translated to a NetBird ReverseProxyCluster";
    observed_generation = gw.generation;
  }

  abbrev pub gateway_programmed : Gateway → Bool → Condition
  gateway_programmed gw ready =
      if ready
      then record {
        type = programmed_type;
        status = true;
        reason = bytes "Programmed";
        message = bytes "the proxy cluster is ready";
        observed_generation = gw.generation;
      }
      else record {
        type = programmed_type;
        status = false;
        reason = bytes "Pending";
        message = bytes "waiting for the proxy cluster to become ready";
        observed_generation = gw.generation;
      }
