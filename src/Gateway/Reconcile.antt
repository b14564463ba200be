-- ===== src/Gateway/Reconcile.antt =====
-- `GatewayReconciler` (gateway_controller.go).
pub mod Listeners
pub mod Laws
use netbird_operator.Prelude.{
  ℕ, Bool, true, false, ◌&&◌, ◌||◌, not, Option, none, some, List, [], ◌∷◌, ◌++◌, Str, bytes,
  is_empty, str_eq, if◌then◌else◌,
}
use netbird_operator.Runtime.{Error, Result, ok, err, message}
use netbird_operator.Runtime.Exec.{Exec, pure, raise, modify, gets, attempt, continue, ◌>>=◌, ◌>>◌}
use netbird_operator.Api.{Meta, Reference, Ready, reconciled}
use netbird_operator.Api.Requests.{OwnerReference}
use netbird_operator.Api.Proxies.{
  ReverseProxyCluster, ReverseProxyClusterSpec, ReverseProxyClusterParametersSpec,
}
use netbird_operator.Server.{Call, Server, Library, World, Child, ask, ignore_not_found}
use netbird_operator.Mirror.{Requeue, done, requeue_after, resync_interval, dependency_retry}
use netbird_operator.SetupKeyController.{controller_reference}
use netbird_operator.ProxyCluster.Groups.{group_ref_acs}
use netbird_operator.Gateway.Types.{Gateway, Listener, ParametersRef, Route}
use netbird_operator.Gateway.Hostname.{listener_under_domain}
use netbird_operator.Gateway.Admission.{GatewayProxy}
use netbird_operator.Gateway.Config.{gateway_proxy_config, proxy_cluster_name_for_gateway}
use netbird_operator.Gateway.Status.{
  Condition, ListenerStatus, GatewayStatus, GatewayObject, GatewayClass, SetCondition,
  gateway_controller, accepted_type, unused_status, used_status, gateway_accepted,
  gateway_programmed,
}

-- `paramsKind`
abbrev params_kind : Str
params_kind = bytes "ReverseProxyClusterParameters"

-- `nbv1alpha1.GroupVersion.Group`
abbrev api_group : Str
api_group = bytes "netbird.io"

-- The spec of the cluster that a Gateway owns.
abbrev gateway_cluster_spec :
    GatewayProxy → ReverseProxyClusterParametersSpec → ReverseProxyClusterSpec
gateway_cluster_spec cfg params = record {
  cluster_address = cfg.cluster_address;
  domain = cfg.domain;
  zone_ref = none;
  cert_secret_name = cfg.cert_secret;
  groups = group_ref_acs params.groups;
  private = params.private;
  replicas = params.replicas;
  image = params.image;
  log_level = params.log_level;
  service_annotations = params.service_annotations;
}

abbrev pub is_ready : Ready → Bool
is_ready reconciled = true
is_ready _ = false

-- What the owner reference takes from a Gateway.
abbrev pub meta_of : GatewayObject → Meta
meta_of o = record {
  name = o.gateway.name;
  namespace = o.gateway.namespace;
  uid = o.uid;
  deleting = false;
  finalizers = [];
}

module _ (server : Server GatewayObject) (lib : Library) (set_condition : SetCondition)
    (error_string : Error → Str) where
  abbrev pub set_gateway_status :
      (GatewayStatus → GatewayStatus) → World GatewayObject → World GatewayObject
  set_gateway_status f w = record w { object = record w.object { status = f w.object.status } }

  abbrev pub add_condition : Condition → World GatewayObject → World GatewayObject
  add_condition c = set_gateway_status (λ s. record s { conditions = set_condition c s.conditions })

  abbrev pub update_status : Exec (World GatewayObject) (Unit {0})
  update_status w = ask (Call.status_update w.object) (λ h. server.status_update h w.object) w

  abbrev params_or_fail :
      ParametersRef
      → Str
      → Result ReverseProxyClusterParametersSpec
      → Exec (World GatewayObject) ReverseProxyClusterParametersSpec
  params_or_fail ref namespace (ok params) = pure params
  params_or_fail ref namespace (err e) =
      if lib.kube_is_not_found e
      then raise (
          message (
            params_kind
            ++ (bytes " \""
                ++ (ref.name
                    ++ (bytes "\" not found in namespace \"" ++ (namespace ++ bytes "\""))))))
      else raise e

  abbrev read_params :
      Gateway → ParametersRef → Exec (World GatewayObject) ReverseProxyClusterParametersSpec
  read_params gw ref =
      if not (str_eq ref.group api_group) || not (str_eq ref.kind params_kind)
      then raise (
          message (
            bytes "parametersRef must reference "
            ++ (params_kind
                ++ (bytes "."
                    ++ (api_group ++ (bytes ", got " ++ (ref.kind ++ (bytes "." ++ ref.group))))))))
      else let key : Reference = record { name = ref.name; namespace = gw.namespace } in
        attempt (ask (Call.kube_parameters key) (λ h. server.kube_parameters h key))
        >>= params_or_fail ref gw.namespace

  abbrev params_of :
      Gateway → Option ParametersRef → Exec (World GatewayObject) ReverseProxyClusterParametersSpec
  params_of gw none = raise (
      message (
        bytes "spec.infrastructure.parametersRef is required and must reference a " ++ params_kind))
  params_of gw (some ref) = read_params gw ref

  -- `resolveGatewayParams`
  unfoldable resolve_gateway_params :
      Gateway → Exec (World GatewayObject) ReverseProxyClusterParametersSpec
  resolve_gateway_params gw = params_of gw gw.parameters_ref

  -- `fail`
  unfoldable pub fail : Str → Str → Exec (World GatewayObject) Requeue
  fail reason msg w =
      let c : Condition = record {
        type = accepted_type;
        status = false;
        reason = reason;
        message = msg;
        observed_generation = w.object.gateway.generation;
      } in
      (modify (add_condition c) >> (update_status >> pure (requeue_after dependency_retry))) w

  abbrev is_there : Result (Unit {0}) → Bool
  is_there (ok _) = true
  is_there (err e) = false

  -- `secretExists`
  abbrev secret_exists : Str → Str → Exec (World GatewayObject) Bool
  secret_exists namespace name =
      if is_empty name
      then pure false
      else let key : Reference = record { name = name; namespace = namespace } in
        attempt (ask (Call.kube_has_secret key) (λ h. server.kube_has_secret h key))
        >>= (λ r. pure (is_there r))

  abbrev pub cert_there : Gateway → Option (List Str) → Exec (World GatewayObject) Bool
  cert_there gw none = pure true
  cert_there gw (some []) = pure true
  cert_there gw (some (name ∷ names)) = secret_exists gw.namespace name

  -- The body of the loop of `listenerStatuses`.
  abbrev pub listener_status :
      Gateway
      → GatewayProxy
      → Bool
      → List Route
      → Listener
      → Exec (World GatewayObject) ListenerStatus
  listener_status gw cfg programmed routes l =
      if listener_under_domain l cfg.domain
      then cert_there gw l.certificate_refs
        >>= (λ cert_ok. pure (used_status set_condition gw programmed routes l cert_ok))
      else pure (unused_status set_condition gw cfg l)

  unfoldable pub statuses_loop :
      Gateway
      → GatewayProxy
      → Bool
      → List Route
      → List Listener
      → Exec (World GatewayObject) (List ListenerStatus)
  statuses_loop gw cfg programmed routes [] = pure []
  statuses_loop gw cfg programmed routes (l ∷ ls) = do
    status ← listener_status gw cfg programmed routes l
    rest ← statuses_loop gw cfg programmed routes ls
    pure (status ∷ rest)

  abbrev pub or_no_routes : Result (List Route) → List Route
  or_no_routes (ok routes) = routes
  or_no_routes (err e) = []

  -- `listenerStatuses`; a failed list counts no route.
  unfoldable pub listener_statuses :
      Gateway → GatewayProxy → Bool → Exec (World GatewayObject) (List ListenerStatus)
  unfolding statuses_loop
  listener_statuses gw cfg programmed = do
    routes ← attempt (ask Call.kube_routes (λ h. server.kube_routes h))
    statuses_loop gw cfg programmed (or_no_routes routes) gw.listeners

  abbrev set_address : Str → Exec (World GatewayObject) (Unit {0})
  set_address ip =
      if is_empty ip
      then pure tt
      else modify (set_gateway_status (λ s. record s { addresses = ip ∷ [] }))

  -- `syncStatus`
  unfoldable pub sync_status :
      Gateway → GatewayProxy → ReverseProxyCluster → Exec (World GatewayObject) (Unit {0})
  unfolding listener_statuses
  sync_status gw cfg rpc = do
    let ready = is_ready rpc.ready
    modify (add_condition (gateway_accepted set_condition gw))
    modify (add_condition (gateway_programmed set_condition gw ready))
    set_address rpc.status.load_balancer_ip
    statuses ← listener_statuses gw cfg ready
    modify (set_gateway_status (λ s. record s { listeners = statuses }))
    update_status

  abbrev cluster_key : Gateway → Reference
  cluster_key gw = record { name = proxy_cluster_name_for_gateway gw; namespace = gw.namespace }

  -- The end of `Reconcile`, from the owner reference.
  unfoldable pub translate :
      Gateway
      → GatewayProxy
      → ReverseProxyClusterParametersSpec
      → OwnerReference
      → Exec (World GatewayObject) Requeue
  unfolding sync_status
  translate gw cfg params owner = do
    let key = cluster_key gw
    let child = Child.proxy_cluster owner key (gateway_cluster_spec cfg params)
    ask (Call.apply child) (λ h. server.apply h child)
    rpc ← ask (Call.kube_cluster key) (λ h. server.kube_cluster h key)
    sync_status gw cfg rpc
    pure (requeue_after resync_interval)

  abbrev owned :
      GatewayObject
      → GatewayProxy
      → ReverseProxyClusterParametersSpec
      → Result OwnerReference
      → Exec (World GatewayObject) Requeue
  owned o cfg params (err e) = raise e
  owned o cfg params (ok owner) = translate o.gateway cfg params owner

  abbrev configured :
      GatewayObject
      → ReverseProxyClusterParametersSpec
      → Option GatewayProxy
      → Exec (World GatewayObject) Requeue
  configured o params none =
      fail (bytes "NoUsableListener")
        (bytes "no HTTPS/TLS listener with a hostname and certificateRefs")
  configured o params (some cfg) = owned o cfg params (controller_reference lib (meta_of o))

  abbrev with_params :
      GatewayObject → Result ReverseProxyClusterParametersSpec → Exec (World GatewayObject) Requeue
  with_params o (err e) = fail (bytes "InvalidParameters") (error_string e)
  with_params o (ok params) = configured o params (gateway_proxy_config o.gateway)

  abbrev with_class : GatewayObject → Result Str → Exec (World GatewayObject) Requeue
  with_class o (err e) = ignore_not_found lib e done
  with_class o (ok controller) =
      if str_eq controller gateway_controller
      then attempt (resolve_gateway_params o.gateway) >>= with_params o
      else pure done

  abbrev load : Result GatewayObject → Exec (World GatewayObject) Requeue
  load (err e) = ignore_not_found lib e done
  load (ok o) = do
    modify (λ w. record w { object = o })
    controller ←
        attempt (
          ask (Call.kube_class o.gateway.class_name)
            (λ h. server.kube_class h o.gateway.class_name))
    with_class o controller

  -- `GatewayReconciler.Reconcile`
  unfoldable pub reconcile : Reference → Exec (World GatewayObject) Requeue
  unfolding translate resolve_gateway_params fail
  reconcile req = do found ← attempt (ask (Call.get req) (λ h. server.get h req)); load found
