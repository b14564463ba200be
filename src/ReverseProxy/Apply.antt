-- ===== src/ReverseProxy/Apply.antt =====
-- `applyReverseProxyService` and `deleteReverseProxyService`, with the backends that they resolve.
use netbird_operator.Prelude.Int.{ℤ}
use netbird_operator.Prelude.{
  Bool, true, false, not, ◌&&◌, Option, none, some, List, [], ◌∷◌, ◌++◌, Str, bytes, is_empty, ltb,
  length, if◌then◌else◌, is_some,
}
use netbird_operator.Runtime.{
  Error, Result, ok, err, message, dependency_not_ready, is_cluster_not_found,
}
use netbird_operator.Runtime.Exec.{Exec, pure, raise, modify, gets, attempt, ◌>>=◌, ◌>>◌}
use netbird_operator.Api.{Reference, NetworkResource, DnsRecord}
use netbird_operator.Api.Requests.{ProxyCluster}
use netbird_operator.Api.Services.{
  ServicePort, BackendService, TargetType, TargetOptions, ServiceTarget, ServiceRequest,
}
use netbird_operator.Server.{Call, Server, Library, World, ask}
use netbird_operator.Lookup.{get_group_ids, get_proxy_cluster_by_address}
use netbird_operator.Mirror.{Mirror, set_status}
use netbird_operator.LoadBalancer.{IpFamily}
use netbird_operator.ReverseProxy.Digits.{itoa}
use netbird_operator.ReverseProxy.{
  ReverseProxyBackend, ReverseProxyServiceSpec, ReverseProxyServiceStatus, ReverseProxyService,
  service_mode, is_http, is_port_routed, takes_proxy_protocol, port_label_domain,
  access_restrictions_for, backend_port, target_before, resource_before,
}

-- The two parameters are `sort.Slice`, which is not stable, on lists of targets and of resources.
pub record Sorting : Type 0 where
  pub sort_targets :
      (ServiceTarget → ServiceTarget → Bool) → List ServiceTarget → List ServiceTarget
  pub sort_resources :
      (NetworkResource → NetworkResource → Bool) → List NetworkResource → List NetworkResource

-- The request, from what the loop and the groups gave.
abbrev pub service_request :
    ReverseProxyService → Str → List ServiceTarget → Option (List Str) → ServiceRequest
service_request rps domain targets groups =
    let spec = rps.spec in
    let mode = (service_mode spec.mode).0 in
    record {
      domain = domain;
      enabled = true;
      mode = mode;
      name = rps.meta.name;
      targets = targets;
      pass_host_header = spec.pass_host_header;
      rewrite_redirects = spec.rewrite_redirects;
      private = if is_http mode then spec.private else none;
      access_groups = if is_http mode then groups else none;
      listen_port = if is_http mode then none else spec.listen_port;
      access_restrictions = access_restrictions_for spec.crowdsec_mode spec.access_restrictions;
    }

-- `serviceDomain`
abbrev pub service_domain : ReverseProxyServiceSpec → Str → Str
service_domain spec label =
    if is_port_routed (service_mode spec.mode).0 && is_some spec.listen_port
    then port_label_domain spec.domain label
    else spec.domain

abbrev proxy_options : ReverseProxyServiceSpec → Option TargetOptions
proxy_options spec =
    if takes_proxy_protocol (service_mode spec.mode).0 && is_some spec.proxy_protocol
    then some (record { direct_upstream = none; proxy_protocol = spec.proxy_protocol })
    else none

-- The target of an L4 backend.
abbrev l4_target : ReverseProxyServiceSpec → Str → ServicePort → ServiceTarget
l4_target spec resource_id p = record {
  enabled = true;
  host = none;
  path = none;
  port = p.port;
  protocol = (service_mode spec.mode).1;
  target_type = TargetType.host;
  target_id = resource_id;
  options = proxy_options spec;
}

-- The target of an HTTP backend: `TargetId` is the cluster's address.
abbrev http_target :
    ReverseProxyServiceSpec → ProxyCluster → ReverseProxyBackend → Str → ServicePort → ServiceTarget
http_target spec cluster b host p = record {
  enabled = true;
  host = some host;
  path = if is_empty b.path then none else some b.path;
  port = p.port;
  protocol = (service_mode spec.mode).1;
  target_type = TargetType.cluster;
  target_id = cluster.address;
  options = some (record { direct_upstream = some true; proxy_protocol = none });
}

-- The label of a port: its name, or else its number.
abbrev port_label : ServicePort → Str
port_label p = if is_empty p.name then itoa p.port else p.name

abbrev pub is_true : Option Bool → Bool
is_true none = false
is_true (some b) = b

abbrev nonempty_groups : List Str → Option (List Str)
nonempty_groups [] = none
nonempty_groups (x ∷ xs) = some (x ∷ xs)

module _ (sorting : Sorting) (ip_family : Str → Option IpFamily)
    (server : Server ReverseProxyService) (lib : Library) where
  abbrev object_text : Str → Str → Str → Str → Str
  object_text kind namespace name why = kind ++ (b' ' ∷ (namespace ++ (b'/' ∷ (name ++ why))))

  abbrev missing : Str → Str → Str → Error
  missing namespace name why =
      dependency_not_ready (object_text (bytes "Service") namespace name why)

  abbrev service_or_wait :
      Str → Str → Result BackendService → Exec (World ReverseProxyService) BackendService
  service_or_wait namespace name (ok svc) = pure svc
  service_or_wait namespace name (err e) =
      if lib.kube_is_not_found e
      then raise (missing namespace name (bytes " not found"))
      else raise e

  -- The read of the Service of `resolveBackend` and `resolveL4Backend`.
  abbrev get_service : Str → Str → Exec (World ReverseProxyService) BackendService
  get_service namespace name = do
    let ref : Reference = record { name = name; namespace = namespace }
    svc ← attempt (ask (Call.kube_service ref) (λ h. server.kube_service h ref))
    service_or_wait namespace name svc

  -- The port that the backend addresses, if the Service has a port.
  abbrev chosen_port :
      Str → Str → List ServicePort → ℤ → Exec (World ReverseProxyService) ServicePort
  chosen_port namespace name [] want = raise (missing namespace name (bytes " has no ports"))
  chosen_port namespace name (p ∷ ps) want = pure (backend_port p ps want)

  -- The first advertised record's name.
  abbrev first_name : Str → Str → List DnsRecord → Exec (World ReverseProxyService) Str
  first_name namespace name [] =
      raise (missing namespace name (bytes " not advertised (no DNSRecord)"))
  first_name namespace name (r ∷ rs) = pure r.spec.name

  -- `backendFQDN`
  unfoldable backend_fqdn : Str → Str → Exec (World ReverseProxyService) Str
  backend_fqdn namespace name = do
    records ← ask (Call.list_records namespace name) (λ h. server.list_records h namespace name)
    first_name namespace name records

  abbrev backend_host : Str → Str → Bool → Exec (World ReverseProxyService) Str
  backend_host namespace name true = backend_fqdn namespace name
  backend_host namespace name false =
      pure (name ++ (b'.' ∷ (namespace ++ bytes ".svc.cluster.local")))

  -- `resolveBackend`
  unfoldable resolve_backend : Str → Str → ℤ → Exec (World ReverseProxyService) (Str × ServicePort)
  unfolding backend_fqdn
  resolve_backend namespace name want = do
    svc ← get_service namespace name
    p ← chosen_port namespace name svc.ports want
    host ← backend_host namespace name svc.is_load_balancer
    pure (host, p)

  -- `preferL4Resource`, and the id of what it picks.
  abbrev preferred : Str → Str → List NetworkResource → Exec (World ReverseProxyService) Str
  preferred namespace name [] =
      raise (missing namespace name (bytes " not advertised (no NetworkResource)"))
  preferred namespace name (r ∷ rs) =
      if is_empty r.status.resource_id
      then raise (
          dependency_not_ready (
            object_text (bytes "NetworkResource") namespace r.meta.name
              (bytes " not ready (no NetBird resource id)")))
      else pure r.status.resource_id

  abbrev l4_resource : Str → Str → Exec (World ReverseProxyService) Str
  l4_resource namespace name = do
    resources ←
        ask (Call.list_resources namespace name) (λ h. server.list_resources h namespace name)
    preferred namespace name (sorting.sort_resources (resource_before ip_family) resources)

  abbrev mesh_only : Bool → Exec (World ReverseProxyService) (Unit {0})
  mesh_only true = pure tt
  mesh_only false =
      raise (message (bytes "tcp/tls/udp modes require an advertised LoadBalancer backend"))

  -- `resolveL4Backend`
  unfoldable resolve_l4_backend :
      Str → Str → ℤ → Exec (World ReverseProxyService) (Str × ServicePort)
  resolve_l4_backend namespace name want = do
    svc ← get_service namespace name
    mesh_only svc.is_load_balancer
    p ← chosen_port namespace name svc.ports want
    id ← l4_resource namespace name
    pure (id, p)

  -- One round of the loop over the backends: its target, and the port label that it leaves.
  abbrev render :
      ReverseProxyService
      → ProxyCluster
      → ReverseProxyBackend
      → Str
      → Bool
      → Exec (World ReverseProxyService) (ServiceTarget × Str)
  render rps cluster b label true = do
    resolved ← resolve_backend rps.meta.namespace b.service_ref b.port
    pure (http_target rps.spec cluster b resolved.0 resolved.1, label)
  render rps cluster b label false = do
    resolved ← resolve_l4_backend rps.meta.namespace b.service_ref b.port
    pure (l4_target rps.spec resolved.0 resolved.1, port_label resolved.1)

  -- The loop over the backends.
  unfoldable pub render_loop :
      ReverseProxyService
      → ProxyCluster
      → List ReverseProxyBackend
      → List ServiceTarget
      → Str
      → Exec (World ReverseProxyService) (List ServiceTarget × Str)
  unfolding resolve_backend resolve_l4_backend
  render_loop rps cluster [] targets label = pure (targets, label)
  render_loop rps cluster (b ∷ bs) targets label = do
    rendered ← render rps cluster b label (is_http (service_mode rps.spec.mode).0)
    render_loop rps cluster bs (targets ++ rendered.0 ∷ []) rendered.1

  abbrev cluster_or_wait : Str → Result ProxyCluster → Exec (World ReverseProxyService) ProxyCluster
  cluster_or_wait address (ok cluster) = pure cluster
  cluster_or_wait address (err e) =
      if is_cluster_not_found e
      then raise (dependency_not_ready (bytes "proxy cluster " ++ (address ++ bytes " not found")))
      else raise e

  abbrev private_groups : ReverseProxyService → Exec (World ReverseProxyService) (Option (List Str))
  private_groups rps = do
    ids ← get_group_ids server rps.spec.access_groups rps.meta.namespace
    pure (nonempty_groups ids)

  -- The groups of a private HTTP service.
  abbrev pub access_groups :
      ReverseProxyService → Exec (World ReverseProxyService) (Option (List Str))
  access_groups rps =
      if is_http (service_mode rps.spec.mode).0 && is_true rps.spec.private
      then private_groups rps
      else pure none

  abbrev set_service_id : Str → Exec (World ReverseProxyService) (Unit {0})
  set_service_id id = modify (set_status (λ s. record s { service_id = id }))

  abbrev create_service : ServiceRequest → Exec (World ReverseProxyService) (Unit {0})
  create_service req = do
    id ← ask (Call.services_create req) (λ h. server.services_create h req)
    set_service_id id

  abbrev after_update : ServiceRequest → Result Str → Exec (World ReverseProxyService) (Unit {0})
  after_update req (ok id) = set_service_id id
  after_update req (err e) = if lib.is_not_found e then create_service req else raise e

  -- The write of the request, on the recorded id.
  abbrev pub upsert_service : ServiceRequest → Str → Exec (World ReverseProxyService) (Unit {0})
  upsert_service req [] = create_service req
  upsert_service req (a ∷ id) = do
    updated ←
        attempt
          (ask (Call.services_update (a ∷ id) req) (λ h. server.services_update h (a ∷ id) req))
    after_update req updated

  -- Record the domain and write the request.
  abbrev register : ServiceRequest → Exec (World ReverseProxyService) (Unit {0})
  register req = do
    modify (set_status (λ s. record s { service_domain = req.domain }))
    id ← gets (λ w. w.object.status.service_id)
    upsert_service req id

  -- An L4 service has one backend at most; the message leaves out the name of the mode.
  abbrev one_backend : ReverseProxyServiceSpec → Exec (World ReverseProxyService) (Unit {0})
  one_backend spec =
      if not (is_http (service_mode spec.mode).0) && ltb 1 (length spec.backends)
      then raise (message (bytes "the mode supports exactly one backend"))
      else pure tt

  -- The end of `applyReverseProxyService`, from the targets and the port label.
  abbrev pub finish_apply :
      ReverseProxyService → List ServiceTarget × Str → Exec (World ReverseProxyService) (Unit {0})
  finish_apply rps rendered = do
    let targets = sorting.sort_targets target_before rendered.0
    groups ← access_groups rps
    register (service_request rps (service_domain rps.spec rendered.1) targets groups)

  abbrev pub with_cluster :
      ReverseProxyService → ProxyCluster → Exec (World ReverseProxyService) (Unit {0})
  with_cluster rps cluster = do
    one_backend rps.spec
    rendered ← render_loop rps cluster rps.spec.backends [] []
    finish_apply rps rendered

  -- The look-up of the proxy cluster.
  abbrev pub find_cluster : Str → Exec (World ReverseProxyService) ProxyCluster
  find_cluster address = do
    found ← attempt (get_proxy_cluster_by_address server address)
    cluster_or_wait address found

  -- `applyReverseProxyService`
  unfoldable pub apply_reverse_proxy_service : Exec (World ReverseProxyService) (Unit {0})
  unfolding render_loop
  apply_reverse_proxy_service = do
    rps ← gets (λ w. w.object)
    cluster ← find_cluster rps.spec.proxy_cluster
    with_cluster rps cluster

  abbrev delete_at : Str → Exec (World ReverseProxyService) (Unit {0})
  delete_at [] = pure tt
  delete_at (a ∷ id) = ask (Call.services_delete (a ∷ id)) (λ h. server.services_delete h (a ∷ id))

  -- `deleteReverseProxyService`
  unfoldable delete_reverse_proxy_service : Exec (World ReverseProxyService) (Unit {0})
  delete_reverse_proxy_service w = delete_at w.object.status.service_id w

  -- `NewReverseProxyServiceReconciler`
  abbrev reverse_proxy_service_mirror : Mirror ReverseProxyServiceSpec ReverseProxyServiceStatus
  reverse_proxy_service_mirror = record {
    kind = bytes "ReverseProxyService";
    finalizer = bytes "reverseproxyservice";
    apply = apply_reverse_proxy_service;
    del = delete_reverse_proxy_service;
    in_use_msg = bytes "";
  }
