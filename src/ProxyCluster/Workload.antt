-- ===== src/ProxyCluster/Workload.antt =====
-- The Deployment and the Service of the proxy (reverseproxycluster_controller.go).
use netbird_operator.Prelude.{
  ℕ, Bool, true, false, not, Option, none, some, List, [], ◌∷◌, ◌++◌, keep, Str, bytes, is_empty,
  str_eq, get_or, if◌then◌else◌,
}
use netbird_operator.Api.{Reference}
use netbird_operator.Api.Proxies.{ReverseProxyCluster, ReverseProxyClusterSpec}
use netbird_operator.Api.Workload.{
  EnvVar, text, secret_key, Probe, Container, VolumeMount, Deployment, ServiceSpec,
}
use netbird_operator.LoadBalancer.{groups_annotation}
use netbird_operator.ProxyCluster.Groups.{group_names}

abbrev pub proxy_token_key : Str
proxy_token_key = bytes "token"

abbrev proxy_listen_port : ℕ
proxy_listen_port = 8443

abbrev proxy_health_port : ℕ
proxy_health_port = 8080

-- `version.ReverseProxyImage`
abbrev reverse_proxy_image : Str
reverse_proxy_image = bytes "netbirdio/reverse-proxy:latest"

-- `proxyResourceName`
abbrev pub proxy_resource_name : ReverseProxyCluster → Str
proxy_resource_name rpc = bytes "reverseproxycluster-" ++ rpc.meta.name

abbrev pub proxy_reference : ReverseProxyCluster → Reference
proxy_reference rpc = record { name = proxy_resource_name rpc; namespace = rpc.meta.namespace }

-- `proxySelectorLabels`
abbrev proxy_selector_labels : ReverseProxyCluster → List (Str × Str)
proxy_selector_labels rpc =
    (bytes "app.kubernetes.io/name", bytes "netbird-reverse-proxy")
    ∷ (bytes "app.kubernetes.io/instance", rpc.meta.name)
    ∷ []

-- `strconv.FormatBool`
abbrev format_bool : Bool → Str
format_bool true = bytes "true"
format_bool false = bytes "false"

abbrev pub text_var : Str → Str → EnvVar
text_var name value = record { name = name; value = text value }

-- The variables that `applyDeployment` always sets.
abbrev base_env : Str → ReverseProxyCluster → List EnvVar
base_env management_url rpc =
    text_var (bytes "NB_PROXY_MANAGEMENT_ADDRESS") management_url
    ∷ text_var (bytes "NB_PROXY_DOMAIN") rpc.spec.cluster_address
    ∷ text_var (bytes "NB_PROXY_ADDRESS") (bytes ":8443")
    ∷ text_var (bytes "NB_PROXY_HEALTH_ADDRESS") (bytes ":8080")
    ∷ text_var (bytes "NB_PROXY_ACME_CERTIFICATES") (bytes "false")
    ∷ text_var (bytes "NB_PROXY_CERTIFICATE_DIRECTORY") (bytes "/certs")
    ∷ text_var (bytes "NB_PROXY_PRIVATE") (format_bool rpc.spec.private)
    ∷ record {
      name = bytes "NB_PROXY_TOKEN";
      value = secret_key (proxy_resource_name rpc) proxy_token_key;
    }
    ∷ []

abbrev level_env : Str → List EnvVar
level_env level =
    if is_empty level
    then []
    else text_var (bytes "NB_PROXY_LOG_LEVEL") level ∷ text_var (bytes "NB_LOG_LEVEL") level ∷ []

abbrev cert_mounts : Str → List VolumeMount
cert_mounts cert =
    if is_empty cert
    then []
    else record { name = bytes "certs"; mount_path = bytes "/certs"; read_only = true } ∷ []

abbrev health_probe : Str → Option ℕ → Option ℕ → Probe
health_probe path threshold period = record {
  path = path;
  port = proxy_health_port;
  failure_threshold = threshold;
  period_seconds = period;
}

abbrev pub small_requests : List (Str × Str)
small_requests = (bytes "cpu", bytes "100m") ∷ (bytes "memory", bytes "128Mi") ∷ []

abbrev proxy_container : Str → ReverseProxyCluster → Container
proxy_container management_url rpc = record {
  name = bytes "proxy";
  image = if is_empty rpc.spec.image then reverse_proxy_image else rpc.spec.image;
  args = [];
  ports = (bytes "https", proxy_listen_port) ∷ (bytes "health", proxy_health_port) ∷ [];
  env = base_env management_url rpc ++ level_env rpc.spec.log_level;
  startup_probe = some (health_probe (bytes "/healthz/startup") (some 30) (some 2));
  readiness_probe = some (health_probe (bytes "/healthz/ready") none none);
  liveness_probe = some (health_probe (bytes "/healthz/live") none none);
  security_context = record {
    allow_privilege_escalation = some false;
    read_only_root_filesystem = none;
    run_as_non_root = none;
    dropped = bytes "ALL" ∷ [];
    added = [];
  };
  requests = small_requests;
  volume_mounts = cert_mounts rpc.spec.cert_secret_name;
}

abbrev cert_volumes : Str → List (Str × Str)
cert_volumes cert = if is_empty cert then [] else (bytes "certs", cert) ∷ []

-- The Deployment of `applyDeployment`.
unfoldable pub proxy_deployment : Str → ReverseProxyCluster → Deployment
proxy_deployment management_url rpc = record {
  labels = proxy_selector_labels rpc;
  replicas = get_or rpc.spec.replicas 1;
  pod = record {
    container = proxy_container management_url rpc;
    dns_options = (bytes "ndots", bytes "1") ∷ [];
    volumes = cert_volumes rpc.spec.cert_secret_name;
    service_account_name = [];
    topology_spread = [];
  };
}

-- `m[key] = value`
abbrev pub put : Str → Str → List (Str × Str) → List (Str × Str)
put key value m = (key, value) ∷ keep (λ (k, v). not (str_eq k key)) m

-- The two calls of `WithAnnotations`.
abbrev service_annotations : ReverseProxyClusterSpec → List (Str × Str)
service_annotations spec =
    if is_empty (group_names spec.groups)
    then spec.service_annotations
    else put groups_annotation (group_names spec.groups) spec.service_annotations

-- The Service of `applyService`.
unfoldable pub proxy_service : ReverseProxyCluster → ServiceSpec
proxy_service rpc = record {
  type = bytes "LoadBalancer";
  ip_family_policy = bytes "PreferDualStack";
  selector = proxy_selector_labels rpc;
  ports =
      record { name = bytes "http"; port = 80; target_port = proxy_listen_port }
      ∷ record { name = bytes "https"; port = 443; target_port = proxy_listen_port }
      ∷ [];
  annotations = service_annotations rpc.spec;
}
