-- ===== src/ClusterProxy.antt =====
-- internal/controller/clusterproxy_controller.go: the proxy of the Kubernetes API.
pub mod Laws
use netbird_operator.Prelude.{
  ℕ, Bool, true, false, not, Option, none, some, List, [], ◌∷◌, ◌++◌, Str, bytes, is_empty, take,
  get_or, if◌then◌else◌,
}
use netbird_operator.Runtime.{Error, Result, ok, err}
use netbird_operator.Runtime.Exec.{Exec, pure, raise, modify, attempt, continue, ◌>>=◌, ◌>>◌}
use netbird_operator.Api.{Reference, GroupReference, SetupKey, SetupKeySpec, reconciled}
use netbird_operator.Api.Requests.{OwnerReference}
use netbird_operator.Api.Proxies.{ClusterProxy}
use netbird_operator.Api.Workload.{
  EnvVar, text, secret_key, field_path, Probe, Container, PodSpec, Deployment, TopologySpread,
}
use netbird_operator.Server.{Call, Server, Library, World, Child, ask, ignore_not_found}
use netbird_operator.Mirror.{Requeue, done, mark, patch}
use netbird_operator.SetupKeyController.{controller_reference, secret_name}
use netbird_operator.ProxyCluster.Groups.{group_ref_ac}
use netbird_operator.ProxyCluster.Workload.{small_requests}

-- `SetupKeySecretKey`
abbrev pub setup_key_secret_key : Str
setup_key_secret_key = bytes "setup-key"

abbrev pub api_key_entry : Str
api_key_entry = bytes "api-key"

-- `version.KubeApiProxyImage`
abbrev kube_api_proxy_image : Str
kube_api_proxy_image =
    bytes
      "ghcr.io/netbirdio/netbird-kubeapi-proxy:v0.0.5@sha256:af3c0b747d1ef307556ade3d1b59cf79cea6deac01f5c9d4ddd48f4e1154599a"

-- The loop over `Spec.Groups`: a reference that sets no field is left out.
unfoldable pub auto_groups : List GroupReference → List GroupReference
auto_groups [] = []
auto_groups (g ∷ gs) =
    let rest = auto_groups gs in
    elim g.id [
      | some id ↦ group_ref_ac g ∷ rest
      | none ↦ elim g.name [
        | some name ↦ group_ref_ac g ∷ rest
        | none ↦ elim g.local_ref [ some local ↦ group_ref_ac g ∷ rest | none ↦ rest ]
      ]
    ]

abbrev prefixed : Str → Str
prefixed name = bytes "clusterproxy-" ++ name

abbrev pub reference : Reference → Reference
reference req = record { name = prefixed req.name; namespace = req.namespace }

abbrev selector_labels : Str → List (Str × Str)
selector_labels name =
    (bytes "app.kubernetes.io/name", bytes "clusterproxy")
    ∷ (bytes "app.kubernetes.io/instance", name)
    ∷ []

module _ (hex_sha256 : Str → Str) (api_key management_url : Str) where
  -- The setup key that the proxy's peers use.
  abbrev pub key_spec : ClusterProxy → SetupKeySpec
  key_spec cp = record {
    name = prefixed (take 8 (hex_sha256 cp.meta.uid));
    ephemeral = true;
    allow_extra_dns_labels = true;
    duration = none;
    auto_groups = auto_groups cp.spec.groups;
  }

  abbrev args : ClusterProxy → List Str
  args cp =
      bytes "--setup-key"
      ∷ bytes "$(SETUP_KEY)"
      ∷ bytes "--api-key"
      ∷ bytes "$(API_KEY)"
      ∷ bytes "--instance-name"
      ∷ bytes "$(POD_NAME)"
      ∷ bytes "--cluster-name"
      ∷ cp.spec.cluster_name
      ∷ bytes "--kubernetes-api-server"
      ∷ cp.spec.api_server
      ∷ bytes "--management-url"
      ∷ management_url
      ∷ []

  -- The environment, from the Secrets of the setup key and of the API key.
  abbrev env : Str → Str → List EnvVar
  env key_secret api_secret =
      record { name = bytes "POD_NAME"; value = field_path (bytes "metadata.name") }
      ∷ record { name = bytes "SETUP_KEY"; value = secret_key key_secret setup_key_secret_key }
      ∷ record { name = bytes "API_KEY"; value = secret_key api_secret api_key_entry }
      ∷ []

  abbrev container : ClusterProxy → Str → Str → Container
  container cp key_secret api_secret = record {
    name = bytes "proxy";
    image = kube_api_proxy_image;
    args = args cp;
    ports = [];
    env = env key_secret api_secret;
    startup_probe = none;
    readiness_probe = some (record {
      path = bytes "/readyz";
      port = 8081;
      failure_threshold = none;
      period_seconds = none;
    });
    liveness_probe = none;
    security_context = record {
      allow_privilege_escalation = some false;
      read_only_root_filesystem = some true;
      run_as_non_root = some true;
      dropped = bytes "ALL" ∷ [];
      added = [];
    };
    requests = small_requests;
    volume_mounts = [];
  }

  -- The Deployment of the proxy.
  unfoldable pub proxy_deployment : ClusterProxy → Str → SetupKey → Deployment
  proxy_deployment cp name key = record {
    labels = selector_labels name;
    replicas = get_or cp.spec.replicas 3;
    pod = record {
      container = container cp (secret_name key) (prefixed name);
      dns_options = [];
      volumes = [];
      service_account_name = cp.spec.service_account_name;
      topology_spread =
          record {
            max_skew = 1;
            topology_key = bytes "kubernetes.io/hostname";
            when_unsatisfiable = bytes "ScheduleAnyway";
            match_labels = selector_labels name;
          }
          ∷ [];
    };
  }

  module _ (server : Server ClusterProxy) (lib : Library) where
    abbrev apply : Child → Exec (World ClusterProxy) (Unit {0})
    apply child = ask (Call.apply child) (λ h. server.apply h child)

    -- The end of `Reconcile`, once the setup key has an id.
    unfoldable pub deploy :
        Reference → OwnerReference → ClusterProxy → SetupKey → Exec (World ClusterProxy) Requeue
    deploy req owner cp key = do
      apply (Child.secret_entry owner (reference req) (api_key_entry, api_key))
      apply (Child.deployment owner (reference req) (proxy_deployment cp req.name key))
      modify (mark reconciled)
      patch server true
      pure done

    abbrev pub with_key :
        Reference
        → OwnerReference
        → ClusterProxy
        → Result SetupKey
        → Exec (World ClusterProxy) Requeue
    with_key req owner cp (err e) = ignore_not_found lib e done
    with_key req owner cp (ok key) =
        if is_empty key.status.setup_key_id then pure done else deploy req owner cp key

    abbrev pub key_reference : Reference → ClusterProxy → Reference
    key_reference req cp = record { name = prefixed cp.meta.name; namespace = req.namespace }

    -- `Reconcile` behind the owner reference.
    unfoldable pub set_up :
        Reference → OwnerReference → ClusterProxy → Exec (World ClusterProxy) Requeue
    unfolding deploy
    set_up req owner cp = do
      let ref = key_reference req cp
      apply (Child.proxy_setup_key owner ref (key_spec cp))
      key ← attempt (ask (Call.kube_setup_key ref) (λ h. server.kube_setup_key h ref))
      with_key req owner cp key

    abbrev owned :
        Reference → ClusterProxy → Result OwnerReference → Exec (World ClusterProxy) Requeue
    owned req cp (err e) = raise e
    owned req cp (ok owner) = set_up req owner cp

    abbrev load : Reference → Result ClusterProxy → Exec (World ClusterProxy) Requeue
    load req (err e) = ignore_not_found lib e done
    load req (ok cp) =
        if cp.meta.deleting
        then pure done
        else modify (λ w. record w { object = cp })
          >> owned req cp (controller_reference lib cp.meta)

    -- `ClusterProxyReconciler.Reconcile`
    unfoldable pub reconcile : Reference → Exec (World ClusterProxy) Requeue
    unfolding set_up
    reconcile req = do found ← attempt (ask (Call.get req) (λ h. server.get h req)); load req found
