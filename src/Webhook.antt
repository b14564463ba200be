-- ===== src/Webhook.antt =====
-- internal/webhook/v1/pod_webhook.go: the sidecar that a profile adds to a new Pod.
pub mod Selection
pub mod Laws
use netbird_operator.Prelude.{
  ℕ, Bool, true, false, ◌&&◌, ◌||◌, Option, none, some, List, [], ◌∷◌, ◌++◌, Str, bytes, is_empty,
  str_eq, ltb, ◌==◌, length, if◌then◌else◌,
}
use netbird_operator.Runtime.{Error, Result, ok, err, message}
use netbird_operator.Api.{Reference, SetupKey}
use netbird_operator.Api.Workload.{EnvVar, text, secret_key, Container}
use netbird_operator.SetupKeyController.{secret_name}
use netbird_operator.ProxyCluster.Groups.{join}
use netbird_operator.ProxyCluster.Workload.{put, text_var}
use netbird_operator.ClusterProxy.{setup_key_secret_key}

-- `SidecarProfileAnnotation`
abbrev pub sidecar_profile_annotation : Str
sidecar_profile_annotation = bytes "netbird.io/sidecar-profile"

-- `InjectionMode`, a string
pub data InjectionMode : Type 0 where
  sidecar container : InjectionMode
  other : Str → InjectionMode

-- `S` is a label selector and `O` a container override.
pub record SidecarProfile (S O : Type 0) : Type 0 where
  pub name : Str
  pub setup_key_ref : Str
  pub pod_selector : Option S
  pub injection_mode : InjectionMode
  pub extra_dns_labels : List Str
  pub container_override : Option O

-- A container of a Pod, with its restart policy.
pub record PodContainer : Type 0 where
  pub spec : Container
  pub restart_policy : Option Str

-- A nil map of annotations is the empty one.
pub record Pod : Type 0 where
  pub namespace : Str
  pub labels : List (Str × Str)
  pub init_containers : List PodContainer
  pub containers : List PodContainer
  pub annotations : List (Str × Str)

-- `cmp.Compare(a, b) <= 0` on strings, byte by byte.
unfoldable pub str_leb : Str → Str → Bool
str_leb [] t = true
str_leb (a ∷ s) [] = false
str_leb (a ∷ s) (b ∷ t) = ltb a b || ((a == b) && str_leb s t)

-- The libraries that the webhook calls, and the cluster.
pub record Injector (S O : Type 0) : Type 0 where
  -- `PodSelector.Size()` is 0
  pub is_blank : S → Bool
  -- `metav1.LabelSelectorAsSelector` and `Matches`
  pub selects : S → Result (List (Str × Str) → Bool)
  -- `slices.SortFunc` by the names
  pub sort_profiles : List (SidecarProfile S O) → List (SidecarProfile S O)
  -- the two marshalings, `StrategicMergePatch` and the unmarshaling
  pub merge : Container → O → Result Container
  pub list_profiles : Str → Result (List (SidecarProfile S O))
  pub get_setup_key : Reference → Result SetupKey
  pub management_url : Str
  pub client_image : Str

module _ {S O : Type 0} (inj : Injector S O) where
  abbrev select : SidecarProfile S O → Option S → List (Str × Str) → Result Bool
  select p none labels = ok true
  select p (some s) labels =
      if inj.is_blank s
      then ok true
      else elim (inj.selects s) [ err e ↦ err e | ok matches ↦ ok (matches labels) ]

  -- Whether the profile is for a Pod with these labels.
  abbrev pub selected : SidecarProfile S O → List (Str × Str) → Result Bool
  selected p labels = select p p.pod_selector labels

  -- The loop over the profiles of the namespace.
  unfoldable pub matching_profiles :
      List (SidecarProfile S O) → List (Str × Str) → Result (List (SidecarProfile S O))
  matching_profiles [] labels = ok []
  matching_profiles (p ∷ ps) labels = elim (selected p labels) [
    | err e ↦ err e
    | ok is_match ↦ elim (matching_profiles ps labels) [
      | err e ↦ err e
      | ok rest ↦ ok (if is_match then p ∷ rest else rest)
    ]
  ]

  -- The first by name, where there are several.
  unfoldable pub pick : List (SidecarProfile S O) → Option (SidecarProfile S O)
  pick [] = none
  pick (p ∷ []) = some p
  pick (p ∷ (q ∷ qs)) = elim (inj.sort_profiles (p ∷ (q ∷ qs))) [
    | [] ↦ none
    | first ∷ rest ↦ some first
  ]

  abbrev dns_labels : List Str → List EnvVar
  dns_labels [] = []
  dns_labels (l ∷ ls) = text_var (bytes "NB_EXTRA_DNS_LABELS") (join b',' (l ∷ ls)) ∷ []

  abbrev env : SidecarProfile S O → SetupKey → List EnvVar
  env p key =
      record {
        name = bytes "NB_SETUP_KEY";
        value = secret_key (secret_name key) setup_key_secret_key;
      }
      ∷ text_var (bytes "NB_MANAGEMENT_URL") inj.management_url
      ∷ dns_labels p.extra_dns_labels

  -- The container before any override.
  abbrev pub base_container : SidecarProfile S O → SetupKey → Container
  base_container p key = record {
    name = bytes "netbird";
    image = inj.client_image;
    args = [];
    ports = [];
    env = env p key;
    startup_probe = none;
    readiness_probe = none;
    liveness_probe = none;
    security_context = record {
      allow_privilege_escalation = none;
      read_only_root_filesystem = none;
      run_as_non_root = none;
      dropped = [];
      added = bytes "NET_ADMIN" ∷ [];
    };
    requests = [];
    volume_mounts = [];
  }

  abbrev pub overridden : Container → Option O → Result Container
  overridden c none = ok c
  overridden c (some o) = inj.merge c o

  abbrev pub annotate : Str → Pod → Pod
  annotate name pod = record pod {
    annotations = put sidecar_profile_annotation name pod.annotations;
  }

  -- The `switch` on the injection mode, and the annotation.
  unfoldable pub inject : SidecarProfile S O → Container → Pod → Result Pod
  inject p c pod = elim p.injection_mode [
    | sidecar ↦
        let added : PodContainer = record { spec = c; restart_policy = some (bytes "Always") } in
        ok (annotate p.name (record pod { init_containers = pod.init_containers ++ added ∷ [] }))
    | container ↦
        let added : PodContainer = record { spec = c; restart_policy = none } in
        ok (annotate p.name (record pod { containers = pod.containers ++ added ∷ [] }))
    | other mode ↦ err (message (bytes "unknown injection mode " ++ mode))
  ]

  abbrev pub with_key : SidecarProfile S O → Pod → Result SetupKey → Result Pod
  with_key p pod (err e) = err e
  with_key p pod (ok key) = elim (overridden (base_container p key) p.container_override) [
    | err e ↦ err e
    | ok c ↦ inject p c pod
  ]

  abbrev pub with_profile : Pod → Option (SidecarProfile S O) → Result Pod
  with_profile pod none = ok pod
  with_profile pod (some p) =
      with_key p pod
        (inj.get_setup_key (record { name = p.setup_key_ref; namespace = pod.namespace }))

  -- `PodNetbirdInjector.Default`; on an error the Pod is as it was.
  unfoldable pub default : Pod → Result Pod
  unfolding matching_profiles pick inject
  default pod = elim (inj.list_profiles pod.namespace) [
    | err e ↦ err e
    | ok profiles ↦ elim (matching_profiles profiles pod.labels) [
      | err e ↦ err e
      | ok matching ↦ with_profile pod (pick matching)
    ]
  ]
