-- ===== src/Webhook/Laws.antt =====
-- What an injection changes of the Pod (internal/webhook/v1/pod_webhook.go).
use netbird_operator.Prelude.{
  arith, ◌≡◌, ◌⊎◌, refl, ap, Option, inl, inr, Bool, true, not, bytes, none, some, List, [], ◌∷◌,
  ◌++◌, keep, Bool-cases, Str, str_eq,
}
use netbird_operator.Runtime.{Result-cases, ok}
use netbird_operator.Runtime.Yields.{pure-Yields}
use netbird_operator.Api.{Reference, SetupKey}
use netbird_operator.Api.Workload.{Container}
use netbird_operator.LoadBalancer.{get_annotation}
use netbird_operator.Webhook.{
  with_key, overridden, base_container, annotate, InjectionMode, sidecar, container, other,
  SidecarProfile, Injector, Pod, PodContainer, str_leb, matching_profiles, inject, default,
  with_profile, sidecar_profile_annotation,
}
use netbird_operator.Webhook.Selection.{
  IsIn, Sorts, IsLeast, Selects, IsSelection, pick-IsLeast, matching_profiles-IsSelection,
}

module _ {S O : Type 0} (inj : Injector S O) where
  abbrev is_annotated : Str × Str → Bool
  is_annotated (k, v) = str_eq k sidecar_profile_annotation

  keep-put :
      (name : Str) (m : List (Str × Str))
      → keep (λ e. not (is_annotated e)) (keep (λ e. not (is_annotated e)) m)
        ≡ keep (λ e. not (is_annotated e)) m
  keep-put name [] = refl
  keep-put name (e ∷ m) = elim (Bool-cases (is_annotated e)) [
    | inl own ↦ rw own (keep-put name m)
    | inr foreign ↦ rw (foreign, foreign) (ap (λ t. e ∷ t) (keep-put name m))
  ]

  -- One container is added, at the end: a restartable init container in the mode of a sidecar, and a
  -- container in the mode of a container.
  abbrev IsAdded : InjectionMode → Pod → Container → Pod → Type 0
  IsAdded sidecar pod c pod' =
      (pod'.init_containers
        ≡ pod.init_containers ++ record { spec = c; restart_policy = some (bytes "Always") } ∷ [])
      × (pod'.containers ≡ pod.containers)
  IsAdded container pod c pod' =
      (pod'.init_containers ≡ pod.init_containers)
      × (pod'.containers ≡ pod.containers ++ record { spec = c; restart_policy = none } ∷ [])
  IsAdded (other m) pod c pod' = ⊥

  -- What an injection does to a Pod.
  pub record IsInjected (p : SidecarProfile S O) (c : Container) (pod pod' : Pod) : Type 0 where
    pub namespace : pod'.namespace ≡ pod.namespace
    pub labels : pod'.labels ≡ pod.labels
    pub annotated : get_annotation sidecar_profile_annotation pod'.annotations ≡ some p.name
    pub others :
        keep (λ e. not (is_annotated e)) pod'.annotations
        ≡ keep (λ e. not (is_annotated e)) pod.annotations
    pub added : IsAdded p.injection_mode pod c pod'

  injected :
      (p : SidecarProfile S O) (c : Container) (pod : Pod) (mode : InjectionMode) (pod' : Pod)
      → p.injection_mode ≡ mode
      → inject inj p c pod ≡ ok pod'
      → IsInjected p c pod pod'
  unfolding inject str_eq
  injected p c pod sidecar pod' e h =
      let added : PodContainer = record { spec = c; restart_policy = some (bytes "Always") } in
      let pod1 =
        annotate inj p.name (record pod { init_containers = pod.init_containers ++ added ∷ [] }) in
      pure-Yields (IsInjected p c pod) pod1
        (record {
          namespace = refl;
          labels = refl;
          annotated = refl;
          others = keep-put p.name pod.annotations;
          added = rw e (refl, refl);
        })
        tt pod' (rw e at h)
  injected p c pod container pod' e h =
      let added : PodContainer = record { spec = c; restart_policy = none } in
      let pod1 = annotate inj p.name (record pod { containers = pod.containers ++ added ∷ [] }) in
      pure-Yields (IsInjected p c pod) pod1
        (record {
          namespace = refl;
          labels = refl;
          annotated = refl;
          others = keep-put p.name pod.annotations;
          added = rw e (refl, refl);
        })
        tt pod' (rw e at h)
  injected p c pod (other m) pod' e h = let failed = rw e at h in absurd (ground arith)

  -- The setup key that the profile names, in the namespace of the Pod.
  abbrev key_ref : Pod → SidecarProfile S O → Reference
  key_ref pod p = record { name = p.setup_key_ref; namespace = pod.namespace }

  -- The container of the profile, with the key that was read, merged with the override if there is
  -- one.
  abbrev IsContainer : Container → Option O → Container → Type 0
  IsContainer base none c = c ≡ base
  IsContainer base (some o) c = inj.merge base o ≡ ok c

  -- Of the profiles of the list that select the Pod, the one with the least name was injected, with
  -- its own container for the key that was read.
  abbrev pub Chosen : List (SidecarProfile S O) → Pod → Pod → Type 0
  Chosen profiles pod pod' =
      (p : SidecarProfile S O) × IsIn p profiles
      × Selects inj p pod.labels
      × ((q : SidecarProfile S O)
          → IsIn q profiles
          → Selects inj q pod.labels
          → str_leb p.name q.name ≡ true)
      × (key : SetupKey) × (inj.get_setup_key (key_ref pod p) ≡ ok key)
      × (c : Container) × IsContainer (base_container inj p key) p.container_override c
      × IsInjected p c pod pod'

  overridden-IsContainer :
      (base c : Container) (o : Option O) → overridden inj base o ≡ ok c → IsContainer base o c
  overridden-IsContainer base c none h = ground arith
  overridden-IsContainer base c (some o) h = h

  -- A Pod that is admitted is as it was, and then no profile of its namespace selects it; or, of the
  -- profiles of its namespace that select it, the one with the least name was injected: its
  -- container, with the key that it names, was added at the end of the containers that its mode
  -- gives, its name is recorded, and nothing else of the Pod changed.
  pub default-Chosen :
      Sorts inj
      → (pod pod' : Pod) → default inj pod ≡ ok pod'
      → (profiles : List (SidecarProfile S O)) → inj.list_profiles pod.namespace ≡ ok profiles
      → (((p : SidecarProfile S O) → IsIn p profiles → ¬ Selects inj p pod.labels) × (pod' ≡ pod))
        ⊎ Chosen profiles pod pod'
  unfolding default
  default-Chosen s pod pod' h profiles e =
      elim (Result-cases (matching_profiles inj profiles pod.labels)) [
        | inr (x, f) ↦ let failed = rw (e, f, default) at h in absurd (ground arith)
        | inl (ms, f) ↦
            by_matching ms f (matching_profiles-IsSelection inj profiles ms pod.labels f)
      ]
    where
      with_profile-Chosen :
          (p : SidecarProfile S O) (ms : List (SidecarProfile S O))
          → IsSelection inj profiles pod.labels ms
          → IsIn p ms
          → IsLeast inj p ms
          → with_profile inj pod (some p) ≡ ok pod'
          → Chosen profiles pod pod'
      with_profile-Chosen p ms (sound, complete) m least k =
          let (there, selects) = sound p m in
          elim (Result-cases (inj.get_setup_key (key_ref pod p))) [
            | inr (x, g) ↦ let failed = rw g at k in absurd (ground arith)
            | inl (key, g) ↦
                let base = base_container inj p key in
                elim (Result-cases (overridden inj base p.container_override)) [
                  | inr (x, v) ↦ let failed = rw (g, with_key, v) at k in absurd (ground arith)
                  | inl (c, v) ↦ (
                    p,
                    there,
                    selects,
                    λ q i t. least q (complete q i t),
                    key,
                    g,
                    c,
                    overridden-IsContainer base c p.container_override v,
                    injected p c pod p.injection_mode pod' refl (rw (g, with_key, v) at k),
                  )
                ]
          ]

      by_matching :
          (ms : List (SidecarProfile S O))
          → matching_profiles inj profiles pod.labels ≡ ok ms
          → IsSelection inj profiles pod.labels ms
          → (((p : SidecarProfile S O) → IsIn p profiles → ¬ Selects inj p pod.labels)
              × (pod' ≡ pod))
            ⊎ Chosen profiles pod pod'
      by_matching [] f (sound, complete) = inl (
        λ p i t. absurd (complete p i t),
        pure-Yields (λ v. v ≡ pod) pod refl tt pod' (rw (e, f, default) at h),
      )
      by_matching (m ∷ ms) f selection =
          let (p, picked, there, least) = pick-IsLeast inj s m ms in
          inr
            (with_profile-Chosen p (m ∷ ms) selection there least (rw (e, f, picked, default) at h))
