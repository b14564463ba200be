-- ===== src/Examples/Sidecars.antt =====
-- The proxy of the Kubernetes API, the sidecars of a namespace, and the verbosity of the log.
use netbird_operator.Prelude.Int.{pos}
use netbird_operator.Prelude.{
  ◌≡◌, ◌⊎◌, refl, true, false, none, some, List, [], ◌∷◌, Str, bytes, if◌then◌else◌, inl, inr,
  Bool-cases, arith,
}
use netbird_operator.Runtime.{ok}
use netbird_operator.Api.{SetupKey}
use netbird_operator.Api.Proxies.{ClusterProxy}
use netbird_operator.Server.{Server}
use netbird_operator.Mirror.{done}
use netbird_operator.ClusterProxy.{set_up}
use netbird_operator.ClusterProxy.Laws.{Waits, Deployed, set_up-cases}
use netbird_operator.Program.{level_of_verbosity}
use netbird_operator.Program.Laws.{level_of_verbosity_wraps}
use netbird_operator.Webhook.{
  sidecar, SidecarProfile, Injector, Pod, str_leb, default, annotate, base_container,
}
use netbird_operator.Webhook.Selection.{IsIn, Sorts, Selects}
use netbird_operator.Webhook.Laws.{Chosen, default-Chosen}
use netbird_operator.Examples.Worlds.{quiet, library, object, world, owner, by_name, ref}

level_of_verbosity_wraps_example : level_of_verbosity 200 ≡ pos 56
level_of_verbosity_wraps_example = level_of_verbosity_wraps 200 (ground arith) (ground arith)

str_leb_total : (s t : Str) → str_leb s t ≡ false → str_leb t s ≡ true
unfolding str_leb
str_leb_total [] t h = ground arith
str_leb_total (a ∷ s) [] h = refl
str_leb_total (a ∷ s) (b ∷ t) h = ground (arith, str_leb_total s t)

str_leb_trans : (s t u : Str) → str_leb s t ≡ true → str_leb t u ≡ true → str_leb s u ≡ true
unfolding str_leb
str_leb_trans [] t u h k = refl
str_leb_trans (a ∷ s) [] u h k = ground arith
str_leb_trans (a ∷ s) (b ∷ t) [] h k = ground arith
str_leb_trans (a ∷ s) (b ∷ t) (c ∷ u) h k = ground (arith, str_leb_trans s t u)

abbrev Profile : Type 0
Profile = SidecarProfile (List (Str × Str)) Str

-- Insertion by name.
unfoldable insert : Profile → List Profile → List Profile
insert p [] = p ∷ []
insert p (q ∷ qs) =
    let rest = insert p qs in if str_leb p.name q.name then p ∷ (q ∷ qs) else q ∷ rest

unfoldable sort : List Profile → List Profile
sort [] = []
sort (p ∷ ps) = insert p (sort ps)

insert_keeps : (p x : Profile) (qs : List Profile) → IsIn x (insert p qs) → (x ≡ p) ⊎ IsIn x qs
unfolding insert
insert_keeps p x [] m = m
insert_keeps p x (q ∷ qs) m = elim (Bool-cases (str_leb p.name q.name)) [
  | inl e ↦ rw e at m
  | inr e ↦ past (insert_keeps p x qs) (rw e at m)
]
  where
    past :
        (IsIn x (insert p qs) → (x ≡ p) ⊎ IsIn x qs)
        → (x ≡ q) ⊎ IsIn x (insert p qs)
        → (x ≡ p) ⊎ IsIn x (q ∷ qs)
    past f (inl same) = inr (inl same)
    past f (inr n) = elim (f n) [ inl same ↦ inl same | inr o ↦ inr (inr o) ]

insert_has : (p x : Profile) (qs : List Profile) → (x ≡ p) ⊎ IsIn x qs → IsIn x (insert p qs)
unfolding insert
insert_has p x [] m = m
insert_has p x (q ∷ qs) m = elim (Bool-cases (str_leb p.name q.name)) [
  | inl e ↦ rw e m
  | inr e ↦ rw e (past (insert_has p x qs) m)
]
  where
    past :
        ((x ≡ p) ⊎ IsIn x qs → IsIn x (insert p qs))
        → (x ≡ p) ⊎ IsIn x (q ∷ qs)
        → (x ≡ q) ⊎ IsIn x (insert p qs)
    past f (inl same) = inr (f (inl same))
    past f (inr (inl same)) = inl same
    past f (inr (inr n)) = inr (f (inr n))

sort_keeps : (ps : List Profile) (x : Profile) → IsIn x (sort ps) → IsIn x ps
unfolding sort
sort_keeps [] x m = m
sort_keeps (p ∷ ps) x m = elim (insert_keeps p x (sort ps) m) [
  | inl e ↦ inl e
  | inr n ↦ inr (sort_keeps ps x n)
]

sort_has : (ps : List Profile) (x : Profile) → IsIn x ps → IsIn x (sort ps)
unfolding sort
sort_has [] x m = m
sort_has (p ∷ ps) x (inl e) = insert_has p x (sort ps) (inl e)
sort_has (p ∷ ps) x (inr m) = insert_has p x (sort ps) (inr (sort_has ps x m))

-- The first name is the least.
abbrev IsLed : List Profile → Type 0
IsLed [] = Unit
IsLed (p ∷ ps) = (q : Profile) → IsIn q (p ∷ ps) → str_leb p.name q.name ≡ true

leb_refl : (s : Str) → str_leb s s ≡ true
unfolding str_leb
leb_refl [] = refl
leb_refl (a ∷ s) = ground (arith, leb_refl s)

insert-IsLed : (p : Profile) (qs : List Profile) → IsLed qs → IsLed (insert p qs)
unfolding insert
insert-IsLed p [] led = λ q m. elim m [ inl e ↦ rw e (leb_refl p.name) | inr n ↦ absurd n ]
insert-IsLed p (q ∷ qs) led = elim (Bool-cases (str_leb p.name q.name)) [
  | inl e ↦ rw e (first e)
  | inr e ↦ rw e (second e)
]
  where
    first : str_leb p.name q.name ≡ true → IsLed (p ∷ (q ∷ qs))
    first e r (inl same) = rw same (leb_refl p.name)
    first e r (inr m) = str_leb_trans p.name q.name r.name e (led r m)

    second : str_leb p.name q.name ≡ false → IsLed (q ∷ insert p qs)
    second e r (inl same) = rw same (leb_refl q.name)
    second e r (inr m) = elim (insert_keeps p r qs m) [
      | inl same ↦ rw same (str_leb_total p.name q.name e)
      | inr n ↦ led r (inr n)
    ]

sort-IsLed : (ps : List Profile) → IsLed (sort ps)
unfolding sort
sort-IsLed [] = tt
sort-IsLed (p ∷ ps) = insert-IsLed p (sort ps) (sort-IsLed ps)

abbrev key : SetupKey
key =
    object
      (record {
        name = bytes "web";
        ephemeral = true;
        allow_extra_dns_labels = false;
        duration = none;
        auto_groups = [];
      })
      (record { setup_key_id = bytes "k1" })

abbrev profile : Str → Profile
profile name = record {
  name = name;
  setup_key_ref = bytes "web";
  pod_selector = some [];
  injection_mode = sidecar;
  extra_dns_labels = [];
  container_override = none;
}

abbrev profiles : List Profile
profiles = profile (bytes "b") ∷ profile (bytes "a") ∷ []

abbrev injector : Injector (List (Str × Str)) Str
injector = record {
  is_blank = λ s. true;
  selects = λ s. ok (λ labels. true);
  sort_profiles = sort;
  merge = λ c o. ok c;
  list_profiles = λ ns. ok profiles;
  get_setup_key = λ ref. ok key;
  management_url = bytes "https://api.netbird.io";
  client_image = bytes "netbird";
}

least :
    (ps rest : List Profile) (p q : Profile)
    → sort ps ≡ p ∷ rest
    → IsIn q (p ∷ rest)
    → str_leb p.name q.name ≡ true
least ps rest p q e m = let led = sort-IsLed ps in (rw e at led) q m

sort-Sorts : Sorts injector
sort-Sorts = record { keeps = sort_keeps; has = sort_has; least = least }

abbrev pod : Pod
pod = record {
  namespace = bytes "prod";
  labels = [];
  init_containers = [];
  containers = [];
  annotations = (bytes "team", bytes "shop") ∷ [];
}

-- The Pod with the sidecar of the profile `a`.
abbrev with_sidecar : Pod
with_sidecar = annotate injector (bytes "a") (record pod {
  init_containers =
      record {
        spec = base_container injector (profile (bytes "a")) key;
        restart_policy = some (bytes "Always");
      }
      ∷ [];
})

default-Chosen_example :
    (((p : Profile) → IsIn p profiles → ¬ Selects injector p pod.labels) × (with_sidecar ≡ pod))
    ⊎ Chosen injector profiles pod with_sidecar
unfolding default sort insert str_leb
default-Chosen_example = default-Chosen injector sort-Sorts pod with_sidecar refl profiles refl

abbrev proxy : ClusterProxy
proxy =
    object
      (record {
        cluster_name = bytes "prod";
        api_server = [];
        service_account_name = bytes "proxy";
        groups = by_name (bytes "ops") ∷ [];
        replicas = none;
      })
      tt

abbrev server : Server ClusterProxy
server = record quiet { kube_setup_key = λ h ref. ok key }

abbrev digest : Str → Str
digest s = s

set_up-cases_example :
    Waits digest
      (bytes "key")
      (bytes "url")
      server
      library
      ref
      owner
      proxy
      (world proxy)
      (set_up digest (bytes "key") (bytes "url") server library ref owner proxy (world proxy)).1
    ⊎ Deployed digest
        (bytes "key")
        (bytes "url")
        server
        library
        ref
        owner
        proxy
        (world proxy)
        (set_up digest (bytes "key") (bytes "url") server library ref owner proxy (world proxy)).1
unfolding set_up
set_up-cases_example =
    set_up-cases digest (bytes "key") (bytes "url") server library ref owner proxy (world proxy)
      done refl
