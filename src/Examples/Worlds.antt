-- ===== src/Examples/Worlds.antt =====
-- A quiet server, that has no object and accepts every write to the cluster, and a library of
-- concrete functions.
use netbird_operator.Prelude.{
  ◌≡◌, refl, Bool, true, false, not, some, none, ◌==◌, List, [], ◌∷◌, ◌++◌, Str, bytes, arith,
  str_eq, str_eq_refl, keep, if◌then◌else◌,
}
use netbird_operator.Runtime.{Error, Result, ok, err, api, kube}
use netbird_operator.Cache
use netbird_operator.Api.{Object, Meta, unset, GroupReference, Reference}
use netbird_operator.Api.Requests.{OwnerReference}
use netbird_operator.Server.{Server, Library, World}
use netbird_operator.Gateway.Collect.{mem, mem-snoc}
use netbird_operator.Mirror.Laws.{KeepsFinalizers}

abbrev pub absent : {A : Type 0} → Result A
absent = err (api 404)

abbrev pub quiet : {O : Type 0} → Server O
quiet = record {
  now = λ h. 0;
  get = λ h a. absent;
  patch = λ h a b. ok tt;
  networks_get = λ h a. absent;
  networks_update = λ h a b. absent;
  networks_create = λ h a. absent;
  networks_delete = λ h a. absent;
  resources_get = λ h a b. absent;
  resources_update = λ h a b c. absent;
  resources_create = λ h a b. absent;
  resources_delete = λ h a b. absent;
  routers_get = λ h a b. absent;
  routers_update = λ h a b c. absent;
  routers_create = λ h a b. absent;
  routers_delete = λ h a b. absent;
  zones_list = λ h. ok [];
  zones_get = λ h a. absent;
  zones_update = λ h a b. absent;
  zones_create = λ h a. absent;
  zones_delete = λ h a. absent;
  records_list = λ h a. ok [];
  records_get = λ h a b. absent;
  records_update = λ h a b c. absent;
  records_create = λ h a b. absent;
  records_delete = λ h a b. absent;
  groups_get = λ h a. absent;
  groups_get_by_name = λ h a. absent;
  groups_update = λ h a b. absent;
  groups_create = λ h a. absent;
  groups_delete = λ h a. absent;
  keys_get = λ h a. absent;
  keys_update = λ h a b. absent;
  keys_create = λ h a. absent;
  keys_delete = λ h a. absent;
  clusters_list = λ h. ok [];
  kube_network = λ h a. absent;
  kube_zone = λ h a. absent;
  kube_zones = λ h. ok [];
  kube_group = λ h a. absent;
  kube_setup_key = λ h a. absent;
  kube_secret = λ h a. absent;
  kube_daemon_set = λ h a. absent;
  apply = λ h a. ok tt;
  kube_namespace = λ h a. ok [];
  kube_networks = λ h. ok [];
  list_resources = λ h a b. ok [];
  list_records = λ h a b. ok [];
  delete_resource = λ h a. absent;
  delete_record = λ h a. absent;
  kube_service = λ h a. absent;
  services_update = λ h a b. absent;
  services_create = λ h a. absent;
  services_delete = λ h a. absent;
  tokens_create = λ h a. absent;
  tokens_delete = λ h a. absent;
  domains_list = λ h. ok [];
  domains_create = λ h a. absent;
  domains_delete = λ h a. absent;
  domains_validate = λ h a. absent;
  clusters_delete = λ h a. absent;
  kube_clusters = λ h. ok [];
  kube_cluster = λ h a. absent;
  kube_ingress = λ h a. ok [];
  kube_gateway = λ h a. absent;
  kube_class = λ h a. absent;
  kube_parameters = λ h a. absent;
  kube_routes = λ h. ok [];
  kube_has_secret = λ h a. absent;
  status_update = λ h a. ok tt;
  list_services = λ h a b. ok [];
  delete_service = λ h a. absent;
}

abbrev is_404 : Error → Bool
is_404 (api n) = n == 404
is_404 _ = false

abbrev is_kube_404 : Error → Bool
is_kube_404 (kube n) = n == 404
is_kube_404 _ = false

abbrev pub library : Library
library = record {
  is_not_found = is_404;
  kube_is_not_found = is_kube_404;
  add_finalizer = λ f fs. if mem f fs then fs else fs ++ f ∷ [];
  remove_finalizer = λ f fs. keep (λ g. not (str_eq f g)) fs;
  gvk = ok (bytes "netbird.io/v1alpha1", bytes "Kind");
}

removed_lem : (f : Str) (fs : List Str) → mem f (library.remove_finalizer f fs) ≡ false
unfolding mem
removed_lem f [] = refl
removed_lem f (g ∷ fs) = ground (arith, removed_lem f fs)

added_lem : (f : Str) (fs : List Str) → mem f (library.add_finalizer f fs) ≡ true
added_lem f fs = ground (arith, mem-snoc f f fs, str_eq_refl f)

pub library-KeepsFinalizers : KeepsFinalizers library
library-KeepsFinalizers = record { added = added_lem; removed = removed_lem }

abbrev pub meta : Meta
meta = record {
  name = bytes "app";
  namespace = bytes "prod";
  uid = bytes "u1";
  deleting = false;
  finalizers = [];
}

abbrev pub object : {S T : Type 0} → S → T → Object S T
object spec status = record { meta = meta; ready = unset; spec = spec; status = status }

abbrev pub world : {O : Type 0} → O → World O
world o = record { object = o; zones = Cache.empty; clusters = Cache.empty; history = [] }

abbrev pub owner : OwnerReference
owner = record {
  api_version = bytes "netbird.io/v1alpha1";
  kind = bytes "Kind";
  name = bytes "app";
  uid = bytes "u1";
  controller = true;
  block_owner_deletion = true;
}

abbrev pub by_name : Str → GroupReference
by_name name = record { name = some name; id = none; local_ref = none }

abbrev pub ref : Reference
ref = record { name = bytes "net"; namespace = bytes "prod" }
