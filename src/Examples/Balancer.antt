-- ===== src/Examples/Balancer.antt =====
-- A LoadBalancer Service with two addresses, and one that is opted out.
use netbird_operator.Gateway.Collect.{mem}
use netbird_operator.Prelude.{
  ◌≡◌, refl, true, Option, some, List, [], ◌∷◌, Str, bytes, str_eq, if◌then◌else◌,
}
use netbird_operator.Runtime.{Error, ok}
use netbird_operator.Api.{Network, NetworkResource, DnsRecord, Ready}
use netbird_operator.Cache
use netbird_operator.Server.{Call, Server, World}
use netbird_operator.Mirror.{done, requeue_after, resync_interval}
use netbird_operator.LoadBalancer.{
  should_advertise, Service, Config, IpFamily, FamilyAddress, advertise_annotation,
}
use netbird_operator.LoadBalancer.Reconcile.{publish, advertised_text, reconcile_service}
use netbird_operator.LoadBalancer.Laws.{
  Pruned, reconcile_service_withdraws, advertised, names_of, publish_prunes,
}
use netbird_operator.Examples.Worlds.{quiet, library, meta, object, owner, ref}

abbrev service : Service
service = record {
  meta = meta;
  is_load_balancer = true;
  annotations = [];
  ingress = bytes "10.0.0.7" ∷ bytes "::1" ∷ [];
}

abbrev config : Config
config = record {
  default_advertise = true;
  namespace = bytes "netbird";
  network = bytes "net";
  dns_zone = bytes "lan";
  dns_zone_groups = [];
  default_groups = bytes "all" ∷ [];
}

abbrev family : Str → Option IpFamily
family t = if str_eq t (bytes "::1") then some IpFamily.ipv6 else some IpFamily.ipv4

abbrev no_text : Error → Str
no_text e = []

abbrev start : World Service
start = record { object = service; zones = Cache.empty; clusters = Cache.empty; history = [] }

abbrev resource : Str → NetworkResource
resource name = record {
  meta = record meta { name = name };
  ready = Ready.unset;
  spec = record {
    network_ref = ref;
    name = name;
    address = [];
    description = [];
    groups = [];
    enabled = true;
  };
  status = record { network_id = []; resource_id = [] };
}

abbrev dns_record : Str → DnsRecord
dns_record name = record {
  meta = record meta { name = name };
  ready = Ready.unset;
  spec = record { zone_ref = ref; name = name; type = []; content = []; ttl = 300 };
  status = record { zone_id = []; record_id = [] };
}

-- It lists a child of a family that is gone, and the children of both addresses.
abbrev server : Server Service
server = record quiet {
  list_resources = λ h ns label. ok (resource (bytes "app-ipv4") ∷ resource (bytes "app-old") ∷ []);
  list_records =
      λ h ns label. ok (dns_record (bytes "app-ipv6") ∷ dns_record (bytes "app-old") ∷ []);
  delete_resource = λ h r. ok tt;
  delete_record = λ h r. ok tt;
}

abbrev network : Network
network =
    object (record { name = bytes "net"; description = [] }) (record { network_id = bytes "n1" })

abbrev opted_out : List (Str × Str)
opted_out = (advertise_annotation, bytes "false") ∷ []

reconcile_service_withdraws_example :
    (done ≡ done)
    × Pruned server library service [] []
        (reconcile_service server library family no_text config service opted_out start).1.history
unfolding should_advertise str_eq reconcile_service mem
reconcile_service_withdraws_example =
    reconcile_service_withdraws server library family no_text config service opted_out start done
      refl refl

abbrev addresses : List FamilyAddress
addresses =
    record { family = IpFamily.ipv4; address = bytes "10.0.0.7" }
    ∷ record { family = IpFamily.ipv6; address = bytes "::1" }
    ∷ []

publish_prunes_example :
    (requeue_after resync_interval ≡ requeue_after resync_interval)
    × Pruned server library service
        (names_of server library family no_text config owner service network [] addresses [])
        (Call.event (advertised_text service network config)
          ∷ advertised server library family no_text config owner service network [] addresses [])
        (publish server library family no_text config owner service network [] addresses
          start).1.history
unfolding publish str_eq mem
publish_prunes_example =
    publish_prunes server library family no_text config owner service network [] addresses start
      (requeue_after resync_interval) refl
