-- ===== src/Lookup.antt =====
-- internal/netbirdutil/group.go, zone.go, cluster.go, and the scan of
-- internal/controller/reconcile.go: from what a resource names to what NetBird holds.
pub mod Laws
use netbird_operator.Prelude.{
  Bool, true, false, not, ◌||◌, Option, none, some, List, [], ◌∷◌, ◌++◌, Str, bytes, is_empty,
  str_eq, if◌then◌else◌,
}
use netbird_operator.Runtime.{Error, Result, ok, err, message, zone_not_found, cluster_not_found}
use netbird_operator.Runtime.Exec.{Exec, pure, raise, attempt, continue, ◌>>=◌}
use netbird_operator.Cache
use netbird_operator.Api.{Object, GroupReference, Group, Reference}
use netbird_operator.Api.Requests.{GroupInfo, Zone, ProxyCluster}
use netbird_operator.Server.{Call, Server, World, ask}

module _ {O : Type 0} (server : Server O) where
  abbrev local_group_id : Group → Exec (World O) (Option Str)
  local_group_id group =
      if is_empty group.status.group_id
      then raise
          (message (bytes "group " ++ (group.meta.name ++ bytes " in groups list is not ready")))
      else pure (some group.status.group_id)

  -- The id of one reference; a reference with no field set is skipped.
  abbrev pub group_id : GroupReference → Str → Exec (World O) (Option Str)
  group_id ref namespace = elim ref.name [
    | some name ↦ do
      group ← ask (Call.groups_get_by_name name) (λ h. server.groups_get_by_name h name)
      pure (some group.id)
    | none ↦ elim ref.id [
      | some id ↦ do
        group ← ask (Call.groups_get id) (λ h. server.groups_get h id)
        pure (some group.id)
      | none ↦ elim ref.local_ref [
        | some name ↦ do
          let key : Reference = record { name = name; namespace = namespace }
          group ← ask (Call.kube_group key) (λ h. server.kube_group h key)
          local_group_id group
        | none ↦ pure none
      ]
    ]
  ]

  abbrev append_id : List Str → Option Str → List Str
  append_id ids none = ids
  append_id ids (some id) = ids ++ id ∷ []

  abbrev group_ids_from : List GroupReference → Str → List Str → Exec (World O) (List Str)
  group_ids_from [] namespace ids = pure ids
  group_ids_from (ref ∷ refs) namespace ids = do
    id ← group_id ref namespace
    group_ids_from refs namespace (append_id ids id)

  -- `GetGroupIDs`
  unfoldable pub get_group_ids : List GroupReference → Str → Exec (World O) (List Str)
  get_group_ids refs namespace = group_ids_from refs namespace []

  abbrev fetch_zones : Cache.Fetch Zone (World O)
  fetch_zones = ask Call.zones_list (λ h. server.zones_list h)

  abbrev zone_or_miss : Str → Result (Option Zone) → Result Zone
  zone_or_miss name (err e) = err e
  zone_or_miss name (ok none) = err (zone_not_found name)
  zone_or_miss name (ok (some zone)) = ok zone

  -- `GetDNSZoneByName`
  unfoldable pub get_dns_zone_by_name : Str → Exec (World O) Zone
  get_dns_zone_by_name name w =
      let (found, cache, w') =
        Cache.lookup w.zones (server.now w.history) fetch_zones (λ z. str_eq z.name name) w in
      (zone_or_miss name found, record w' { zones = cache })

  abbrev pub fetch_clusters : Cache.Fetch ProxyCluster (World O)
  fetch_clusters = ask Call.clusters_list (λ h. server.clusters_list h)

  abbrev cluster_or_miss : Str → Result (Option ProxyCluster) → Result ProxyCluster
  cluster_or_miss address (err e) = err e
  cluster_or_miss address (ok none) = err (cluster_not_found address)
  cluster_or_miss address (ok (some cluster)) = ok cluster

  -- `GetProxyClusterByAddress`
  unfoldable pub get_proxy_cluster_by_address : Str → Exec (World O) ProxyCluster
  get_proxy_cluster_by_address address w =
      let (found, cache, w') =
        Cache.lookup w.clusters (server.now w.history) fetch_clusters
          (λ c. str_eq c.address address) w in
      (cluster_or_miss address found, record w' { clusters = cache })

module _ {S T : Type 0} where
  -- `anotherLiveMatches`
  unfoldable pub another_live_matches : Object S T → List (Object S T) → (Object S T → Bool) → Bool
  another_live_matches self [] match = false
  another_live_matches self (other ∷ others) match =
      let rest = another_live_matches self others match in
      if str_eq other.meta.uid self.meta.uid || other.meta.deleting
      then rest
      else if match other
      then true
      else rest
