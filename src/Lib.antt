-- ===== src/Lib.antt =====
-- The NetBird operator: Kubernetes controllers that mirror custom resources into the NetBird API.
--
-- The parts and how they interact. A controller's Reconcile reads one object from the cluster,
-- calls the NetBird API and the cluster, and writes the object back. A call is recorded in the
-- history of a World, newest first, and a Server answers it from the calls that went before: a
-- theorem over every Server covers whatever the outside world does between two calls. A method that
-- may fail is an Exec: what it wrote to the object in memory before the failure stays written. Loops
-- are structural recursion on the lists that the source ranges over.
--
-- - Prelude: Boolean tests, lists measured by native numbers, texts as lists of bytes, and integers.
-- - Runtime: errors as the code tells them apart (IsConflict of internal/netbirdutil/errors.go), and
--   the monad Exec.
-- - Cache: listCache of internal/netbirdutil/cache.go; list, refresh, fetchLocked and lookup. Times
--   are in nanoseconds.
-- - Api: the custom resources of api/v1alpha1 by the fields that are read or written, and the
--   requests to the NetBird API. Server: the calls and their answers.
-- - Lookup: GetGroupIDs, GetDNSZoneByName and GetProxyClusterByAddress of internal/netbirdutil, and
--   anotherLiveMatches of internal/controller/reconcile.go.
-- - Mirror: MirrorReconciler of internal/controller/mirror.go over an arbitrary kind. Its children
--   Network, NetworkResource, DnsZone and DnsRecord are the kinds of network_mirror.go,
--   networkresource_mirror.go, dnszone_mirror.go and dnsrecord_mirror.go; Ids has verifyNetbirdID,
--   resolveNetworkID and resolveZoneID. Network.Lifecycle has the runs of its reconciler: any number of
--   calls of Reconcile, each on the object as it is read then.
-- - GroupController, SetupKeyController and NetworkRouter: the files group_controller.go,
--   setupkey_controller.go and networkrouter_controller.go of internal/controller.
-- - LoadBalancer: loadbalancer_controller.go of internal/controller, with the names of serviceaddr.go;
--   Words has the splitting of annotations, and Reconcile the controller and its pruning.
-- - ReverseProxy: reverseproxyservice_mirror.go of internal/controller, as a kind of the mirror
--   reconciler; Apply has the backends that it resolves and the request that it sends, and Digits the
--   text of a port.
-- - ProxyCluster: reverseproxycluster_controller.go of internal/controller. Groups and Workload build
--   the names, the Service and the Deployment of the proxy; Address publishes the addresses of the
--   load balancer as DNS records; Domain is ensureDomain; Reconcile and Delete are the two ways
--   through Reconcile. Its Service is what LoadBalancer reads.
-- - Gateway: gateway_controller.go of internal/controller. Hostname and Admission have
--   hostnameUnderDomain, listenerHostnameMatches, gatewayAdmitsRoute and admittedHostnames; Backends
--   has routeBackends and rulePaths; Naming has safeName and routeChildName; Config has
--   gatewayProxyConfig and the selections of what a change concerns. Collect is the loop with a set of
--   seen texts that two of them share. Status has the conditions and the count of attached routes;
--   Classes, Reconcile and Translate have GatewayClassReconciler, GatewayReconciler and
--   HTTPRouteReconciler, which applies the ReverseProxyServices that ReverseProxy mirrors; Translate.Children reads the
--   calls of a run as the set of the children of a route.
-- - ClusterProxy: clusterproxy_controller.go of internal/controller.
-- - Webhook: the sidecar injection of internal/webhook/v1/pod_webhook.go, on the key that
--   SetupKeyController makes. Selection is about the profiles that select a Pod.
-- - Program: internal/logging/logging.go, internal/version/version.go and the flags that cmd/main.go
--   splits or checks. The level of the log is the signed byte that the verbosity wraps to.
-- - Runtime.Yields: what holds of a value that a method returns, and of the state that it leaves.
-- - Examples: concrete servers and objects on which the theorems are applied.
--
-- Not modelled. Log lines, metrics, the registration with the manager and the watch wiring are left
-- out: they change no state that the code reads; nor are the flags that cmd/main.go only passes on. The digest of SHA-256, the canonical form and the family of an IP address, the functions on
-- finalizers, the sorting of slices, meta.SetStatusCondition, label selectors, the strategic merge
-- patch, the reading of a decimal number, the texts of errors and the tests for absence are
-- parameters, since they are library code. A condition carries no time of its last change, which that
-- library code sets. An integer is unbounded, apart from the level of the log and from the port that a
-- backend asks for, which are cut to eight and to 32 bits: the code only compares the weights and the
-- counts. A duration is in nanoseconds and gives whole seconds, without the rounding of a float64 just
-- below the next second. The one recursion on fuel prints a port: an int32 has at most ten digits, for
-- which the ten of fuel are enough. The generated deep copies and apply configurations are
-- copies of fields, and internal/netbirdmock is a server for the tests.
pub mod Prelude
pub mod Runtime
pub mod Cache
pub mod Api
pub mod Server
pub mod Lookup
pub mod Mirror
pub mod GroupController
pub mod SetupKeyController
pub mod NetworkRouter
pub mod LoadBalancer
pub mod ReverseProxy
pub mod ProxyCluster
pub mod ClusterProxy
pub mod Gateway
pub mod Program
pub mod Webhook
pub mod Examples
