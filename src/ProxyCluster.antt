-- ===== src/ProxyCluster.antt =====
-- internal/controller/reverseproxycluster_controller.go: the names, the groups and the objects of a
-- reverse-proxy cluster.
pub mod Groups
pub mod Workload
pub mod Address
pub mod Domain
pub mod Reconcile
pub mod Delete
pub mod Laws
