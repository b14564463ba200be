-- ===== src/Examples.antt =====
-- Concrete servers, a library and objects on which the theorems are tried.
pub mod Worlds
mod Cluster
mod Controllers
pub mod Routes
mod Names
mod Balancer
mod Sidecars
mod Proxy
pub mod Clusters
mod Gateways
mod Runs
