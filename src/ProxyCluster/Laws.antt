-- ===== src/ProxyCluster/Laws.antt =====
-- The properties of the reverse-proxy cluster controller (reverseproxycluster_controller.go).
pub mod Addresses
pub mod Records
pub mod Sharing
pub mod Schedule
pub mod Ready
