-- ===== src/Gateway.antt =====
-- internal/controller/gateway_controller.go: Gateways and HTTPRoutes translated to NetBird objects.
pub mod Types
pub mod Hostname
pub mod Collect
pub mod Admission
pub mod Backends
pub mod Naming
pub mod Config
pub mod Status
pub mod Classes
pub mod Reconcile
pub mod Translate
