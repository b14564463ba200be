-- ===== src/Runtime.antt =====
-- Errors, fallible stateful code and the objects of the cluster, as the controllers use them.
mod Errors
pub mod Exec
unfoldable pub use Errors.*
pub mod Yields
