-- ===== src/Runtime.antt =====
-- crates/velum-client-runtime: who owns the connection of a client, and its lifecycle.
pub mod Lifecycle
pub mod Control
