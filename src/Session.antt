-- ===== src/Session.antt =====
-- crates/velum-session: the deterministic tracer of reliable streams over changing carriers.
pub mod Transition
pub mod Flows
pub mod Tracer
pub mod Dispatcher
pub mod Calls
