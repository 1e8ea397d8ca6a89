-- ===== src/Protocol.antt =====
-- crates/velum-protocol: the carrier-independent types and codecs.
pub mod Types
pub mod ErrorCode
pub mod Frame
pub mod Decoder
pub mod Datagram
