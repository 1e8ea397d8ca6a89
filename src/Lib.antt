-- ===== src/Lib.antt =====
-- Velum: the wire protocol and the logical session that outlives its carriers.
--
-- A peer's bytes reach `FrameDecoder` (crates/velum-protocol/src/frame.rs), which cuts them into
-- frames. `SessionFrameDispatcher` (crates/velum-session/src/dispatcher.rs) takes each frame, checks
-- that the carrier's attachment may send it, and calls `SessionTracer`
-- (crates/velum-session/src/lib.rs), the state of the session. An `attach` frame carries a proof that
-- `AttachmentAuthenticator` (crates/velum-crypto/src/lib.rs) verifies. Epochs of carriers are counted
-- by `TransitionState` (crates/velum-session/src/transition.rs). What both sides may use is agreed on
-- by `NegotiationOffer` (crates/velum-protocol/src/types.rs).
--
-- Prelude: Boolean tests, lists, results, big-endian words, bit sets and masks, and `Run`, a
-- result that may be a panic.
-- Protocol: Types is types.rs, ErrorCode is lib.rs, Frame with Frame/Reader and Frame/Decode is the
-- codec of frame.rs, Decoder is its `FrameDecoder`, and Datagram is datagram.rs. The other files
-- below them hold proofs.
-- Telemetry: the vocabulary of crates/velum-telemetry/src/lib.rs, and the carrier kinds of
-- crates/velum-carrier-api/src/lib.rs.
-- Crypto: crates/velum-crypto/src/lib.rs. HMAC-SHA256 is a parameter, the record `Hmac`, which says
-- that a tag verifies exactly when it is the one that is signed, and that it has 32 bytes.
-- Session: Transition is transition.rs, Tracer with Tracer/Send, Tracer/Receive and Tracer/Lifecycle
-- is lib.rs, Dispatcher is dispatcher.rs. Flows is the `BTreeMap` of flows, an ascending list of
-- pairs. Calls is any sequence of calls on a session. The other files hold proofs.
-- Policy: crates/velum-policy/src/transition.rs, which decides when the carrier is changed.
-- Runtime: Lifecycle is crates/velum-client-runtime/src/state.rs, and Control is the critical sections
-- of `ClientRuntime` in lib.rs beside it, one event each, in any order. Control/Spec is what it
-- promises: one attempt or connection at a time, numbered.
-- Helper: crates/velum-helper-protocol/src/lib.rs, the codec between a client and its privileged host,
-- and Helper/Decoder its `RequestDecoder`. Decoder/Feed is the same machine a byte at a time.
-- Net: addresses and text of the standard library.
-- Tun: FakeDns is the table of fake addresses of crates/velum-adapter-tun/src/fake_dns.rs. Engine is
-- the `TunPolicyEngine` of lib.rs beside it, which asks the table and then the policy of Routing, and
-- Registry its `TunFlowRegistry`, whose leases depend on the generation of the runtime.
-- Routing: crates/velum-client-routing/src/lib.rs, with Routing/Text for what is read from text.
-- Routing/Names and Routing/Normal say what a domain name is, and what a text stands for, apart from it.
-- Examples: concrete runs, private to it.
--
-- Conventions. A method that changes `self` returns the new state with its result. An integer is a
-- natural number, and its width is a hypothesis or written out: `checked_add` fails from 2^64 on,
-- `checked_sub` below 0, and an `expect` or `assert` that fails is `panic`. Counters that the source
-- adds to with `+=` are plain sums; the invariant of a session bounds them by its limits. A Boolean
-- `||` and `&&` have no effects on their right. The three all-zero checks share one function.
-- `FrameDecoder::push` runs an unbounded `loop` per byte; its model has fuel one above the length of
-- the buffer, and each round that goes on takes at least a header of four bytes off it. The `loop` of
-- `RequestDecoder::push` has fuel one above the number of bytes, of which each round takes one at least.
-- A hash map is a list of pairs in the order of insertion. JSON, `str::trim`, the parser of IP addresses
-- and the addition to an `Instant` are parameters.
--
-- Not modelled: the simulator and the campaign of crates/velum-session, threads and
-- locks around a session, the carriers themselves, the streams and datagrams of an online client, the
-- packets, UDP associations and queues of a TUN device, proxies, profiles, servers and their platforms.
pub mod Prelude
pub mod Telemetry
pub mod Protocol
pub mod Crypto
pub mod Session
pub mod Policy
pub mod Runtime
pub mod Helper
pub mod Tun
pub mod Routing
pub mod Net
pub mod Examples
