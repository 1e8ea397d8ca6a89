-- ===== src/Session/Calls.antt =====
-- The methods of `SessionTracer` that change a session, in crates/velum-session/src/lib.rs, as
-- the calls that its owners make in any order.
pub mod Reached
use velum.Prelude.{
  ℕ, ◌+◌, ◌≡◌, List, [], ◌∷◌, Run, done, panic, and_run, ◌≤◌, ◌<◌, refl, sym, ltb, ◌&&◌, Bool-cases,
  true, false, inl, inr, length, arith, if◌then◌else◌,
}
use velum.Protocol.Types.{FlowId, Sequence, Epoch, SessionId, NegotiatedParameters, VersionRange}
use velum.Protocol.Frame.{Frame}
use velum.Telemetry.{
  CarrierKind, TransitionReason, transition_started, transition_rejected, incompatible_version,
  carrier_class,
}
use velum.Crypto.{Hmac, AttachmentAuthenticator}
use velum.Session.Transition.{advance, new_transition}
use velum.Session.Tracer.{SessionTracer, FlowLimits, Segment, Acknowledgement, new_tracer, Answer}
use velum.Session.Tracer.Send.{
  open_reliable_flow, open_reliable_flow_with_id, close_reliable_flow, send, acknowledge,
  reset_reliable_flow,
}
use velum.Session.Tracer.Receive.{receive, finish_receiving, advance_time}
use velum.Session.Tracer.Lifecycle
use velum.Session.Tracer.Lifecycle.{
  CarrierAttachment, bind_negotiated_parameters, begin_transition, begin_explained_transition,
  negotiate_transition_version, complete_transition, authenticate_carrier_attachment,
}
use velum.Session.Tracer.Invariant.{WellFormed, Keeps, Returns, record_event-WellFormed}
use velum.Session.Tracer.Preservation.{
  open_reliable_flow_with_id-WellFormed, close_reliable_flow-WellFormed,
  reset_reliable_flow-Returns,
}
use velum.Session.Tracer.Accounting.{acknowledge-Returns, send-Keeps}
use velum.Session.Tracer.Timeouts.{advance_time-Keeps}
use velum.Session.Tracer.Delivery.{receive-Keeps, finish_receiving-WellFormed}
use velum.Session.Tracer.Attachment.{
  begin_transition-Keeps, complete_transition-WellFormed, bind_negotiated_parameters-WellFormed,
  authenticate_carrier_attachment-WellFormed,
}
use velum.Protocol.Types.{negotiate_version}

pub data Call : Type 0 where
  opens : Call
  opens_with_id closes resets : FlowId → Call
  sends : FlowId → List ℕ → Call
  receives : Segment → Call
  finishes : FlowId → Epoch → Sequence → Call
  acknowledges : Acknowledgement → Call
  advances : ℕ → Call
  binds : NegotiatedParameters → Call
  begins completes : Call
  begins_explained : CarrierKind → CarrierKind → TransitionReason → Call
  compares_versions : VersionRange → VersionRange → Call
  authenticates : AttachmentAuthenticator → SessionId → CarrierAttachment → Call

abbrev pub left_by {ℓ} : {A : Type ℓ} → Run (SessionTracer × A) → Run SessionTracer
left_by (done (session, answer)) = done session
left_by panic = panic

module _ (hmac : Hmac) where
  -- The session that a call leaves.
  unfoldable pub perform : SessionTracer → Call → Run SessionTracer
  perform t opens = done (open_reliable_flow t).0
  perform t (opens_with_id k) = done (open_reliable_flow_with_id t k).0
  perform t (closes k) = done (close_reliable_flow t k).0
  perform t (resets k) = left_by (reset_reliable_flow t k)
  perform t (sends k bytes) = left_by (send t k bytes)
  perform t (receives segment) = left_by (receive t segment)
  perform t (finishes k epoch final) = done (finish_receiving t k epoch final).0
  perform t (acknowledges ack) = left_by (acknowledge t ack)
  perform t (advances ticks) = left_by (advance_time t ticks)
  perform t (binds parameters) = done (bind_negotiated_parameters t parameters).0
  perform t begins = left_by (begin_transition t)
  perform t completes = done (complete_transition t)
  perform t (begins_explained from to reason) =
      left_by (begin_explained_transition t from to reason)
  perform t (compares_versions local peer) = done (negotiate_transition_version t local peer).0
  perform t (authenticates auth session a) =
      done (authenticate_carrier_attachment hmac t auth session a).0

  unfoldable pub perform_all : SessionTracer → List Call → Run SessionTracer
  perform_all t [] = done t
  perform_all t (c ∷ calls) = and_run (perform t c) λ t'. perform_all t' calls
