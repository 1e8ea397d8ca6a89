-- ===== src/Session/Tracer.antt =====
-- `SessionTracer` of crates/velum-session/src/lib.rs: the state of one logical session. A method
-- that changes the session returns it with its result; a failed `expect` or `assert` is `panic`.
pub mod Send
pub mod Receive
pub mod Lifecycle
pub mod Invariant
pub mod Preservation
pub mod Accounting
pub mod Timeouts
pub mod Acknowledged
pub mod Attachment
pub mod Authenticated
pub mod Delivery
pub mod Progress
pub mod Resumed
pub mod InOrder
use velum.Prelude.{
  ℕ, suc, ◌+◌, Bool, true, false, ◌&&◌, Option, none, some, List, [], ◌∷◌, ◌++◌, Result, ok, err,
  ltb, leb, ◌==◌, if◌then◌else◌, length, drop, Run, done, panic,
}
use velum.Protocol.Types.{FlowId, Epoch, Sequence, AttachmentId, NegotiatedParameters}
use velum.Telemetry.{SessionEvent}
use velum.Crypto.{ReplayWindow}
use velum.Session.Transition.{
  TransitionState, new_transition, validate, current_epoch, retiring_epoch, stale, future,
}

abbrev pub CarrierId : Type 0
CarrierId = ℕ

pub record Segment : Type 0 where
  pub flow_id : FlowId
  pub epoch : Epoch
  pub sequence : Sequence
  pub bytes : List ℕ

pub record Acknowledgement : Type 0 where
  pub flow_id : FlowId
  pub epoch : Epoch
  pub through : Sequence

pub record FlowLimits : Type 0 where
  pub max_flows : ℕ
  pub max_pending_segments : ℕ
  pub max_pending_bytes : ℕ
  pub max_session_pending_segments : ℕ
  pub max_session_pending_bytes : ℕ
  pub max_pending_age : ℕ
  pub max_events : ℕ

pub data TraceError : Type 0 where
  unknown_flow flow_limit pending_segment_limit pending_byte_limit : TraceError
  session_pending_segment_limit session_pending_byte_limit flow_has_pending_segments : TraceError
  flow_finished invalid_acknowledgement transition_in_progress stale_epoch future_epoch : TraceError

pub record PendingSegment : Type 0 where
  pub segment : Segment
  pub expires_at : ℕ

pub record ReliableFlow : Type 0 where
  pub next_send : Sequence
  pub next_receive : Sequence
  pub receive_final_next : Option Sequence
  pub pending : List PendingSegment
  pub pending_bytes : ℕ

pub record AcceptedCarrierAttachment : Type 0 where
  pub carrier : CarrierId
  pub epoch : Epoch
  pub attachment_id : AttachmentId

pub record SessionTracer : Type 0 where
  pub transition : TransitionState
  pub attachment_replay : ReplayWindow
  pub negotiated : Option NegotiatedParameters
  pub accepted_attachment : Option AcceptedCarrierAttachment
  pub retiring_attachment : Option AcceptedCarrierAttachment
  pub tick : ℕ
  pub next_flow : ℕ
  pub pending_segments : ℕ
  pub pending_bytes : ℕ
  pub limits : FlowLimits
  pub flows : List (FlowId × ReliableFlow)
  pub events : List SessionEvent

-- What a method returns with the session that it leaves.
abbrev pub Answer {ℓ} : Type ℓ → Type ℓ
Answer A = SessionTracer × Result A TraceError

-- `SessionTracer::new`; its assertions hold where every limit is positive.
unfoldable pub new_tracer : Epoch → FlowLimits → Run SessionTracer
unfolding new_transition
new_tracer epoch limits =
    if ltb 0 limits.max_pending_segments
      && (ltb 0 limits.max_pending_bytes
          && (ltb 0 limits.max_session_pending_segments
              && (ltb 0 limits.max_session_pending_bytes
                  && (ltb 0 limits.max_pending_age
                      && (ltb 0 limits.max_flows && ltb 0 limits.max_events)))))
    then done (record {
      transition = new_transition epoch;
      attachment_replay = none;
      negotiated = none;
      accepted_attachment = none;
      retiring_attachment = none;
      tick = 0;
      next_flow = 0;
      pending_segments = 0;
      pending_bytes = 0;
      limits = limits;
      flows = [];
      events = [];
    })
    else panic

-- `record_event`: a full log loses its oldest event. `events.remove(0)` finds one, since
-- `max_events` is positive.
unfoldable pub record_event : SessionTracer → SessionEvent → SessionTracer
record_event self event =
    let kept =
      if leb self.limits.max_events (length self.events) then drop 1 self.events else self.events in
    record self { events = kept ++ (event ∷ []) }

-- `require_valid_epoch`
unfoldable pub require_valid_epoch : SessionTracer → Epoch → Result (Unit {0}) TraceError
unfolding validate
require_valid_epoch self epoch = elim (validate self.transition epoch) [
  | current_epoch ↦ ok tt
  | retiring_epoch ↦ ok tt
  | stale ↦ err stale_epoch
  | future ↦ err future_epoch
]
