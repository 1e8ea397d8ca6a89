-- ===== src/Session/Dispatcher.antt =====
-- crates/velum-session/src/dispatcher.rs: authenticated frames of one carrier drive a session. A
-- call returns the dispatcher, the session and the outcome; a panic of the session is a panic.
pub mod Safety
use velum.Prelude.{
  ℕ, Bool, true, false, not, List, [], ◌∷◌, Result, ok, err, map_err, bytes_eq, if◌then◌else◌, Run,
  done, panic, and_run,
}
use velum.Protocol.Types.{SessionId, Epoch, AttachmentId, NegotiatedParameters}
use velum.Protocol.ErrorCode.{
  ProtocolErrorCode, protocol_violation, authentication_failed, replay_detected, flow_not_found,
  resource_limit, flow_state,
}
use velum.Protocol.Frame.{
  Frame, negotiation_offer, negotiation_accept, attach, attach_accepted, stream_open, stream_data,
  stream_acknowledgement, stream_finish, stream_reset, connection_close, unknown_optional,
}
use velum.Crypto.{Hmac, AttachmentAuthenticator}
use velum.Session.Tracer.{
  SessionTracer, CarrierId, Segment, Acknowledgement, TraceError, Answer, unknown_flow, flow_limit,
  pending_segment_limit, pending_byte_limit, session_pending_segment_limit,
  session_pending_byte_limit,
}
use velum.Session.Tracer.Send.{open_reliable_flow_with_id, acknowledge, reset_reliable_flow}
use velum.Session.Tracer.Receive.{ReceiveResult, receive, finish_receiving}
use velum.Session.Tracer.Lifecycle.{
  AttachmentError, missing_negotiation, negotiation_mismatch, authentication, stale_epoch,
  future_epoch, replay, AttachmentAcceptance, accepted, already_accepted,
  carrier_attachment_is_active, carrier_attachment_is_dispatchable, authenticate_carrier_attachment,
}

pub data DispatchOutcome : Type 0 where
  attachment_accepted attachment_already_accepted : Frame → DispatchOutcome
  flow_opened acknowledged duplicate out_of_order flow_finished : DispatchOutcome
  optional_frame_ignored : DispatchOutcome
  delivered : List ℕ → DispatchOutcome
  flow_reset connection_closed : ProtocolErrorCode → DispatchOutcome

pub data DispatchError : Type 0 where
  closed carrier_not_attached session_mismatch unexpected_frame : DispatchError
  attachment : AttachmentError → DispatchError
  trace : TraceError → DispatchError

-- `DispatchError::error_code`
unfoldable pub error_code : DispatchError → ProtocolErrorCode
error_code closed = protocol_violation
error_code carrier_not_attached = protocol_violation
error_code session_mismatch = protocol_violation
error_code unexpected_frame = protocol_violation
error_code (attachment (authentication error)) = authentication_failed
error_code (attachment negotiation_mismatch) = authentication_failed
error_code (attachment missing_negotiation) = authentication_failed
error_code (attachment replay) = replay_detected
error_code (attachment stale_epoch) = protocol_violation
error_code (attachment future_epoch) = protocol_violation
error_code (trace unknown_flow) = flow_not_found
error_code (trace flow_limit) = resource_limit
error_code (trace pending_segment_limit) = resource_limit
error_code (trace pending_byte_limit) = resource_limit
error_code (trace session_pending_segment_limit) = resource_limit
error_code (trace session_pending_byte_limit) = resource_limit
error_code (trace _) = flow_state

pub record SessionFrameDispatcher : Type 0 where
  pub session_id : SessionId
  pub carrier : CarrierId
  pub authenticator : AttachmentAuthenticator
  pub is_closed : Bool

-- What `dispatch` leaves and returns.
abbrev pub Dispatched : Type 0
Dispatched = SessionFrameDispatcher × SessionTracer × Result DispatchOutcome DispatchError

-- `?` on the answer of a session, with the outcome of its success.
abbrev pub answered {ℓ} :
    {A : Type ℓ} → SessionFrameDispatcher → (A → DispatchOutcome) → Answer A → Dispatched
answered self outcome (session, ok a) = (self, session, ok (outcome a))
answered self outcome (session, err error) = (self, session, err (trace error))

unfoldable pub received : ReceiveResult → DispatchOutcome
received (ReceiveResult.delivered bytes) = delivered bytes
received ReceiveResult.duplicate = duplicate
received ReceiveResult.out_of_order = out_of_order

-- The outcome of `attach` for each acceptance.
unfoldable pub attach_outcome : Frame → AttachmentAcceptance → DispatchOutcome
attach_outcome response accepted = attachment_accepted response
attach_outcome response already_accepted = attachment_already_accepted response

abbrev pub attach_answered :
    SessionFrameDispatcher
    → Frame
    → SessionTracer × Result AttachmentAcceptance AttachmentError
    → Dispatched
attach_answered self response (session, ok acceptance) =
    (self, session, ok (attach_outcome response acceptance))
attach_answered self response (session, err error) = (self, session, err (attachment error))

-- `require_dispatchable_attachment(session)?` and `require_active_attachment(session)?` in front
-- of the rest of an arm.
unfoldable pub with_dispatchable :
    SessionFrameDispatcher → SessionTracer → Run Dispatched → Run Dispatched
with_dispatchable self session rest =
    if carrier_attachment_is_dispatchable session self.carrier
    then rest
    else done (self, session, err carrier_not_attached)

unfoldable pub with_active :
    SessionFrameDispatcher → SessionTracer → Run Dispatched → Run Dispatched
with_active self session rest =
    if carrier_attachment_is_active session self.carrier
    then rest
    else done (self, session, err carrier_not_attached)

module _ (hmac : Hmac) where
  -- `SessionFrameDispatcher::attach`
  unfoldable pub attach_carrier :
      SessionFrameDispatcher
      → SessionTracer
      → SessionId
      → Epoch
      → AttachmentId
      → NegotiatedParameters
      → List ℕ
      → Dispatched
  attach_carrier self session session_id epoch attachment_id parameters proof =
      if not (bytes_eq session_id self.session_id)
      then (self, session, err session_mismatch)
      else attach_answered self (attach_accepted self.session_id epoch attachment_id) (
          authenticate_carrier_attachment hmac session self.authenticator self.session_id (record {
            carrier = self.carrier;
            epoch = epoch;
            attachment_id = attachment_id;
            parameters = parameters;
            proof = proof;
          }))

  -- The `match` of `dispatch` on the frame.
  unfoldable pub dispatch_frame : SessionFrameDispatcher → SessionTracer → Frame → Run Dispatched
  dispatch_frame self session (attach session_id epoch attachment_id parameters proof) =
      done (attach_carrier self session session_id epoch attachment_id parameters proof)
  dispatch_frame self session (stream_open flow_id) =
      with_active self session
        (done (answered self (λ _. flow_opened) (open_reliable_flow_with_id session flow_id)))
  dispatch_frame self session (stream_data flow_id epoch sequence bytes) =
      with_dispatchable self session (
        and_run
          (receive session
            (record { flow_id = flow_id; epoch = epoch; sequence = sequence; bytes = bytes }))
          λ answer. done (answered self received answer))
  dispatch_frame self session (stream_acknowledgement flow_id epoch through) =
      with_dispatchable self session (
        and_run
          (acknowledge session (record { flow_id = flow_id; epoch = epoch; through = through }))
          λ answer. done (answered self (λ _. acknowledged) answer))
  dispatch_frame self session (stream_finish flow_id epoch final_next_sequence) =
      with_dispatchable self session (
        done (
          answered self (λ _. flow_finished)
            (finish_receiving session flow_id epoch final_next_sequence)))
  dispatch_frame self session (stream_reset flow_id error) = with_dispatchable self session (
      and_run (reset_reliable_flow session flow_id)
        λ answer. done (answered self (λ _. flow_reset error) answer))
  dispatch_frame self session (connection_close error) =
      with_dispatchable self session
        (done (record self { is_closed = true }, session, ok (connection_closed error)))
  dispatch_frame self session (unknown_optional frame_type payload) =
      with_dispatchable self session (done (self, session, ok optional_frame_ignored))
  dispatch_frame self session (negotiation_offer offer) = done (self, session, err unexpected_frame)
  dispatch_frame self session (negotiation_accept parameters) =
      done (self, session, err unexpected_frame)
  dispatch_frame self session (attach_accepted session_id epoch attachment_id) =
      done (self, session, err unexpected_frame)

  -- `SessionFrameDispatcher::dispatch`
  unfoldable pub dispatch : SessionFrameDispatcher → SessionTracer → Frame → Run Dispatched
  dispatch self session frame =
      if self.is_closed then done (self, session, err closed) else dispatch_frame self session frame
