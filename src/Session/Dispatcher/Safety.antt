-- ===== src/Session/Dispatcher/Safety.antt =====
-- What frames of a carrier can do to a session through
-- `SessionFrameDispatcher::dispatch` of crates/velum-session/src/dispatcher.rs.

use velum.Prelude.{
  ℕ, ◌≡◌, refl, inl, inr, List, Result, ok, err, Bool-cases, bytes_eq, Run, done, panic, and_run,
}
use velum.Protocol.Types.{SessionId, Epoch, AttachmentId, NegotiatedParameters}
use velum.Protocol.Frame.{
  Frame, negotiation_offer, negotiation_accept, attach, attach_accepted, stream_open, stream_data,
  stream_acknowledgement, stream_finish, stream_reset, connection_close, unknown_optional,
}
use velum.Crypto.{Hmac}
use velum.Session.Tracer.{SessionTracer, Answer}
use velum.Session.Tracer.Lifecycle.{
  carrier_attachment_is_active, carrier_attachment_is_dispatchable, AttachmentAcceptance,
  AttachmentError,
}
use velum.Session.Tracer.Receive.{finish_receiving}
use velum.Session.Tracer.Send.{open_reliable_flow_with_id}
use velum.Session.Tracer.Invariant.{WellFormed, Returns}
use velum.Session.Tracer.Preservation.{
  open_reliable_flow_with_id-WellFormed, reset_reliable_flow-Returns,
}
use velum.Session.Tracer.Accounting.{acknowledge-Returns}
use velum.Session.Tracer.Delivery.{finish_receiving-WellFormed}
use velum.Session.Tracer.Progress.{Unexhausted, receive-Returns}
use velum.Session.Tracer.Attachment.{authenticate_carrier_attachment-WellFormed}
use velum.Session.Dispatcher.{
  SessionFrameDispatcher, Dispatched, DispatchOutcome, DispatchError, answered, received,
  attach_answered, with_dispatchable, with_active, attach_carrier, dispatch_frame, dispatch,
}

abbrev Leaves : Run Dispatched → Type 0
Leaves (done (self, t, result)) = WellFormed t
Leaves panic = ⊥

answered-Leaves {ℓ} :
    {A : Type ℓ} (self : SessionFrameDispatcher) (outcome : A → DispatchOutcome) (a : Answer A)
    → WellFormed a.0
    → Leaves (done (answered self outcome a))
answered-Leaves self outcome (t, ok a) w = w
answered-Leaves self outcome (t, err e) w = w

answered_run-Leaves {ℓ} :
    {A : Type ℓ} (self : SessionFrameDispatcher) (outcome : A → DispatchOutcome)
    (m : Run (Answer A))
    → Returns m
    → Leaves (and_run m λ answer. done (answered self outcome answer))
answered_run-Leaves self outcome panic w = w
answered_run-Leaves self outcome (done a) w = answered-Leaves self outcome a w

attach_answered-Leaves :
    (self : SessionFrameDispatcher) (response : Frame)
    (a : SessionTracer × Result AttachmentAcceptance AttachmentError)
    → WellFormed a.0
    → Leaves (done (attach_answered self response a))
attach_answered-Leaves self response (t, ok a) w = w
attach_answered-Leaves self response (t, err e) w = w

left_by_run :
    (m : Run Dispatched)
    → Leaves m
    → (self : SessionFrameDispatcher) × (t : SessionTracer) × (result : Result DispatchOutcome
        DispatchError)
      × (m ≡ done (self, t, result))
      × WellFormed t
left_by_run (done (self, t, result)) w = (self, t, result, refl, w)
left_by_run panic w = absurd w

with_dispatchable-Leaves :
    (self : SessionFrameDispatcher) (t : SessionTracer) (rest : Run Dispatched)
    → WellFormed t
    → Leaves rest
    → Leaves (with_dispatchable self t rest)
unfolding with_dispatchable
with_dispatchable-Leaves self t rest w h =
    elim (Bool-cases (carrier_attachment_is_dispatchable t self.carrier)) [
      | inl c ↦ rw c h
      | inr c ↦ rw c w
    ]

with_active-Leaves :
    (self : SessionFrameDispatcher) (t : SessionTracer) (rest : Run Dispatched)
    → WellFormed t
    → Leaves rest
    → Leaves (with_active self t rest)
unfolding with_active
with_active-Leaves self t rest w h =
    elim (Bool-cases (carrier_attachment_is_active t self.carrier)) [
      | inl c ↦ rw c h
      | inr c ↦ rw c w
    ]

-- A frame that asks for an attachment.
abbrev pub IsAttach : Frame → Type 0
IsAttach (attach session_id epoch attachment_id parameters proof) = Unit {0}
IsAttach _ = ⊥

module _ (hmac : Hmac) where
  attach_carrier-Leaves :
      (self : SessionFrameDispatcher) (t : SessionTracer) (session : SessionId) (epoch : Epoch)
      (id : AttachmentId) (p : NegotiatedParameters) (proof : List ℕ)
      → WellFormed t
      → Leaves (done (attach_carrier hmac self t session epoch id p proof))
  unfolding attach_carrier
  attach_carrier-Leaves self t session epoch id p proof w =
      elim (Bool-cases (bytes_eq session self.session_id)) [
        | inr c ↦ rw c w
        | inl c ↦ rw c (
            attach_answered-Leaves self _ _ (
              authenticate_carrier_attachment-WellFormed hmac t self.authenticator self.session_id _
                w))
      ]

  dispatch_frame-Leaves :
      (self : SessionFrameDispatcher) (t : SessionTracer) (frame : Frame)
      → WellFormed t
      → Unexhausted t
      → Leaves (dispatch_frame hmac self t frame)
  unfolding dispatch_frame
  dispatch_frame-Leaves self t (attach session epoch id p proof) w room =
      attach_carrier-Leaves self t session epoch id p proof w
  dispatch_frame-Leaves self t (stream_open k) w room = with_active-Leaves self t _ w (
      answered-Leaves self _ (open_reliable_flow_with_id t k)
        (open_reliable_flow_with_id-WellFormed t k w))
  dispatch_frame-Leaves self t (stream_data k epoch sequence bytes) w room =
      with_dispatchable-Leaves self t _ w
        (answered_run-Leaves self received _ (receive-Returns t _ w room))
  dispatch_frame-Leaves self t (stream_acknowledgement k epoch through) w room =
      with_dispatchable-Leaves self t _ w (answered_run-Leaves self _ _ (acknowledge-Returns t _ w))
  dispatch_frame-Leaves self t (stream_finish k epoch final) w room =
      with_dispatchable-Leaves self t _ w (
        answered-Leaves self _ (finish_receiving t k epoch final)
          (finish_receiving-WellFormed t k epoch final w))
  dispatch_frame-Leaves self t (stream_reset k e) w room =
      with_dispatchable-Leaves self t _ w
        (answered_run-Leaves self _ _ (reset_reliable_flow-Returns t k w))
  dispatch_frame-Leaves self t (connection_close e) w room = with_dispatchable-Leaves self t _ w w
  dispatch_frame-Leaves self t (unknown_optional type payload) w room =
      with_dispatchable-Leaves self t _ w w
  dispatch_frame-Leaves self t (negotiation_offer offer) w room = w
  dispatch_frame-Leaves self t (negotiation_accept p) w room = w
  dispatch_frame-Leaves self t (attach_accepted session epoch id) w room = w

  dispatch-Leaves :
      (self : SessionFrameDispatcher) (t : SessionTracer) (frame : Frame)
      → WellFormed t
      → Unexhausted t
      → Leaves (dispatch hmac self t frame)
  unfolding dispatch
  dispatch-Leaves self t frame w room = elim (Bool-cases self.is_closed) [
    | inl c ↦ rw c w
    | inr c ↦ simp c (dispatch_frame-Leaves self t frame w room)
  ]

  -- Whatever frame a peer sends to a well-formed session in which each flow next receives a sequence
  -- number below 2^64 - 1, `dispatch` returns without a panic and leaves a well-formed session.
  pub dispatch-WellFormed :
      (self : SessionFrameDispatcher) (t : SessionTracer) (frame : Frame)
      → WellFormed t
      → Unexhausted t
      → (self' : SessionFrameDispatcher) × (t' : SessionTracer) × (result : Result DispatchOutcome
          DispatchError)
        × (dispatch hmac self t frame ≡ done (self', t', result))
        × WellFormed t'
  dispatch-WellFormed self t frame w room =
      left_by_run (dispatch hmac self t frame) (dispatch-Leaves self t frame w room)
