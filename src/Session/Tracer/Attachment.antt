-- ===== src/Session/Tracer/Attachment.antt =====
-- The invariant of `SessionTracer` (crates/velum-session/src/lib.rs) where carriers attach and
-- epochs change.
use velum.Prelude.{
  ◌≡◌, refl, inl, inr, Option, none, some, Option-cases, Result-cases, Run, done, panic, Bool-cases,
  not, ◌||◌, and_run,
}
use velum.Protocol.Types.{Epoch, SessionId, NegotiatedParameters, parameters_eq}
use velum.Telemetry.{transition_completed, transition_rejected, attachment_rejected}
use velum.Crypto.{
  Hmac, AttachmentAuthenticator, verify, accept, accepts, ReplayWindow, window_is_empty,
}
use velum.Session.Transition.{
  TransitionState, EpochValidity, IsTransition, advance, advance-IsTransition, retire_previous,
  validate, current_epoch, retiring_epoch, stale, future,
}
use velum.Session.Tracer.{SessionTracer, AcceptedCarrierAttachment}
use velum.Session.Tracer.Lifecycle
use velum.Session.Tracer.Lifecycle.{
  CarrierAttachment, AttachmentError, AttachmentAcceptance, accepted, already_accepted, replay,
  authentication, negotiation_mismatch, bind_negotiated_parameters, begin_transition,
  begin_explained_transition, negotiate_transition_version, complete_transition, reject_attachment,
  is_accepted, accept_attachment, verify_attachment, stale_epoch, future_epoch,
  authenticate_carrier_attachment,
}
use velum.Session.Tracer.Invariant.{WellFormed, Keeps, record_event-WellFormed}

-- A change of the fields that the accounting does not read.
reattached :
    (t : SessionTracer) (transition : TransitionState) (window : ReplayWindow)
    (parameters : Option NegotiatedParameters) (held old : Option AcceptedCarrierAttachment)
    → WellFormed t
    → IsTransition transition
    → WellFormed (record t {
      transition = transition;
      attachment_replay = window;
      negotiated = parameters;
      accepted_attachment = held;
      retiring_attachment = old;
    })
reattached t transition window parameters held old w ok_transition = record {
  transition_ok = ok_transition;
  rising = w.rising;
  flows_ok = w.flows_ok;
  segments_total = w.segments_total;
  bytes_total = w.bytes_total;
  segments_bound = w.segments_bound;
  bytes_bound = w.bytes_bound;
  flows_bound = w.flows_bound;
  events_bound = w.events_bound;
  events_positive = w.events_positive;
}

begun-Keeps :
    (t : SessionTracer) (m : Run (TransitionState × Option Epoch))
    → WellFormed t
    → ((s : TransitionState) (r : Option Epoch) → m ≡ done (s, r) → IsTransition s)
    → Keeps (
        and_run m
          λ (transition, next). done (Lifecycle.begun (record t { transition = transition }) next))
begun-Keeps t panic w h = tt
begun-Keeps t (done (s, none)) w h =
    reattached t s t.attachment_replay t.negotiated t.accepted_attachment t.retiring_attachment w
      (h s none refl)
begun-Keeps t (done (s, some next)) w h =
    reattached t s t.attachment_replay t.negotiated none t.accepted_attachment w
      (h s (some next) refl)

pub begin_transition-Keeps : (t : SessionTracer) → WellFormed t → Keeps (begin_transition t)
unfolding begin_transition
begin_transition-Keeps t w =
    begun-Keeps t (advance t.transition) w
      λ s r e. advance-IsTransition t.transition s r w.transition_ok e

pub complete_transition-WellFormed :
    (t : SessionTracer) → WellFormed t → WellFormed (complete_transition t)
unfolding complete_transition retire_previous
complete_transition-WellFormed t w = record_event-WellFormed _ transition_completed (
    reattached t (retire_previous t.transition) t.attachment_replay t.negotiated
      t.accepted_attachment none w tt)

pub bind_negotiated_parameters-WellFormed :
    (t : SessionTracer) (p : NegotiatedParameters)
    → WellFormed t
    → WellFormed (bind_negotiated_parameters t p).0
unfolding bind_negotiated_parameters
bind_negotiated_parameters-WellFormed t p w =
    elim (Bool-cases
      (Lifecycle.is_some t.accepted_attachment || not (window_is_empty t.attachment_replay))) [
        | inl c ↦ rw c w
        | inr c ↦ rw c (elim (Bool-cases (Lifecycle.is_some t.negotiated)) [
          | inl d ↦ rw d w
          | inr d ↦ rw d (
              reattached t t.transition t.attachment_replay (some p) t.accepted_attachment
                t.retiring_attachment w w.transition_ok)
        ])
      ]

reject_attachment-WellFormed :
    (t : SessionTracer) (e : AttachmentError) → WellFormed t → WellFormed (reject_attachment t e).0
unfolding reject_attachment
reject_attachment-WellFormed t e w =
    record_event-WellFormed t (transition_rejected attachment_rejected) w

accept_attachment-WellFormed :
    (t : SessionTracer) (a : CarrierAttachment)
    → WellFormed t
    → WellFormed (accept_attachment t a).0
unfolding accept_attachment accept
accept_attachment-WellFormed t a w = elim (Bool-cases (is_accepted t.accepted_attachment a)) [
  | inl c ↦ rw c w
  | inr c ↦ rw c (elim (Bool-cases (accepts t.attachment_replay a.epoch)) [
    | inr d ↦ rw d (reject_attachment-WellFormed t replay w)
    | inl d ↦ rw d (
        reattached t t.transition (some a.epoch) t.negotiated _ t.retiring_attachment w
          w.transition_ok)
  ])
]

module _ (hmac : Hmac) where
  verify_attachment-WellFormed :
      (t : SessionTracer) (auth : AttachmentAuthenticator) (session : SessionId)
      (a : CarrierAttachment) (p : NegotiatedParameters) (v : EpochValidity)
      → WellFormed t
      → WellFormed (verify_attachment hmac t auth session a p v).0
  unfolding verify_attachment
  verify_attachment-WellFormed t auth session a p current_epoch w =
      elim (Result-cases (verify hmac auth session a.epoch a.attachment_id p a.proof)) [
        | inl (_, e) ↦ rw (e, verify_attachment) (accept_attachment-WellFormed t a w)
        | inr (x, e) ↦
            rw (e, verify_attachment) (reject_attachment-WellFormed t (authentication x) w)
      ]
  verify_attachment-WellFormed t auth session a p retiring_epoch w =
      reject_attachment-WellFormed t stale_epoch w
  verify_attachment-WellFormed t auth session a p stale w =
      reject_attachment-WellFormed t stale_epoch w
  verify_attachment-WellFormed t auth session a p future w =
      reject_attachment-WellFormed t future_epoch w

  pub authenticate_carrier_attachment-WellFormed :
      (t : SessionTracer) (auth : AttachmentAuthenticator) (session : SessionId)
      (a : CarrierAttachment)
      → WellFormed t
      → WellFormed (authenticate_carrier_attachment hmac t auth session a).0
  unfolding authenticate_carrier_attachment
  authenticate_carrier_attachment-WellFormed t auth session a w = elim (Option-cases t.negotiated) [
    | inl e ↦ rw (e, authenticate_carrier_attachment) w
    | inr (p, e) ↦
        rw (e, authenticate_carrier_attachment)
          (elim (Bool-cases (parameters_eq a.parameters p)) [
            | inr c ↦ rw c (reject_attachment-WellFormed t negotiation_mismatch w)
            | inl c ↦
                rw c (
                  verify_attachment-WellFormed t auth session a p (validate t.transition a.epoch) w)
          ])
  ]
