-- ===== src/Session/Tracer/Authenticated.antt =====
-- What `authenticate_carrier_attachment` of crates/velum-session/src/lib.rs accepts.
use mathlib.Core.Path.{subst}
use velum.Prelude.{
  ◌≡◌, refl, ap, ◌∙◌, inl, inr, some, Option-cases, Result-cases, arith, Result, ok, err, true,
  Bool-cases, ◌==◌, bytes_eq, bytes_eq_iff, Result,
}
use velum.Protocol.Types.{SessionId, NegotiatedParameters, parameters_eq}
use velum.Crypto.{Hmac, AttachmentAuthenticator, verify, accept, accepts}
use velum.Session.Transition.{EpochValidity, validate, current_epoch, retiring_epoch, stale, future}
use velum.Session.Tracer.{SessionTracer, record_event}
use velum.Session.Tracer.Lifecycle.{
  CarrierAttachment, AttachmentError, AttachmentAcceptance, accepted, already_accepted, replay,
  authentication, negotiation_mismatch, stale_epoch, future_epoch, reject_attachment, is_accepted,
  accept_attachment, verify_attachment, authenticate_carrier_attachment,
}

is_accepted_lem :
    (a : CarrierAttachment)
    → is_accepted
        (some (record { carrier = a.carrier; epoch = a.epoch; attachment_id = a.attachment_id }))
        a
      ≡ true
unfolding is_accepted
is_accepted_lem a =
    let c : (a.carrier == a.carrier) ≡ true = ground arith in
    let e : (a.epoch == a.epoch) ≡ true = ground arith in
    let i : bytes_eq a.attachment_id a.attachment_id ≡ true =
      (bytes_eq_iff a.attachment_id a.attachment_id).1 refl in
    rw (c, e, i) refl

module _ (hmac : Hmac) where
  -- Every condition that an acceptance has met, and what it leaves in the session.
  pub record Granted (t t' : SessionTracer) (auth : AttachmentAuthenticator) (session : SessionId)
      (a : CarrierAttachment) (p : NegotiatedParameters) : Type 0 where
    pub bound : t.negotiated ≡ some p
    pub agreed : parameters_eq a.parameters p ≡ true
    pub current : validate t.transition a.epoch ≡ current_epoch
    pub proven : verify hmac auth session a.epoch a.attachment_id p a.proof ≡ ok tt
    pub fresh : accepts t.attachment_replay a.epoch ≡ true
    pub window : t'.attachment_replay ≡ some a.epoch
    pub held : is_accepted t'.accepted_attachment a ≡ true
    pub negotiated_kept : t'.negotiated ≡ t.negotiated
    pub flows_kept : t'.flows ≡ t.flows
    pub transition_kept : t'.transition ≡ t.transition

  Grants :
      SessionTracer
      → AttachmentAuthenticator
      → SessionId
      → CarrierAttachment
      → SessionTracer × Result AttachmentAcceptance AttachmentError
      → Type 0
  Grants t auth session a (t', ok accepted) =
      (p : NegotiatedParameters) × Granted t t' auth session a p
  Grants t auth session a (t', ok already_accepted) = t' ≡ t
  Grants t auth session a (t', err e) = t'.accepted_attachment ≡ t.accepted_attachment

  reject_attachment-Grants :
      (t : SessionTracer) (auth : AttachmentAuthenticator) (session : SessionId)
      (a : CarrierAttachment) (e : AttachmentError)
      → Grants t auth session a (reject_attachment t e)
  unfolding reject_attachment Grants record_event
  reject_attachment-Grants t auth session a e = refl

  accept_attachment-Grants :
      (t : SessionTracer) (auth : AttachmentAuthenticator) (session : SessionId)
      (a : CarrierAttachment) (p : NegotiatedParameters)
      → t.negotiated ≡ some p
      → parameters_eq a.parameters p ≡ true
      → validate t.transition a.epoch ≡ current_epoch
      → verify hmac auth session a.epoch a.attachment_id p a.proof ≡ ok tt
      → Grants t auth session a (accept_attachment t a)
  unfolding accept_attachment accept Grants
  accept_attachment-Grants t auth session a p bound agreed current proven =
      elim (Bool-cases (is_accepted t.accepted_attachment a)) [
        | inl c ↦ rw c refl
        | inr c ↦ rw c (elim (Bool-cases (accepts t.attachment_replay a.epoch)) [
          | inr d ↦ rw d (reject_attachment-Grants t auth session a replay)
          | inl d ↦ rw d (
            p,
            record {
              bound = bound;
              agreed = agreed;
              current = current;
              proven = proven;
              fresh = d;
              window = refl;
              held = is_accepted_lem a;
              negotiated_kept = refl;
              flows_kept = refl;
              transition_kept = refl;
            },
          )
        ])
      ]

  verify_attachment-Grants :
      (t : SessionTracer) (auth : AttachmentAuthenticator) (session : SessionId)
      (a : CarrierAttachment) (p : NegotiatedParameters) (v : EpochValidity)
      → t.negotiated ≡ some p
      → parameters_eq a.parameters p ≡ true
      → validate t.transition a.epoch ≡ v
      → Grants t auth session a (verify_attachment hmac t auth session a p v)
  unfolding verify_attachment
  verify_attachment-Grants t auth session a p current_epoch bound agreed current =
      elim (Result-cases (verify hmac auth session a.epoch a.attachment_id p a.proof)) [
        | inl (tt, e) ↦
            rw (e, verify_attachment)
              (accept_attachment-Grants t auth session a p bound agreed current e)
        | inr (x, e) ↦
            rw (e, verify_attachment) (reject_attachment-Grants t auth session a (authentication x))
      ]
  verify_attachment-Grants t auth session a p retiring_epoch bound agreed v =
      reject_attachment-Grants t auth session a stale_epoch
  verify_attachment-Grants t auth session a p stale bound agreed v =
      reject_attachment-Grants t auth session a stale_epoch
  verify_attachment-Grants t auth session a p future bound agreed v =
      reject_attachment-Grants t auth session a future_epoch

  authenticate-Grants :
      (t : SessionTracer) (auth : AttachmentAuthenticator) (session : SessionId)
      (a : CarrierAttachment)
      → Grants t auth session a (authenticate_carrier_attachment hmac t auth session a)
  unfolding authenticate_carrier_attachment
  authenticate-Grants t auth session a = elim (Option-cases t.negotiated) [
    | inl e ↦ rw (e, authenticate_carrier_attachment) (unfold Grants in refl)
    | inr (p, e) ↦
        simp (e, authenticate_carrier_attachment)
          (elim (Bool-cases (parameters_eq a.parameters p)) [
            | inr c ↦ rw c (reject_attachment-Grants t auth session a negotiation_mismatch)
            | inl c ↦ rw c (
                verify_attachment-Grants t auth session a p (validate t.transition a.epoch) e c
                  refl)
          ])
  ]

  pub accepted-Granted :
      (t t' : SessionTracer) (auth : AttachmentAuthenticator) (session : SessionId)
      (a : CarrierAttachment)
      → authenticate_carrier_attachment hmac t auth session a ≡ (t', ok accepted)
      → (p : NegotiatedParameters) × Granted t t' auth session a p
  unfolding Grants
  accepted-Granted t t' auth session a e =
      subst (Grants t auth session a) e (authenticate-Grants t auth session a)

  again :
      (t : SessionTracer) (auth : AttachmentAuthenticator) (session : SessionId)
      (a : CarrierAttachment) (p : NegotiatedParameters)
      → t.negotiated ≡ some p
      → parameters_eq a.parameters p ≡ true
      → validate t.transition a.epoch ≡ current_epoch
      → verify hmac auth session a.epoch a.attachment_id p a.proof ≡ ok tt
      → is_accepted t.accepted_attachment a ≡ true
      → authenticate_carrier_attachment hmac t auth session a ≡ (t, ok already_accepted)
  unfolding authenticate_carrier_attachment verify_attachment accept_attachment
  again t auth session a p bound agreed current proven held = simp (
    bound, agreed, current, proven, held, authenticate_carrier_attachment, verify_attachment,
    accept_attachment,
  )

  -- The retry of an attachment right after its acceptance is answered with `AlreadyAccepted` and
  -- changes nothing.
  pub authenticate-retry :
      (t t' : SessionTracer) (auth : AttachmentAuthenticator) (session : SessionId)
      (a : CarrierAttachment)
      → authenticate_carrier_attachment hmac t auth session a ≡ (t', ok accepted)
      → authenticate_carrier_attachment hmac t' auth session a ≡ (t', ok already_accepted)
  authenticate-retry t t' auth session a e =
      let (p, g) = accepted-Granted t t' auth session a e in
      again t' auth session a p (g.negotiated_kept ∙ g.bound) g.agreed
        (ap (λ s. validate s a.epoch) g.transition_kept ∙ g.current) g.proven g.held
