-- ===== src/Session/Tracer/Lifecycle.antt =====
-- Negotiation, carrier attachments and transitions of `SessionTracer` in
-- crates/velum-session/src/lib.rs.
use velum.Prelude.{
  ℕ, Bool, true, false, not, ◌&&◌, ◌||◌, Option, none, some, Result, ok, err, ◌==◌, bytes_eq,
  if◌then◌else◌, Run, done, and_run,
}
use velum.Protocol.Types.{
  Epoch, SessionId, AttachmentId, NegotiatedParameters, VersionRange, negotiate_version,
  parameters_eq,
}
use velum.Telemetry.{
  CarrierKind, TransitionReason, incompatible_version, attachment_rejected, transition_started,
  transition_completed, transition_rejected, carrier_class,
}
use velum.Crypto.{
  Hmac, AttachmentAuthenticator, AttachmentAuthenticationError, AttachmentProof, verify, accept,
  window_is_empty,
}
use velum.Session.Transition.{
  EpochValidity, advance, retire_previous, validate, current_epoch, retiring_epoch, stale, future,
}
use velum.Session.Tracer.{
  SessionTracer, AcceptedCarrierAttachment, CarrierId, Answer, transition_in_progress, record_event,
}

pub record CarrierAttachment : Type 0 where
  pub carrier : CarrierId
  pub epoch : Epoch
  pub attachment_id : AttachmentId
  pub parameters : NegotiatedParameters
  pub proof : AttachmentProof

pub data AttachmentError : Type 0 where
  missing_negotiation negotiation_mismatch : AttachmentError
  authentication : AttachmentAuthenticationError → AttachmentError
  stale_epoch future_epoch replay : AttachmentError

pub data AttachmentAcceptance : Type 0 where
  accepted already_accepted : AttachmentAcceptance

pub data NegotiationBindingError : Type 0 where
  already_bound attachment_already_accepted : NegotiationBindingError

pub data TransitionCompatibilityError : Type 0 where
  no_shared_version : TransitionCompatibilityError

abbrev pub is_some {ℓ} : {A : Type ℓ} → Option A → Bool
is_some none = false
is_some (some a) = true

-- `carrier_attachment_is_active`
unfoldable pub carrier_attachment_is_active : SessionTracer → CarrierId → Bool
carrier_attachment_is_active self carrier = elim self.accepted_attachment [
  | none ↦ false
  | some attachment ↦ attachment.carrier == carrier && attachment.epoch == self.transition.current
]

-- `carrier_attachment_is_dispatchable`
unfoldable pub carrier_attachment_is_dispatchable : SessionTracer → CarrierId → Bool
carrier_attachment_is_dispatchable self carrier =
    carrier_attachment_is_active self carrier || elim self.retiring_attachment [
      | none ↦ false
      | some attachment ↦ attachment.carrier == carrier
    ]

-- `bind_negotiated_parameters`
unfoldable pub bind_negotiated_parameters :
    SessionTracer → NegotiatedParameters → SessionTracer × Result (Unit {0}) NegotiationBindingError
bind_negotiated_parameters self parameters =
    if is_some self.accepted_attachment || not (window_is_empty self.attachment_replay)
    then (self, err attachment_already_accepted)
    else (if is_some self.negotiated
        then (self, err already_bound)
        else (record self { negotiated = some parameters }, ok tt))

-- The two outcomes of `advance` in `begin_transition`.
abbrev pub begun : SessionTracer → Option Epoch → Answer Epoch
begun self none = (self, err transition_in_progress)
begun self (some next) = (
  record self { retiring_attachment = self.accepted_attachment; accepted_attachment = none },
  ok next,
)

-- `begin_transition`
unfoldable pub begin_transition : SessionTracer → Run (Answer Epoch)
begin_transition self =
    and_run (advance self.transition)
      λ (transition, next). done (begun (record self { transition = transition }) next)

-- The event of `begin_explained_transition`, recorded if the transition began.
abbrev pub explained : CarrierKind → CarrierKind → TransitionReason → Answer Epoch → Answer Epoch
explained from to reason (self, err error) = (self, err error)
explained from to reason (self, ok epoch) = (
  record_event self (transition_started (carrier_class from) (carrier_class to) reason),
  ok epoch,
)

-- `begin_explained_transition`
unfoldable pub begin_explained_transition :
    SessionTracer → CarrierKind → CarrierKind → TransitionReason → Run (Answer Epoch)
begin_explained_transition self from to reason =
    and_run (begin_transition self) λ answer. done (explained from to reason answer)

-- `negotiate_transition_version`
unfoldable pub negotiate_transition_version :
    SessionTracer
    → VersionRange
    → VersionRange
    → SessionTracer × Result ℕ TransitionCompatibilityError
negotiate_transition_version self local peer = elim (negotiate_version local peer) [
  | some version ↦ (self, ok version)
  | none ↦ (record_event self (transition_rejected incompatible_version), err no_shared_version)
]

-- `complete_transition`
unfoldable pub complete_transition : SessionTracer → SessionTracer
complete_transition self =
    record_event
      (record self { transition = retire_previous self.transition; retiring_attachment = none })
      transition_completed

-- `reject_attachment`
unfoldable pub reject_attachment :
    SessionTracer → AttachmentError → SessionTracer × Result AttachmentAcceptance AttachmentError
reject_attachment self error =
    (record_event self (transition_rejected attachment_rejected), err error)

-- `self.accepted_attachment == Some(attachment)`
unfoldable pub is_accepted : Option AcceptedCarrierAttachment → CarrierAttachment → Bool
is_accepted none attachment = false
is_accepted (some held) attachment =
    held.carrier == attachment.carrier
    && (held.epoch == attachment.epoch && bytes_eq held.attachment_id attachment.attachment_id)

-- The end of `authenticate_carrier_attachment`, behind the verified proof.
unfoldable pub accept_attachment :
    SessionTracer → CarrierAttachment → SessionTracer × Result AttachmentAcceptance AttachmentError
accept_attachment self attachment =
    if is_accepted self.accepted_attachment attachment
    then (self, ok already_accepted)
    else (let (window, fresh) = accept self.attachment_replay attachment.epoch in
        if not fresh then reject_attachment self replay else (
          record self {
            attachment_replay = window;
            accepted_attachment = some (record {
              carrier = attachment.carrier;
              epoch = attachment.epoch;
              attachment_id = attachment.attachment_id;
            });
          },
          ok accepted,
        ))

module _ (hmac : Hmac) where
  -- The proof is verified in the current epoch only.
  unfoldable pub verify_attachment :
      SessionTracer
      → AttachmentAuthenticator
      → SessionId
      → CarrierAttachment
      → NegotiatedParameters
      → EpochValidity
      → SessionTracer × Result AttachmentAcceptance AttachmentError
  verify_attachment self authenticator session attachment negotiated current_epoch =
      elim (verify hmac authenticator session attachment.epoch attachment.attachment_id negotiated
        attachment.proof) [
          | err error ↦ reject_attachment self (authentication error)
          | ok _ ↦ accept_attachment self attachment
        ]
  verify_attachment self authenticator session attachment negotiated retiring_epoch =
      reject_attachment self stale_epoch
  verify_attachment self authenticator session attachment negotiated stale =
      reject_attachment self stale_epoch
  verify_attachment self authenticator session attachment negotiated future =
      reject_attachment self future_epoch

  -- `authenticate_carrier_attachment`
  unfoldable pub authenticate_carrier_attachment :
      SessionTracer
      → AttachmentAuthenticator
      → SessionId
      → CarrierAttachment
      → SessionTracer × Result AttachmentAcceptance AttachmentError
  authenticate_carrier_attachment self authenticator session attachment = elim self.negotiated [
    | none ↦ (self, err missing_negotiation)
    | some negotiated ↦
        if not (parameters_eq attachment.parameters negotiated)
        then reject_attachment self negotiation_mismatch
        else verify_attachment self authenticator session attachment negotiated
            (validate self.transition attachment.epoch)
  ]
