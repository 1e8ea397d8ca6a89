-- ===== src/Examples/Data.antt =====
-- Concrete values of the types of crates/velum-protocol and crates/velum-session.
use velum.Prelude.{ℕ, List, [], ◌∷◌, none, some, length, refl, bytes_eq, bytes_eq_iff}
use velum.Protocol.Types.{VersionRange, NegotiationOffer, NegotiatedParameters}
use velum.Crypto.{Hmac, AttachmentAuthenticator}
use velum.Session.Tracer.{FlowLimits, SessionTracer}
use velum.Session.Tracer.Send.{fresh_flow}

abbrev pub ones : List ℕ
ones = 1 ∷ 1 ∷ 1 ∷ 1 ∷ 1 ∷ 1 ∷ 1 ∷ 1 ∷ 1 ∷ 1 ∷ 1 ∷ 1 ∷ 1 ∷ 1 ∷ 1 ∷ 1 ∷ []

abbrev pub versions : VersionRange
versions = record { minimum = 1; maximum = 3 }

abbrev pub client_offer : NegotiationOffer
client_offer = record {
  versions = versions;
  capabilities = record { required = 1; optional = 2 };
  client_nonce = ones;
}

abbrev pub agreed : NegotiatedParameters
agreed = record { version = 2; capabilities = 1; client_nonce = ones; server_nonce = ones }

abbrev pub limits : FlowLimits
limits = record {
  max_flows = 4;
  max_pending_segments = 4;
  max_pending_bytes = 64;
  max_session_pending_segments = 8;
  max_session_pending_bytes = 128;
  max_pending_age = 10;
  max_events = 8;
}

abbrev pub new_session : SessionTracer
new_session = record {
  transition = record { current = 0; retiring = none };
  attachment_replay = none;
  negotiated = none;
  accepted_attachment = none;
  retiring_attachment = none;
  tick = 0;
  next_flow = 0;
  pending_segments = 0;
  pending_bytes = 0;
  limits = limits;
  flows = [];
  events = [];
}

-- A flow 0 that has received nothing, and an agreement.
abbrev pub open_session : SessionTracer
open_session = record new_session {
  negotiated = some agreed;
  next_flow = 1;
  flows = (0, fresh_flow) ∷ [];
}

-- A code of 32 bytes that reads the lengths only.
abbrev toy_tag : List ℕ → List ℕ → List ℕ
toy_tag key message =
    length key
    ∷ length message
    ∷ 0
    ∷ 0
    ∷ 0
    ∷ 0
    ∷ 0
    ∷ 0
    ∷ 0
    ∷ 0
    ∷ 0
    ∷ 0
    ∷ 0
    ∷ 0
    ∷ 0
    ∷ 0
    ∷ 0
    ∷ 0
    ∷ 0
    ∷ 0
    ∷ 0
    ∷ 0
    ∷ 0
    ∷ 0
    ∷ 0
    ∷ 0
    ∷ 0
    ∷ 0
    ∷ 0
    ∷ 0
    ∷ 0
    ∷ 0
    ∷ []

abbrev pub toy_hmac : Hmac
toy_hmac = record {
  sign = toy_tag;
  verify_tag = λ key message tag. bytes_eq (toy_tag key message) tag;
  verify_tag_iff = λ key message tag. bytes_eq_iff (toy_tag key message) tag;
  length-sign = λ key message. refl;
}

abbrev pub authenticator : AttachmentAuthenticator
authenticator = record { key = 7 ∷ [] }
