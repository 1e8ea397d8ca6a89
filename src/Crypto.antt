-- ===== src/Crypto.antt =====
-- crates/velum-crypto/src/lib.rs: proofs that bind a carrier to a session, and the replay window.
-- HMAC-SHA256 is the `ring` crate's: a parameter.
pub mod Binding
use velum.Prelude.{
  ℕ, ◌≡◌, ◌↔◌, ◌<◌, Bool, true, false, not, Option, none, some, List, [], ◌∷◌, ◌++◌, Result, ok,
  err, ltb, if◌then◌else◌, is_empty, length, to_be_bytes,
}
use velum.Protocol.Types.{SessionId, Epoch, AttachmentId, NegotiatedParameters, canonical_bytes}

-- `ring::hmac` with SHA-256: a key is the bytes that it is made from; `verify` accepts exactly the
-- tag that `sign` gives; a tag has 32 bytes.
pub record Hmac : Type 0 where
  pub sign : List ℕ → List ℕ → List ℕ
  pub verify_tag : List ℕ → List ℕ → List ℕ → Bool
  pub verify_tag_iff :
      (key message tag : List ℕ) → (verify_tag key message tag ≡ true) ↔ (sign key message ≡ tag)
  pub length-sign : (key message : List ℕ) → length (sign key message) ≡ 32

-- The bytes of "velum v0 attachment key".
abbrev pub attachment_key_label : List ℕ
attachment_key_label =
    b'v' ∷ b'e' ∷ b'l' ∷ b'u' ∷ b'm' ∷ b' ' ∷ b'v' ∷ b'0' ∷ b' ' ∷ b'a' ∷ b't' ∷ b't' ∷ b'a' ∷ b'c'
    ∷ b'h' ∷ b'm' ∷ b'e' ∷ b'n' ∷ b't' ∷ b' ' ∷ b'k' ∷ b'e' ∷ b'y' ∷ []

-- The bytes of "velum v0 carrier attachment".
abbrev pub attachment_context_label : List ℕ
attachment_context_label =
    b'v' ∷ b'e' ∷ b'l' ∷ b'u' ∷ b'm' ∷ b' ' ∷ b'v' ∷ b'0' ∷ b' ' ∷ b'c' ∷ b'a' ∷ b'r' ∷ b'r' ∷ b'i'
    ∷ b'e' ∷ b'r' ∷ b' ' ∷ b'a' ∷ b't' ∷ b't' ∷ b'a' ∷ b'c' ∷ b'h' ∷ b'm' ∷ b'e' ∷ b'n' ∷ b't' ∷ []

abbrev pub AttachmentProof : Type 0
AttachmentProof = List ℕ

pub data AttachmentAuthenticationError : Type 0 where
  empty_secret invalid_proof : AttachmentAuthenticationError

-- The key of an `AttachmentAuthenticator`.
pub record AttachmentAuthenticator : Type 0 where
  pub key : List ℕ

-- `attachment_context`
unfoldable pub attachment_context : SessionId → Epoch → AttachmentId → NegotiatedParameters → List ℕ
attachment_context session epoch attachment_id parameters =
    attachment_context_label
    ++ (session ++ (to_be_bytes 8 epoch ++ (attachment_id ++ canonical_bytes parameters)))

module _ (hmac : Hmac) where
  -- `AttachmentAuthenticator::new`
  unfoldable pub new_authenticator :
      List ℕ → Result AttachmentAuthenticator AttachmentAuthenticationError
  new_authenticator secret =
      if is_empty secret
      then err empty_secret
      else ok (record { key = hmac.sign secret attachment_key_label })

  -- `AttachmentAuthenticator::prove`
  unfoldable pub prove :
      AttachmentAuthenticator
      → SessionId
      → Epoch
      → AttachmentId
      → NegotiatedParameters
      → AttachmentProof
  prove self session epoch attachment_id parameters =
      hmac.sign self.key (attachment_context session epoch attachment_id parameters)

  -- `AttachmentAuthenticator::verify`
  unfoldable pub verify :
      AttachmentAuthenticator
      → SessionId
      → Epoch
      → AttachmentId
      → NegotiatedParameters
      → AttachmentProof
      → Result (Unit {0}) AttachmentAuthenticationError
  verify self session epoch attachment_id parameters proof =
      if hmac.verify_tag self.key (attachment_context session epoch attachment_id parameters) proof
      then ok tt
      else err invalid_proof

-- `ReplayWindow`: the most recent accepted epoch.
abbrev pub ReplayWindow : Type 0
ReplayWindow = Option Epoch

unfoldable pub window_is_empty : ReplayWindow → Bool
window_is_empty none = true
window_is_empty (some latest) = false

unfoldable pub accepts : ReplayWindow → Epoch → Bool
accepts none epoch = true
accepts (some latest) epoch = ltb latest epoch

unfoldable pub accept : ReplayWindow → Epoch → ReplayWindow × Bool
accept self epoch = if not (accepts self epoch) then (self, false) else (some epoch, true)
