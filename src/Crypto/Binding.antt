-- ===== src/Crypto/Binding.antt =====
-- The bytes that an attachment proof of crates/velum-crypto/src/lib.rs covers.
use velum.Prelude.{
  ℕ, ◌≡◌, sym, ap, ◌∙◌, List, [], ◌++◌, ok, IsU64, IsArray, ◌>>=◌, to_be_bytes, ok-injective,
}
use velum.Protocol.Types.{SessionId, Epoch, AttachmentId, NegotiatedParameters, canonical_bytes}
use velum.Protocol.Types.Valid.{IsNonce, IsParameters}
use velum.Protocol.Frame.Reader.{Reader, array, u64, attachment_id, parameters}
use velum.Protocol.Frame.Layout.{array-Reads, u64-Reads, forward_end}
use velum.Protocol.Frame.Fields.{attachment_id-Reads, parameters-Reads}
use velum.Crypto.{attachment_context}

-- The fields that a proof is about, and what Rust's types say of them.
pub record Binding : Type 0 where
  pub session : SessionId
  pub epoch : Epoch
  pub attachment : AttachmentId
  pub parameters : NegotiatedParameters

pub record IsBinding (b : Binding) : Type 0 where
  pub session_ok : IsArray 16 b.session
  pub epoch_fits : IsU64 b.epoch
  pub attachment_ok : IsNonce b.attachment
  pub parameters_ok : IsParameters b.parameters

abbrev pub context : Binding → List ℕ
context b = attachment_context b.session b.epoch b.attachment b.parameters

abbrev read_binding : Reader Binding
read_binding bytes = do
  (s, r1) ← array 16 bytes
  (e, r2) ← u64 r1
  (a, r3) ← attachment_id r2
  (p, r4) ← parameters r3
  ok (record { session = s; epoch = e; attachment = a; parameters = p }, r4)

abbrev after_label : Binding → List ℕ
after_label b =
    b.session ++ (to_be_bytes 8 b.epoch ++ (b.attachment ++ canonical_bytes b.parameters))

read_after_label : (b : Binding) → IsBinding b → read_binding (after_label b) ≡ ok (b, [])
read_after_label b h = rw ((array-Reads 16).forward b.session _ h.session_ok) (
    rw (u64-Reads.forward b.epoch _ h.epoch_fits) (
      rw (attachment_id-Reads.forward b.attachment _ h.attachment_ok)
        (rw (forward_end parameters-Reads b.parameters h.parameters_ok))))

-- The authenticated bytes determine the session, the epoch, the attachment and the negotiated
-- parameters: no two different bindings have the same context.
pub context-injective : (b c : Binding) → IsBinding b → IsBinding c → context b ≡ context c → b ≡ c
unfolding attachment_context
context-injective b c hb hc e =
    let same : after_label b ≡ after_label c = cc in
    (ok-injective (sym (read_after_label b hb) ∙ ap read_binding same ∙ read_after_label c hc)).0
