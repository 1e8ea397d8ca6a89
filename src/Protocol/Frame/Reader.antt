-- ===== src/Protocol/Frame/Reader.antt =====
-- The `Reader` of crates/velum-protocol/src/frame.rs. A reader over `bytes` at `offset` is the
-- list of the bytes that are left, `bytes[offset..]`; a read returns its value and what is left
-- then. `offset + N` cannot overflow, since no slice is longer than `isize::MAX`.
use velum.Prelude.{
  ℕ, List, Result, ok, err, leb, length, take, drop, if◌then◌else◌, from_be_bytes, ◌>>=◌, map_err,
}
use velum.Protocol.Types.{
  VersionRange, new_version_range, HandshakeNonce, AttachmentId, new_nonce, new_attachment_id,
  NegotiatedParameters,
}
use velum.Protocol.ErrorCode.{ProtocolErrorCode, from_u16}

pub data FrameDecodeError : Type 0 where
  truncated_header : FrameDecodeError
  length_mismatch : ℕ → ℕ → FrameDecodeError
  payload_too_large : ℕ → ℕ → FrameDecodeError
  unknown_mandatory_frame : ℕ → FrameDecodeError
  empty_stream_data : FrameDecodeError
  invalid_payload : FrameDecodeError

abbrev pub Reader {ℓ} : Type ℓ → Type ℓ
Reader A = List ℕ → Result (A × List ℕ) FrameDecodeError

-- `Reader::array::<N>`
unfoldable pub array : ℕ → Reader (List ℕ)
array n bytes =
    if leb n (length bytes) then ok (take n bytes, drop n bytes) else err invalid_payload

unfoldable pub u16 : Reader ℕ
u16 bytes = do (value, rest) ← array 2 bytes; ok (from_be_bytes value, rest)

unfoldable pub u64 : Reader ℕ
u64 bytes = do (value, rest) ← array 8 bytes; ok (from_be_bytes value, rest)

-- A checked constructor at the end of a read: its error is `InvalidPayload`.
abbrev pub checked {ℓ κ} :
    {A : Type ℓ} {E : Type κ} → Result A E → List ℕ → Result (A × List ℕ) FrameDecodeError
checked result rest = map_err (λ _. invalid_payload) result >>= λ value. ok (value, rest)

unfoldable pub version_range : Reader VersionRange
version_range bytes = do
  (minimum, rest) ← u16 bytes
  (maximum, rest') ← u16 rest
  checked (new_version_range minimum maximum) rest'

unfoldable pub nonce : Reader HandshakeNonce
nonce bytes = do (value, rest) ← array 16 bytes; checked (new_nonce value) rest

unfoldable pub attachment_id : Reader AttachmentId
attachment_id bytes = do (value, rest) ← array 16 bytes; checked (new_attachment_id value) rest

unfoldable pub parameters : Reader NegotiatedParameters
parameters bytes = do
  (version, r1) ← u16 bytes
  (capabilities, r2) ← u64 r1
  (client_nonce, r3) ← nonce r2
  (server_nonce, r4) ← nonce r3
  ok (
    record {
      version = version;
      capabilities = capabilities;
      client_nonce = client_nonce;
      server_nonce = server_nonce;
    },
    r4,
  )

unfoldable pub error : Reader ProtocolErrorCode
error bytes = do (value, rest) ← u16 bytes; ok (from_u16 value, rest)
