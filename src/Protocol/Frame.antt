-- ===== src/Protocol/Frame.antt =====
-- crates/velum-protocol/src/frame.rs: the frames of protocol version 0 and their encoding. The
-- `Reader` is in `Frame/Reader`, decoding in `Frame/Decode`, and the `FrameDecoder` in `Decoder`.
pub mod Reader
pub mod Decode
pub mod Layout
pub mod Fields
pub mod Valid
pub mod Triple
pub mod Forward
pub mod Backward
pub mod RoundTrip
use velum.Prelude.{
  ℕ, ◌+◌, bit_and, Bool, true, false, List, [], ◌∷◌, ◌++◌, Result, ok, err, ltb, ◌==◌, length,
  is_empty, if◌then◌else◌, to_be_bytes, ◌>>=◌,
}
use velum.Protocol.Types.{
  FlowId, SessionId, Epoch, Sequence, AttachmentId, NegotiationOffer, NegotiatedParameters,
  VersionRange, canonical_bytes,
}
use velum.Protocol.ErrorCode.{ProtocolErrorCode, as_u16}

abbrev pub frame_header_bytes : ℕ
frame_header_bytes = 4

abbrev pub max_frame_payload : ℕ
max_frame_payload = 65535

abbrev pub optional_frame_bit : ℕ
optional_frame_bit = 0x80

pub data Frame : Type 0 where
  negotiation_offer : NegotiationOffer → Frame
  negotiation_accept : NegotiatedParameters → Frame
  attach : SessionId → Epoch → AttachmentId → NegotiatedParameters → List ℕ → Frame
  attach_accepted : SessionId → Epoch → AttachmentId → Frame
  stream_open : FlowId → Frame
  stream_data : FlowId → Epoch → Sequence → List ℕ → Frame
  stream_acknowledgement : FlowId → Epoch → Sequence → Frame
  stream_finish : FlowId → Epoch → Sequence → Frame
  stream_reset : FlowId → ProtocolErrorCode → Frame
  connection_close : ProtocolErrorCode → Frame
  unknown_optional : ℕ → List ℕ → Frame

pub data FrameEncodeError : Type 0 where
  payload_too_large : ℕ → ℕ → FrameEncodeError
  empty_stream_data : FrameEncodeError
  invalid_optional_frame_type : ℕ → FrameEncodeError

-- The bytes that the `push_` helpers append.
unfoldable pub push_u64 : ℕ → List ℕ
push_u64 value = to_be_bytes 8 value

unfoldable pub push_error : ProtocolErrorCode → List ℕ
push_error error = to_be_bytes 2 (as_u16 error)

unfoldable pub push_version_range : VersionRange → List ℕ
push_version_range range = to_be_bytes 2 range.minimum ++ to_be_bytes 2 range.maximum

-- `Frame::encode_payload`: the type byte and the payload.
unfoldable pub encode_payload : Frame → Result (ℕ × List ℕ) FrameEncodeError
encode_payload (negotiation_offer offer) = ok (
  0x01,
  push_version_range offer.versions
      ++ (push_u64 offer.capabilities.required
          ++ (push_u64 offer.capabilities.optional ++ offer.client_nonce)),
)
encode_payload (negotiation_accept parameters) = ok (0x02, canonical_bytes parameters)
encode_payload (attach session_id epoch attachment_id parameters proof) = ok (
  0x03,
  session_id ++ (push_u64 epoch ++ (attachment_id ++ (canonical_bytes parameters ++ proof))),
)
encode_payload (attach_accepted session_id epoch attachment_id) =
    ok (0x04, session_id ++ (push_u64 epoch ++ attachment_id))
encode_payload (stream_open flow_id) = ok (0x10, push_u64 flow_id)
encode_payload (stream_data flow_id epoch sequence bytes) =
    if is_empty bytes
    then err empty_stream_data
    else ok (0x11, push_u64 flow_id ++ (push_u64 epoch ++ (push_u64 sequence ++ bytes)))
encode_payload (stream_acknowledgement flow_id epoch through) =
    ok (0x12, push_u64 flow_id ++ (push_u64 epoch ++ push_u64 through))
encode_payload (stream_finish flow_id epoch final_next_sequence) =
    ok (0x13, push_u64 flow_id ++ (push_u64 epoch ++ push_u64 final_next_sequence))
encode_payload (stream_reset flow_id error) = ok (0x14, push_u64 flow_id ++ push_error error)
encode_payload (connection_close error) = ok (0x20, push_error error)
encode_payload (unknown_optional frame_type payload) =
    if bit_and frame_type optional_frame_bit == 0
    then err (invalid_optional_frame_type frame_type)
    else ok (frame_type, payload)

-- The header and the payload. The second length check of the source, `u16::try_from`, has the
-- same bound and the same error.
unfoldable pub frame_bytes : ℕ → List ℕ → List ℕ
frame_bytes frame_type payload = frame_type ∷ (0 ∷ (to_be_bytes 2 (length payload) ++ payload))

-- `Frame::encode`
unfoldable pub encode : Frame → Result (List ℕ) FrameEncodeError
encode frame = do
  (frame_type, payload) ← encode_payload frame
  if ltb max_frame_payload (length payload)
      then err (payload_too_large max_frame_payload (length payload))
      else ok (frame_bytes frame_type payload)
