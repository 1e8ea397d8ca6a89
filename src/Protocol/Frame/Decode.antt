-- ===== src/Protocol/Frame/Decode.antt =====
-- `Frame::decode_payload` and `Frame::decode_exact` of crates/velum-protocol/src/frame.rs.
use velum.Prelude.{
  ℕ, bit_and, not, List, [], ◌∷◌, Result, ok, err, ltb, ◌==◌, length, is_empty, if◌then◌else◌,
  from_be_bytes, ◌>>=◌, map_err,
}
use velum.Protocol.Types.{new_advertisement, new_offer}
use velum.Protocol.Frame.{Frame, optional_frame_bit}
use velum.Protocol.Frame.Reader.{
  FrameDecodeError, Reader, array, u64, version_range, nonce, attachment_id, parameters, error,
  truncated_header, length_mismatch, payload_too_large, unknown_mandatory_frame, empty_stream_data,
  invalid_payload,
}

-- The arms of the `match` on the type byte.
pub data FrameType : Type 0 where
  negotiation_offer negotiation_accept attach attach_accepted stream_open stream_data : FrameType
  stream_ack stream_finish stream_reset connection_close optional mandatory : FrameType

unfoldable pub frame_type_of : ℕ → FrameType
frame_type_of byte =
    if byte == 0x01
    then negotiation_offer
    else (if byte == 0x02
        then negotiation_accept
        else (if byte == 0x03
            then attach
            else (if byte == 0x04
                then attach_accepted
                else (if byte == 0x10
                    then stream_open
                    else (if byte == 0x11
                        then stream_data
                        else (if byte == 0x12
                            then stream_ack
                            else (if byte == 0x13
                                then stream_finish
                                else (if byte == 0x14
                                    then stream_reset
                                    else (if byte == 0x20
                                        then connection_close
                                        else (if not (bit_and byte optional_frame_bit == 0)
                                            then optional
                                            else mandatory))))))))))

unfoldable pub read_offer : Reader Frame
read_offer bytes = do
  (versions, r1) ← version_range bytes
  (required, r2) ← u64 r1
  (optional_set, r3) ← u64 r2
  (client_nonce, r4) ← nonce r3
  capabilities ← map_err (λ _. invalid_payload) (new_advertisement required optional_set)
  offer ← map_err (λ _. invalid_payload) (new_offer versions capabilities client_nonce)
  ok (Frame.negotiation_offer offer, r4)

unfoldable pub read_attach : Reader Frame
read_attach bytes = do
  (session_id, r1) ← array 16 bytes
  (epoch, r2) ← u64 r1
  (attachment, r3) ← attachment_id r2
  (params, r4) ← parameters r3
  (proof, r5) ← array 32 r4
  ok (Frame.attach session_id epoch attachment params proof, r5)

unfoldable pub read_attach_accepted : Reader Frame
read_attach_accepted bytes = do
  (session_id, r1) ← array 16 bytes
  (epoch, r2) ← u64 r1
  (attachment, r3) ← attachment_id r2
  ok (Frame.attach_accepted session_id epoch attachment, r3)

-- The three fields that data, acknowledgement and finish frames begin with.
unfoldable pub read_triple : Reader (ℕ × ℕ × ℕ)
read_triple bytes = do
  (flow_id, r1) ← u64 bytes
  (epoch, r2) ← u64 r1
  (sequence, r3) ← u64 r2
  ok ((flow_id, epoch, sequence), r3)

-- One arm for each type byte; `take_remaining` leaves nothing.
unfoldable pub read_frame : FrameType → ℕ → Reader Frame
read_frame negotiation_offer byte bytes = read_offer bytes
read_frame negotiation_accept byte bytes = do
  (params, rest) ← parameters bytes
  ok (Frame.negotiation_accept params, rest)
read_frame attach byte bytes = read_attach bytes
read_frame attach_accepted byte bytes = read_attach_accepted bytes
read_frame stream_open byte bytes = do
  (flow_id, rest) ← u64 bytes
  ok (Frame.stream_open flow_id, rest)
read_frame stream_data byte bytes = do
  ((flow_id, epoch, sequence), remaining) ← read_triple bytes
  if is_empty remaining
      then err empty_stream_data
      else ok (Frame.stream_data flow_id epoch sequence remaining, [])
read_frame stream_ack byte bytes = do
  ((flow_id, epoch, through), rest) ← read_triple bytes
  ok (Frame.stream_acknowledgement flow_id epoch through, rest)
read_frame stream_finish byte bytes = do
  ((flow_id, epoch, final_next_sequence), rest) ← read_triple bytes
  ok (Frame.stream_finish flow_id epoch final_next_sequence, rest)
read_frame stream_reset byte bytes = do
  (flow_id, rest) ← u64 bytes
  (code, rest') ← error rest
  ok (Frame.stream_reset flow_id code, rest')
read_frame connection_close byte bytes = do
  (code, rest) ← error bytes
  ok (Frame.connection_close code, rest)
read_frame optional byte bytes = ok (Frame.unknown_optional byte bytes, [])
read_frame mandatory byte bytes = err (unknown_mandatory_frame byte)

-- `Frame::decode_payload`: a frame must use up its payload.
unfoldable pub decode_payload : ℕ → List ℕ → Result Frame FrameDecodeError
decode_payload byte payload = do
  (frame, rest) ← read_frame (frame_type_of byte) byte payload
  if is_empty rest then ok frame else err invalid_payload

-- `u16::from_be_bytes([high, low])`, the length in a header.
unfoldable pub header_length : ℕ → ℕ → ℕ
header_length high low = from_be_bytes (high ∷ low ∷ [])

-- `Frame::decode_exact`
unfoldable pub decode_exact : List ℕ → ℕ → Result Frame FrameDecodeError
decode_exact (byte ∷ reserved ∷ high ∷ low ∷ payload) maximum_payload =
    let advertised = header_length high low in
    let actual = length payload in
    if ltb maximum_payload advertised
    then err (payload_too_large maximum_payload advertised)
    else (if not (actual == advertised)
        then err (length_mismatch advertised actual)
        else (if not (reserved == 0) then err invalid_payload else decode_payload byte payload))
decode_exact _ maximum_payload = err truncated_header
