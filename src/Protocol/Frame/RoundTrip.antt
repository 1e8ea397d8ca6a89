-- ===== src/Protocol/Frame/RoundTrip.antt =====
-- `Frame::encode` against `Frame::decode_exact` (crates/velum-protocol/src/frame.rs).
use velum.Prelude.{
  ℕ, ◌+◌, ◌*◌, ◌/◌, ◌%◌, ◌≡◌, refl, sym, ap, ◌∙◌, ◌≤◌, List, [], ◌∷◌, ok, length, All, IsByte,
  arith, >>=-eq-ok, to_be_bytes, from_be_bytes, from_be_loop, to-from_be_bytes, ge→ltb,
  ok-injective,
}
use velum.Protocol.Frame.{Frame, encode, encode_payload, frame_bytes, max_frame_payload}
use velum.Protocol.Frame.Valid.{IsFrame}
use velum.Protocol.Frame.Decode.{decode_exact, decode_payload, header_length}
use velum.Protocol.Frame.Forward.{encode_payload-decode}
use velum.Protocol.Frame.Backward.{decode_payload-encode}

pub header_length_lem : (high low : ℕ) → header_length high low ≡ high * 256 + low
unfolding header_length from_be_bytes from_be_loop
header_length_lem high low = omega arith

-- A frame of bytes that is not too long, taken apart.
pub encode-eq-ok :
    (f : Frame) (bytes : List ℕ)
    → encode f ≡ ok bytes
    → (t : ℕ) × (payload : List ℕ) × (encode_payload f ≡ ok (t, payload))
      × (length payload ≤ max_frame_payload)
      × (bytes ≡ frame_bytes t payload)
unfolding encode
encode-eq-ok f bytes e =
    let ((t, payload), parts, sized) = >>=-eq-ok (encode_payload f) _ e in
    (t, payload, parts, ground arith, ground arith)

pub decode_exact-frame_bytes :
    (t : ℕ) (payload : List ℕ) (maximum : ℕ)
    → length payload ≤ maximum
    → length payload ≤ max_frame_payload
    → decode_exact (frame_bytes t payload) maximum ≡ decode_payload t payload
unfolding decode_exact frame_bytes to_be_bytes
decode_exact-frame_bytes t payload maximum h k =
    ground (arith, header_length_lem (length payload / 256 % 256) (length payload % 256))

pub length-frame_bytes :
    (t : ℕ) (payload : List ℕ) → length (frame_bytes t payload) ≡ 4 + length payload
unfolding frame_bytes to_be_bytes
length-frame_bytes t payload = omega arith

decoded_frame :
    (f : Frame) (bytes : List ℕ) (t : ℕ) (payload : List ℕ) (t' : ℕ) (payload' : List ℕ)
    (maximum : ℕ)
    → encode_payload f ≡ ok (t, payload)
    → encode_payload f ≡ ok (t', payload')
    → decode_payload t' payload' ≡ ok f
    → length payload ≤ max_frame_payload
    → bytes ≡ frame_bytes t payload
    → length bytes ≤ maximum + 4
    → decode_exact bytes maximum ≡ ok f
decoded_frame f bytes t payload t' payload' maximum parts parts' decoded small whole fits =
    let (type_same, payload_same) = ok-injective (sym parts ∙ parts') in
    let bound : length payload ≤ maximum =
      omega (arith, length-frame_bytes t payload, ap length whole) in
    rw whole (
      decode_exact-frame_bytes t payload maximum bound small ∙ rw (type_same, payload_same) decoded)

pub decode_exact-encode :
    (f : Frame) (bytes : List ℕ) (maximum : ℕ)
    → IsFrame f
    → encode f ≡ ok bytes
    → length bytes ≤ maximum + 4
    → decode_exact bytes maximum ≡ ok f
decode_exact-encode f bytes maximum h e fits =
    let (t, payload, parts, small, whole) = encode-eq-ok f bytes e in
    let (t', payload', parts', decoded) = encode_payload-decode f h in
    decoded_frame f bytes t payload t' payload' maximum parts parts' decoded small whole fits

-- The header that is read is the header that is written.
framed :
    (f : Frame) (t reserved high low : ℕ) (payload : List ℕ)
    → IsByte high
    → IsByte low
    → header_length high low ≡ length payload
    → reserved ≡ 0
    → encode_payload f ≡ ok (t, payload)
    → encode f ≡ ok (t ∷ reserved ∷ high ∷ low ∷ payload)
unfolding encode frame_bytes header_length
framed f t reserved high low payload hh hl sized zeroed parts =
    rw (parts, zeroed)
      (rw (ge→ltb max_frame_payload (length payload) (omega (arith, header_length_lem high low)))
        (rw (← sized) (rw (to-from_be_bytes (high ∷ low ∷ []) {m = 2} (hh, (hl, tt)) refl))))

-- Decoding is canonical: bytes that decode to a frame are the very bytes that the frame encodes to,
-- and the frame is one that Rust's types allow.
pub encode-decode_exact :
    (bytes : List ℕ) (maximum : ℕ) (f : Frame)
    → All IsByte bytes
    → decode_exact bytes maximum ≡ ok f
    → IsFrame f × (encode f ≡ ok bytes)
unfolding decode_exact
encode-decode_exact [] maximum f h e = cc
encode-decode_exact (a ∷ []) maximum f h e = cc
encode-decode_exact (a ∷ b ∷ []) maximum f h e = cc
encode-decode_exact (a ∷ b ∷ c ∷ []) maximum f h e = cc
encode-decode_exact (t ∷ reserved ∷ high ∷ low ∷ payload) maximum f (ht, (hr, (hh, (hl, hp)))) e =
    let accepted : (header_length high low ≡ length payload)
        × (reserved ≡ 0)
        × (decode_payload t payload ≡ ok f) =
      (ground arith, ground arith, ground arith) in
    let (valid, parts) = decode_payload-encode t payload f ht hp accepted.2 in
    (valid, framed f t reserved high low payload hh hl accepted.0 accepted.1 parts)
