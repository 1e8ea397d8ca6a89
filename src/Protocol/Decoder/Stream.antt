-- ===== src/Protocol/Decoder/Stream.antt =====
-- `FrameDecoder` (crates/velum-protocol/src/frame.rs) on a stream of encoded frames.
use velum.Prelude.{
  ℕ, suc, ◌+◌, ◌/◌, ◌%◌, ◌≡◌, refl, ap, ◌∙◌, ◌≤◌, ◌<◌, false, List, [], ◌∷◌, ◌++◌, ok, ltb, ge→ltb,
  length, length-append, take, drop, arith, append_assoc, append-nil, to_be_bytes,
}
use velum.Protocol.Frame.{Frame, encode, frame_bytes, max_frame_payload}
use velum.Protocol.Frame.Valid.{IsFrame}
use velum.Protocol.Frame.Decode.{decode_exact, header_length}
use velum.Protocol.Frame.RoundTrip.{
  decode_exact-encode, encode-eq-ok, header_length_lem, length-frame_bytes,
}
use velum.Protocol.Decoder.{breaks, takes, take_frame, round, yields, drain_loop, push_loop, push}

-- A part of an encoding that lacks its end is waited for.
prefix_waits :
    (m t : ℕ) (payload front : List ℕ) (x : ℕ) (back : List ℕ)
    → length payload ≤ m
    → length payload ≤ max_frame_payload
    → front ++ (x ∷ back) ≡ frame_bytes t payload
    → round m front ≡ breaks
unfolding round frame_bytes to_be_bytes
prefix_waits m t payload [] x back h k e = refl
prefix_waits m t payload (a ∷ []) x back h k e = refl
prefix_waits m t payload (a ∷ b ∷ []) x back h k e = refl
prefix_waits m t payload (a ∷ b ∷ c ∷ []) x back h k e = refl
prefix_waits m t payload (a ∷ b ∷ c ∷ d ∷ body) x back h k e =
    let high : c ≡ length payload / 256 % 256 = cc in
    let low : d ≡ length payload % 256 = cc in
    let rest : body ++ (x ∷ back) ≡ payload = cc in
    let total : header_length c d ≡ length payload = omega (arith, header_length_lem c d) in
    let short : length body < length payload =
      omega (arith, ap length rest, length-append body (x ∷ back)) in
    ground arith

take_all : (xs : List ℕ) → take (length xs) xs ≡ xs
take_all [] = refl
take_all (x ∷ xs) = ap (◌∷◌ x) (take_all xs)

drop_all : (xs : List ℕ) → drop (length xs) xs ≡ []
drop_all [] = refl
drop_all (x ∷ xs) = drop_all xs

-- A whole encoding is taken.
whole_taken :
    (m t : ℕ) (payload : List ℕ) (f : Frame)
    → length payload ≤ m
    → length payload ≤ max_frame_payload
    → decode_exact (frame_bytes t payload) m ≡ ok f
    → round m (frame_bytes t payload) ≡ takes f []
unfolding round frame_bytes to_be_bytes take_frame
whole_taken m t payload f h k e =
    let high = length payload / 256 % 256 in
    let low = length payload % 256 in
    let total : header_length high low ≡ length payload =
      omega (arith, header_length_lem high low) in
    let four : 4 + length payload ≡ suc (suc (suc (suc (length payload)))) = omega arith in
    let same : ltb (suc (suc (suc (suc (length payload))))) (suc (suc (suc (suc (length payload)))))
        ≡ false =
      ge→ltb _ _ (omega arith) in
    rw (total, ge→ltb m (length payload) h)
      (rw (four, same) (rw (take_all payload) (rw e (rw (take_frame, drop_all payload)))))

-- A frame with its encoding and a bound that lets it through.
pub record Encoded (m : ℕ) (f : Frame) (bytes : List ℕ) : Type 0 where
  pub valid : IsFrame f
  pub encoded : encode f ≡ ok bytes
  pub accepted : length bytes ≤ m + 4

length-snoc : (xs : List ℕ) (x : ℕ) → length (xs ++ (x ∷ [])) ≡ suc (length xs)
length-snoc xs x = omega (arith, length-append xs (x ∷ []))

drain_waiting :
    (n m : ℕ) (frames : List Frame) (bytes : List ℕ)
    → round m bytes ≡ breaks
    → drain_loop (suc n) m frames bytes ≡ yields frames bytes
unfolding drain_loop
drain_waiting n m frames bytes e = rw (e, drain_loop)

drain_taking :
    (n m : ℕ) (frames : List Frame) (bytes : List ℕ) (f : Frame)
    → round m bytes ≡ takes f []
    → drain_loop (suc (suc n)) m frames bytes ≡ yields (frames ++ (f ∷ [])) []
unfolding drain_loop round
drain_taking n m frames bytes f e = rw (e, drain_loop)

push_waiting :
    (m : ℕ) (frames : List Frame) (front : List ℕ) (x : ℕ) (rest : List ℕ)
    → round m (front ++ (x ∷ [])) ≡ breaks
    → push_loop m frames front (x ∷ rest) ≡ push_loop m frames (front ++ (x ∷ [])) rest
unfolding push_loop
push_waiting m frames front x rest e =
    rw (drain_waiting (length (front ++ (x ∷ []))) m frames (front ++ (x ∷ [])) e)

push_taking :
    (m : ℕ) (frames : List Frame) (front : List ℕ) (x : ℕ) (rest : List ℕ) (f : Frame)
    → round m (front ++ (x ∷ [])) ≡ takes f []
    → push_loop m frames front (x ∷ rest) ≡ push_loop m (frames ++ (f ∷ [])) [] rest
unfolding push_loop
push_taking m frames front x rest f e =
    rw (length-snoc front x) (rw (drain_taking (length front) m frames (front ++ (x ∷ [])) f e))

-- The rest of an encoding, pushed behind its beginning.
push_rest :
    (m t : ℕ) (payload : List ℕ) (f : Frame) (frames : List Frame) (front : List ℕ) (x : ℕ)
    (back more : List ℕ)
    → length payload ≤ m
    → length payload ≤ max_frame_payload
    → decode_exact (frame_bytes t payload) m ≡ ok f
    → front ++ (x ∷ back) ≡ frame_bytes t payload
    → push_loop m frames front ((x ∷ back) ++ more) ≡ push_loop m (frames ++ (f ∷ [])) [] more
push_rest m t payload f frames front x [] more h k e whole =
    push_taking m frames front x more f (rw whole (whole_taken m t payload f h k e))
push_rest m t payload f frames front x (y ∷ back) more h k e whole =
    let grown = append_assoc front (x ∷ []) (y ∷ back) ∙ whole in
    push_waiting m frames front x ((y ∷ back) ++ more)
      (prefix_waits m t payload (front ++ (x ∷ [])) y back h k grown)
    ∙ push_rest m t payload f frames (front ++ (x ∷ [])) y back more h k e grown

push_one :
    (m : ℕ) (f : Frame) (bytes : List ℕ) (frames : List Frame) (more : List ℕ)
    → Encoded m f bytes
    → push_loop m frames [] (bytes ++ more) ≡ push_loop m (frames ++ (f ∷ [])) [] more
unfolding frame_bytes
push_one m f bytes frames more h =
    let (t, payload, parts, small, whole) = encode-eq-ok f bytes h.encoded in
    let bound : length payload ≤ m =
      omega (arith, h.accepted, length-frame_bytes t payload, ap length whole) in
    let decoded = decode_exact-encode f bytes m h.valid h.encoded h.accepted in
    rw whole (push_rest m t payload f frames [] t _ more bound small (rw whole at decoded) refl)

-- The frames of a list of encodings, and their bytes in a row.
abbrev pub AllEncoded : ℕ → List (Frame × List ℕ) → Type 0
AllEncoded m [] = Unit {0}
AllEncoded m ((f, bytes) ∷ items) = Encoded m f bytes × AllEncoded m items

abbrev pub stream_bytes : List (Frame × List ℕ) → List ℕ
stream_bytes [] = []
stream_bytes ((f, bytes) ∷ items) = bytes ++ stream_bytes items

abbrev pub stream_frames : List (Frame × List ℕ) → List Frame
stream_frames [] = []
stream_frames ((f, bytes) ∷ items) = f ∷ stream_frames items

push_all :
    (m : ℕ) (items : List (Frame × List ℕ)) (frames : List Frame)
    → AllEncoded m items
    → push_loop m frames [] (stream_bytes items) ≡ yields (frames ++ stream_frames items) []
push_all m [] frames h = unfold push_loop in rw append-nil
push_all m ((f, bytes) ∷ items) frames h =
    push_one m f bytes frames (stream_bytes items) h.0
    ∙ push_all m items (frames ++ (f ∷ [])) h.1
    ∙ ap (λ (fs : List Frame). yields fs []) (append_assoc frames (f ∷ []) (stream_frames items))

-- An empty decoder that is given the encodings of any valid frames, each within its bound on
-- payloads, returns these frames in order and is empty again.
pub push-stream :
    (m : ℕ) (items : List (Frame × List ℕ))
    → AllEncoded m items
    → push (record { maximum_payload = m; buffered = [] }) (stream_bytes items)
      ≡ yields (stream_frames items) []
unfolding push
push-stream m items h = push_all m items [] h
