-- ===== src/Protocol/Decoder.antt =====
-- `FrameDecoder` of crates/velum-protocol/src/frame.rs, the incremental decoder. `push` changes the
-- decoder also where it returns an error, so each call gives the result and the buffer after it.
pub mod Rounds
pub mod Push
pub mod Split
pub mod Stream
pub mod Poisoned
use velum.Prelude.{
  ℕ, zero, suc, ◌+◌, Bool, true, false, List, [], ◌∷◌, ◌++◌, Result, ok, err, ltb, length, take,
  drop, if◌then◌else◌,
}
use velum.Protocol.Frame.{Frame, frame_header_bytes, max_frame_payload}
use velum.Protocol.Frame.Reader.{FrameDecodeError, payload_too_large}
use velum.Protocol.Frame.Decode.{decode_exact, header_length}

pub record FrameDecoder : Type 0 where
  pub maximum_payload : ℕ
  pub buffered : List ℕ

unfoldable pub new_decoder : ℕ → Result FrameDecoder FrameDecodeError
new_decoder maximum_payload =
    if ltb max_frame_payload maximum_payload
    then err (payload_too_large max_frame_payload maximum_payload)
    else ok (record { maximum_payload = maximum_payload; buffered = [] })

-- What one round of the inner `loop` does: it breaks, returns an error with the buffer that it
-- leaves, or takes a frame off the buffer.
pub data Round : Type 0 where
  breaks : Round
  returns : FrameDecodeError → List ℕ → Round
  takes : Frame → List ℕ → Round

-- `decode_exact(..)?` and `drain(..total)`: an error leaves the buffer as it is.
unfoldable pub take_frame : Result Frame FrameDecodeError → ℕ → List ℕ → Round
take_frame (ok frame) total buffered = takes frame (drop total buffered)
take_frame (err error) total buffered = returns error buffered

unfoldable pub round : ℕ → List ℕ → Round
round maximum_payload (byte ∷ reserved ∷ high ∷ low ∷ body) =
    let buffered : List ℕ = byte ∷ reserved ∷ high ∷ low ∷ body in
    let advertised = header_length high low in
    let total = frame_header_bytes + advertised in
    if ltb maximum_payload advertised
    then returns (payload_too_large maximum_payload advertised) []
    else (if ltb (length buffered) total
        then breaks
        else take_frame (decode_exact (take total buffered) maximum_payload) total buffered)
round maximum_payload _ = breaks

-- What is known behind the inner loop, and behind `push`.
pub data Outcome : Type 0 where
  yields : List Frame → List ℕ → Outcome
  fails : FrameDecodeError → List ℕ → Outcome
  out_of_fuel : Outcome

-- The inner `loop`, with the frames of this call so far. Each round that goes on takes at least a
-- header off the buffer.
unfoldable pub drain_loop : ℕ → ℕ → List Frame → List ℕ → Outcome
drain_loop zero maximum_payload frames buffered = out_of_fuel
drain_loop (suc fuel) maximum_payload frames buffered = elim (round maximum_payload buffered) [
  | breaks ↦ yields frames buffered
  | returns error left ↦ fails error left
  | takes frame left ↦ drain_loop fuel maximum_payload (frames ++ (frame ∷ [])) left
]

-- `?` inside `push`.
abbrev pub and_then : Outcome → (List Frame → List ℕ → Outcome) → Outcome
and_then (yields frames left) next = next frames left
and_then (fails error left) next = fails error left
and_then out_of_fuel next = out_of_fuel

-- The `for byte in bytes` loop.
unfoldable pub push_loop : ℕ → List Frame → List ℕ → List ℕ → Outcome
push_loop maximum_payload frames buffered [] = yields frames buffered
push_loop maximum_payload frames buffered (byte ∷ bytes) =
    let grown = buffered ++ (byte ∷ []) in
    and_then (drain_loop (suc (length grown)) maximum_payload frames grown)
      (λ frames' left. push_loop maximum_payload frames' left bytes)

-- `FrameDecoder::push`
unfoldable pub push : FrameDecoder → List ℕ → Outcome
push self bytes = push_loop self.maximum_payload [] self.buffered bytes

unfoldable pub buffered_len : FrameDecoder → ℕ
buffered_len self = length self.buffered
