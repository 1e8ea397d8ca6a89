-- ===== src/Helper/Decoder.antt =====
-- `RequestDecoder` of crates/velum-helper-protocol/src/lib.rs. A call gives its result and leaves
-- the decoder; a subtraction below 0 is `crashes`.
pub mod Feed
pub mod Filling
pub mod Rounds
pub mod Equivalence
pub mod Valid
pub mod Stream
pub mod Frames
use velum.Prelude.{
  ℕ, zero, suc, ◌+◌, ◌-◌, Bool, true, false, Option, none, some, List, [], ◌∷◌, ◌++◌, Result, ok,
  err, ◌==◌, ltb, leb, if◌then◌else◌, is_empty, length, take, drop, from_be_bytes, checked_sub,
}
use velum.Helper.{
  Request, CodecError, empty_frame, frame_too_large, decode_request, max_frame_length,
  frame_header_length,
}

pub record RequestDecoder : Type 0 where
  pub buffer : List ℕ
  pub expected_body_length : Option ℕ

-- `RequestDecoder::new`, and what `clear` leaves.
abbrev pub cleared : RequestDecoder
cleared = record { buffer = []; expected_body_length = none }

pub data Outcome : Type 0 where
  yields : List Request → RequestDecoder → Outcome
  fails : CodecError → RequestDecoder → Outcome
  crashes out_of_fuel : Outcome

-- What one round of the `loop` does with the bytes that are left: it breaks, returns an error, or
-- goes on with a request more and the bytes that are left then.
pub data Round : Type 0 where
  breaks : RequestDecoder → Round
  returns : CodecError → Round
  goes : Request → List ℕ → Round
  underflows : Round

-- `required.min(bytes.len())`
abbrev pub min_of : ℕ → ℕ → ℕ
min_of a b = if ltb a b then a else b

-- The check of a length in a header.
unfoldable pub checked_length : List ℕ → Result ℕ CodecError
checked_length header =
    let n = from_be_bytes header in
    if n == 0
    then err empty_frame
    else (if ltb max_frame_length n then err frame_too_large else ok n)

module _ (from_slice : List ℕ → Option Request) where
  -- The end of a round, with a whole body in the buffer. `break` on no bytes left is in
  -- `push_loop`.
  abbrev pub finished : Result Request CodecError → List ℕ → Round
  finished (ok request) bytes = goes request bytes
  finished (err error) bytes = returns error

  -- A round from the length of the body on.
  unfoldable pub read_body : ℕ → List ℕ → List ℕ → Round
  read_body body_length buffer bytes = elim (checked_sub body_length (length buffer)) [
    | none ↦ underflows
    | some required ↦
        let consumed = min_of required (length bytes) in
        let filled = buffer ++ take consumed bytes in
        if ltb (length filled) body_length
        then breaks (record { buffer = filled; expected_body_length = some body_length })
        else finished (decode_request from_slice filled) (drop consumed bytes)
  ]

  -- What follows a whole header.
  abbrev pub after_header : Result ℕ CodecError → List ℕ → Round
  after_header (err error) bytes = returns error
  after_header (ok body_length) bytes = read_body body_length [] bytes

  -- A round that begins with a header.
  unfoldable pub read_header : List ℕ → List ℕ → Round
  unfolding checked_length
  read_header buffer bytes = elim (checked_sub frame_header_length (length buffer)) [
    | none ↦ underflows
    | some required ↦
        let consumed = min_of required (length bytes) in
        let filled = buffer ++ take consumed bytes in
        if ltb (length filled) frame_header_length
        then breaks (record { buffer = filled; expected_body_length = none })
        else after_header (checked_length (take frame_header_length filled)) (drop consumed bytes)
  ]

  abbrev pub round_at : Option ℕ → List ℕ → List ℕ → Round
  round_at none buffer bytes = read_header buffer bytes
  round_at (some body_length) buffer bytes = read_body body_length buffer bytes

  -- The `loop` of `push`. A round that goes on takes at least one byte.
  unfoldable pub push_loop : ℕ → RequestDecoder → List ℕ → List Request → Outcome
  unfolding read_body read_header
  push_loop zero self bytes requests = out_of_fuel
  push_loop (suc fuel) self bytes requests =
      elim (round_at self.expected_body_length self.buffer bytes) [
        | breaks left ↦ yields requests left
        | returns error ↦ fails error cleared
        | underflows ↦ crashes
        | goes request rest ↦ elim (is_empty rest) [
          | true ↦ yields (requests ++ (request ∷ [])) cleared
          | false ↦ push_loop fuel cleared rest (requests ++ (request ∷ []))
        ]
      ]

  -- `RequestDecoder::push`
  unfoldable pub push : RequestDecoder → List ℕ → Outcome
  unfolding push_loop
  push self bytes = push_loop (suc (length bytes)) self bytes []
