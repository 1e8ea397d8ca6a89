-- ===== src/Helper/Decoder/Feed.antt =====
-- A reference for `RequestDecoder::push` (crates/velum-helper-protocol/src/lib.rs): a machine that
-- takes one byte at a time.
use velum.Prelude.{
  ℕ, Option, none, some, List, [], ◌∷◌, ◌++◌, Result, ok, err, ltb, if◌then◌else◌, length,
}
use velum.Helper.{Request, CodecError, decode_request}
use velum.Helper.Decoder.{RequestDecoder, cleared, Outcome, yields, fails, checked_length}

-- What one byte does: the machine waits, has a request, or refuses the input.
pub data Fed : Type 0 where
  waits : RequestDecoder → Fed
  emits : Request → Fed
  refuses : CodecError → Fed

abbrev pub headed : Result ℕ CodecError → Fed
headed (ok n) = waits (record { buffer = []; expected_body_length = some n })
headed (err error) = refuses error

abbrev pub bodied : Result Request CodecError → Fed
bodied (ok request) = emits request
bodied (err error) = refuses error

module _ (from_slice : List ℕ → Option Request) where
  abbrev pub feed_at : Option ℕ → List ℕ → Fed
  feed_at none buffer =
      if ltb (length buffer) 4
      then waits (record { buffer = buffer; expected_body_length = none })
      else headed (checked_length buffer)
  feed_at (some n) buffer =
      if ltb (length buffer) n
      then waits (record { buffer = buffer; expected_body_length = some n })
      else bodied (decode_request from_slice buffer)

  unfoldable pub feed : RequestDecoder → ℕ → Fed
  feed self byte = feed_at self.expected_body_length (self.buffer ++ (byte ∷ []))

  unfoldable pub feed_all : RequestDecoder → List ℕ → List Request → Outcome
  feed_all self [] requests = yields requests self
  feed_all self (byte ∷ bytes) requests = elim (feed self byte) [
    | waits next ↦ feed_all next bytes requests
    | emits request ↦ feed_all cleared bytes (requests ++ (request ∷ []))
    | refuses error ↦ fails error cleared
  ]
