-- ===== src/Helper/Decoder/Valid.antt =====
-- What `RequestDecoder` (crates/velum-helper-protocol/src/lib.rs) holds between two calls.
use velum.Prelude.{
  ℕ, ◌≡◌, refl, ◌≤◌, ◌<◌, Option, none, some, List, [], ◌∷◌, ◌++◌, Result, ok, err, ltb, ltb→lt,
  Bool-cases, inl, inr, length, arith,
}
use velum.Helper.{Request, CodecError, max_frame_length, decode_request}
use velum.Helper.Decoder.{
  RequestDecoder, cleared, Outcome, yields, fails, crashes, out_of_fuel, checked_length, push,
}
use velum.Helper.Decoder.Feed.{Fed, waits, emits, refuses, headed, bodied, feed_at, feed, feed_all}
use velum.Helper.Decoder.Filling.{wanted, resume}
use velum.Helper.Decoder.Equivalence.{IsReady, push-feed_all}

abbrev pub IsAllowed : Option ℕ → Type 0
IsAllowed none = Unit
IsAllowed (some n) = n ≤ max_frame_length

-- The buffer is shorter than what the decoder waits for, and a body it waits for is within the
-- bound.
abbrev pub IsValid : RequestDecoder → Type 0
IsValid self = IsReady self × IsAllowed self.expected_body_length

-- A call that returns leaves a valid decoder, and an error the cleared one.
abbrev pub IsSafe : Outcome → Type 0
IsSafe (yields requests self) = IsValid self × (length self.buffer < max_frame_length)
IsSafe (fails error self) = self ≡ cleared
IsSafe crashes = ⊥
IsSafe out_of_fuel = ⊥

IsValid-length : (self : RequestDecoder) → IsValid self → length self.buffer < max_frame_length
IsValid-length self h = below self.expected_body_length h.0 h.1
  where
    below :
        (e : Option ℕ)
        → length self.buffer < wanted e
        → IsAllowed e
        → length self.buffer < max_frame_length
    below none less allowed = omega arith
    below (some n) less allowed = omega arith

checked_length-bounds :
    (header : List ℕ) (n : ℕ) → checked_length header ≡ ok n → (0 < n) × (n ≤ 65536)
unfolding checked_length
checked_length-bounds header n h = (ground arith, ground arith)

abbrev FedIsValid : Fed → Type 0
FedIsValid (waits next) = IsValid next
FedIsValid (emits request) = Unit
FedIsValid (refuses error) = Unit

headed-IsValid :
    (r : Result ℕ CodecError) → ((n : ℕ) → r ≡ ok n → (0 < n) × (n ≤ 65536)) → FedIsValid (headed r)
headed-IsValid (ok n) h = h n refl
headed-IsValid (err error) h = tt

bodied-IsValid : (r : Result Request CodecError) → FedIsValid (bodied r)
bodied-IsValid (ok request) = tt
bodied-IsValid (err error) = tt

module _ (from_slice : List ℕ → Option Request) where
  feed_at-IsValid :
      (e : Option ℕ) (buffer : List ℕ) → IsAllowed e → FedIsValid (feed_at from_slice e buffer)
  feed_at-IsValid none buffer h = elim (Bool-cases (ltb (length buffer) 4)) [
    | inl short ↦ rw short (ltb→lt (length buffer) 4 short, tt)
    | inr enough ↦ rw enough (headed-IsValid (checked_length buffer) (checked_length-bounds buffer))
  ]
  feed_at-IsValid (some n) buffer h = elim (Bool-cases (ltb (length buffer) n)) [
    | inl short ↦ rw short (ltb→lt (length buffer) n short, h)
    | inr enough ↦ rw enough (bodied-IsValid (decode_request from_slice buffer))
  ]

  -- One byte of `feed_all`.
  pub feed_all-cons :
      (self : RequestDecoder) (byte : ℕ) (bytes : List ℕ) (requests : List Request) (f : Fed)
      → feed from_slice self byte ≡ f
      → feed_all from_slice self (byte ∷ bytes) requests ≡ resume from_slice f bytes requests
  unfolding feed_all
  feed_all-cons self byte bytes requests (waits next) h = rw (h, feed_all) refl
  feed_all-cons self byte bytes requests (emits request) h = rw (h, feed_all) refl
  feed_all-cons self byte bytes requests (refuses error) h = rw (h, feed_all) refl

  resume-IsSafe :
      (f : Fed) (bytes : List ℕ) (requests : List Request)
      → ((self : RequestDecoder) (more : List Request)
          → IsValid self
          → IsSafe (feed_all from_slice self bytes more))
      → FedIsValid f
      → IsSafe (resume from_slice f bytes requests)
  resume-IsSafe (waits next) bytes requests rest h = rest next requests h
  resume-IsSafe (emits request) bytes requests rest h =
      rest cleared (requests ++ (request ∷ [])) (omega arith, tt)
  resume-IsSafe (refuses error) bytes requests rest h = refl

  pub feed_all-IsSafe :
      (bytes : List ℕ) (self : RequestDecoder) (requests : List Request)
      → IsValid self
      → IsSafe (feed_all from_slice self bytes requests)
  unfolding feed_all feed
  feed_all-IsSafe [] self requests h = (h, IsValid-length self h)
  feed_all-IsSafe (byte ∷ bytes) self requests h =
      rw (feed_all-cons self byte bytes requests _ refl) (
        resume-IsSafe _ bytes requests (feed_all-IsSafe bytes)
          (feed_at-IsValid self.expected_body_length (self.buffer ++ (byte ∷ [])) h.1))

-- A call of `push` on a valid decoder, whatever the bytes, returns. On success the decoder it
-- leaves is valid and buffers fewer than `MAX_FRAME_LENGTH` bytes; on an error it is empty, as if
-- new.
pub push-IsSafe :
    (from_slice : List ℕ → Option Request) (self : RequestDecoder) (bytes : List ℕ)
    → IsValid self
    → IsSafe (push from_slice self bytes)
push-IsSafe from_slice self bytes h =
    rw (push-feed_all from_slice self bytes h.0) (feed_all-IsSafe from_slice bytes self [] h)
