-- ===== src/Protocol/Decoder/Poisoned.antt =====
-- `FrameDecoder` (crates/velum-protocol/src/frame.rs) behind an error.
use velum.Prelude.{
  ℕ, zero, suc, ◌+◌, ◌≡◌, refl, ap, ◌∙◌, ◌≤◌, ◌⊎◌, inl, inr, List, [], ◌∷◌, ◌++◌, Result, ok, err,
  ge→ltb, length, length-append, take, append_assoc, append-nil, arith,
}
use velum.Protocol.Frame.{Frame}
use velum.Protocol.Frame.Reader.{FrameDecodeError}
use velum.Protocol.Frame.Decode.{decode_exact, header_length}
use velum.Protocol.Decoder.{
  FrameDecoder, breaks, returns, take_frame, round, Outcome, yields, fails, out_of_fuel, drain_loop,
  push_loop, push, and_then,
}
use velum.Protocol.Decoder.Rounds.{Step, waits, stops, frees}
use velum.Protocol.Decoder.Push.{IsIdle, byte-Step}

take-append_le : (n : ℕ) (xs ys : List ℕ) → n ≤ length xs → take n (xs ++ ys) ≡ take n xs
take-append_le zero xs ys h = refl
take-append_le (suc n) [] ys h = absurd (omega arith)
take-append_le (suc n) (x ∷ xs) ys h = ap (◌∷◌ x) (take-append_le n xs ys (omega arith))

take_frame-returns :
    (r : Result Frame FrameDecodeError) (total : ℕ) (bytes : List ℕ) {e : FrameDecodeError}
    {left : List ℕ}
    → take_frame r total bytes ≡ returns e left
    → (r ≡ err e) × (left ≡ bytes)
unfolding take_frame
take_frame-returns (ok f) total bytes e = cc
take_frame-returns (err x) total bytes e = (cc, cc)

-- An error either empties the buffer or comes from a whole frame that does not decode.
round-returns :
    (m a b c d : ℕ) (body : List ℕ) {e : FrameDecodeError} {left : List ℕ}
    → let bytes : List ℕ = a ∷ b ∷ c ∷ d ∷ body in
      round m bytes ≡ returns e left
      → (left ≡ [])
        ⊎ ((left ≡ bytes)
            × (header_length c d ≤ m)
            × (header_length c d ≤ length body)
            × (decode_exact (take (4 + header_length c d) bytes) m ≡ err e))
unfolding round
round-returns m a b c d body {e} {left} h = ground (
  arith,
  take_frame-returns (decode_exact (take (4 + header_length c d) (a ∷ b ∷ c ∷ d ∷ body)) m)
      (4 + header_length c d) (a ∷ b ∷ c ∷ d ∷ body) {e = e} {left = left},
)

-- One byte more does not change what the failed frame at the front decodes to.
round-poisoned :
    (m a b c d : ℕ) (body : List ℕ) (x : ℕ) {e : FrameDecodeError}
    → header_length c d ≤ m
    → header_length c d ≤ length body
    → decode_exact (take (4 + header_length c d) (a ∷ b ∷ c ∷ d ∷ body)) m ≡ err e
    → round m ((a ∷ b ∷ c ∷ d ∷ body) ++ (x ∷ [])) ≡ returns e ((a ∷ b ∷ c ∷ d ∷ body) ++ (x ∷ []))
unfolding round take_frame
round-poisoned m a b c d body x {e} fits whole bad = rw (ge→ltb m (header_length c d) fits) (
    rw
      (ge→ltb (length ((a ∷ b ∷ c ∷ d ∷ body) ++ (x ∷ []))) (4 + header_length c d)
        (omega (arith, length-append body (x ∷ []))))
      (rw (take-append_le (4 + header_length c d) (a ∷ b ∷ c ∷ d ∷ body) (x ∷ []) (omega arith))
        (rw bad)))

-- A buffer at whose front a whole frame does not decode.
abbrev pub IsPoisoned : ℕ → FrameDecodeError → List ℕ → Type 0
IsPoisoned m error bytes = round m bytes ≡ returns error bytes

IsPoisoned-grows :
    (m : ℕ) (error : FrameDecodeError) (bytes : List ℕ) (x : ℕ)
    → IsPoisoned m error bytes
    → IsPoisoned m error (bytes ++ (x ∷ []))
IsPoisoned-grows m error [] x h = unfold round in cc
IsPoisoned-grows m error (a ∷ []) x h = unfold round in cc
IsPoisoned-grows m error (a ∷ b ∷ []) x h = unfold round in cc
IsPoisoned-grows m error (a ∷ b ∷ c ∷ []) x h = unfold round in cc
IsPoisoned-grows m error (a ∷ b ∷ c ∷ d ∷ body) x h = elim (round-returns m a b c d body h) [
  | inl empty ↦ cc
  | inr (same, fits, whole, bad) ↦ round-poisoned m a b c d body x fits whole bad
]

IsPoisoned-append :
    (m : ℕ) (error : FrameDecodeError) (bytes xs : List ℕ)
    → IsPoisoned m error bytes
    → IsPoisoned m error (bytes ++ xs)
IsPoisoned-append m error bytes [] h = rw append-nil h
IsPoisoned-append m error bytes (x ∷ xs) h =
    rw append_assoc at
      (IsPoisoned-append m error (bytes ++ (x ∷ [])) xs (IsPoisoned-grows m error bytes x h))

drain_poisoned :
    (n m : ℕ) (error : FrameDecodeError) (bytes : List ℕ)
    → IsPoisoned m error bytes
    → drain_loop (suc n) m [] bytes ≡ fails error bytes
unfolding drain_loop
drain_poisoned n m error bytes h = rw (h, drain_loop)

push_poisoned :
    (m : ℕ) (error : FrameDecodeError) (bytes : List ℕ) (x : ℕ) (rest : List ℕ)
    → IsPoisoned m error bytes
    → push (record { maximum_payload = m; buffered = bytes }) (x ∷ rest)
      ≡ fails error (bytes ++ (x ∷ []))
unfolding push push_loop
push_poisoned m error bytes x rest h = rw (
    drain_poisoned (length (bytes ++ (x ∷ []))) m error (bytes ++ (x ∷ []))
      (IsPoisoned-grows m error bytes x h))

round-returns_left :
    (m : ℕ) (bytes : List ℕ) {e : FrameDecodeError} {left : List ℕ}
    → round m bytes ≡ returns e left
    → (left ≡ []) ⊎ (left ≡ bytes)
round-returns_left m [] h = unfold round in cc
round-returns_left m (a ∷ []) h = unfold round in cc
round-returns_left m (a ∷ b ∷ []) h = unfold round in cc
round-returns_left m (a ∷ b ∷ c ∷ []) h = unfold round in cc
round-returns_left m (a ∷ b ∷ c ∷ d ∷ body) h = elim (round-returns m a b c d body h) [
  | inl empty ↦ inl empty
  | inr (same, _, _, _) ↦ inr same
]

-- What a failed call on an idle decoder leaves.
abbrev LeftBy : ℕ → Outcome → Type 0
LeftBy m (yields frames left) = Unit {0}
LeftBy m (fails error left) = (left ≡ []) ⊎ IsPoisoned m error left
LeftBy m out_of_fuel = Unit {0}

stopped_at :
    (m : ℕ) (grown : List ℕ) (error : FrameDecodeError) (left : List ℕ)
    → round m grown ≡ returns error left
    → (left ≡ []) ⊎ IsPoisoned m error left
stopped_at m grown error left e = elim (round-returns_left m grown e) [
  | inl empty ↦ inl empty
  | inr same ↦ inr (rw same (e ∙ ap (returns error) same))
]

Step-LeftBy :
    (m : ℕ) (frames : List Frame) (grown : List ℕ) (o : Outcome)
    (next : List Frame → List ℕ → Outcome)
    → ((frames' : List Frame) (left : List ℕ)
        → round m left ≡ breaks
        → LeftBy m (next frames' left))
    → Step m frames grown o
    → LeftBy m (and_then o next)
unfolding round
Step-LeftBy m frames grown o next later (waits e) = later frames grown e
Step-LeftBy m frames grown o next later (stops error left e) = stopped_at m grown error left e
Step-LeftBy m frames grown o next later (frees f e) = later (frames ++ (f ∷ [])) [] refl

push_loop-LeftBy :
    (m : ℕ) (frames : List Frame) (buffered bytes : List ℕ)
    → round m buffered ≡ breaks
    → LeftBy m (push_loop m frames buffered bytes)
unfolding push_loop
push_loop-LeftBy m frames buffered [] idle = tt
push_loop-LeftBy m frames buffered (x ∷ rest) idle =
    Step-LeftBy m frames (buffered ++ (x ∷ [])) _ _
      (λ frames' left e. push_loop-LeftBy m frames' left rest e)
      (byte-Step m frames buffered x idle)

-- After a call on an idle decoder has failed, either the buffer is empty, or the decoder is stuck:
-- whatever bytes `added` later calls have left behind, the next call with at least one byte fails
-- with the same error and leaves one byte more.
pub push_after_error :
    (d : FrameDecoder) (bytes : List ℕ) (error : FrameDecodeError) (left : List ℕ)
    → IsIdle d
    → push d bytes ≡ fails error left
    → (left ≡ [])
      ⊎ ((added : List ℕ) (x : ℕ) (rest : List ℕ)
          → push (record d { buffered = left ++ added }) (x ∷ rest)
            ≡ fails error ((left ++ added) ++ (x ∷ [])))
unfolding push
push_after_error d bytes error left idle e =
    let found : LeftBy d.maximum_payload (fails error left) =
      rw e at (push_loop-LeftBy d.maximum_payload [] d.buffered bytes idle) in
    elim found [
      | inl empty ↦ inl empty
      | inr stuck ↦ inr (λ added x rest.
          push_poisoned d.maximum_payload error (left ++ added) x rest
            (IsPoisoned-append d.maximum_payload error left added stuck))
    ]
