-- ===== src/Protocol/Decoder/Push.antt =====
-- The buffer and the loops of `FrameDecoder::push` (crates/velum-protocol/src/frame.rs).
use velum.Prelude.{
  ℕ, suc, ◌+◌, ◌≡◌, refl, ◌≢◌, ◌<◌, List, [], ◌∷◌, ◌++◌, length, length-append, arith,
}
use velum.Protocol.Frame.{Frame}
use velum.Protocol.Decoder.{
  FrameDecoder, breaks, round, Outcome, yields, fails, out_of_fuel, drain_loop, push_loop, push,
  and_then,
}
use velum.Protocol.Decoder.Rounds.{
  Step, waits, stops, frees, drain_loop-Step, drain_loop-ne-out_of_fuel, round-breaks_lt,
}

-- A decoder between two calls that returned frames: its buffer waits for more.
abbrev pub IsIdle : FrameDecoder → Type 0
IsIdle d = round d.maximum_payload d.buffered ≡ breaks

length-snoc : (xs : List ℕ) (x : ℕ) → length (xs ++ (x ∷ [])) ≡ suc (length xs)
length-snoc xs x = omega (arith, length-append xs (x ∷ []))

-- One byte of an idle decoder.
pub byte-Step :
    (m : ℕ) (frames : List Frame) (bytes : List ℕ) (x : ℕ)
    → round m bytes ≡ breaks
    → Step m frames
        (bytes ++ (x ∷ []))
        (drain_loop (suc (length (bytes ++ (x ∷ [])))) m frames (bytes ++ (x ∷ [])))
byte-Step m frames bytes x idle =
    rw (length-snoc bytes x) (drain_loop-Step (length bytes) m frames bytes x idle)

-- What a call on an idle decoder leaves if it returns frames.
abbrev Waits : ℕ → Outcome → Type 0
Waits m (yields frames left) = round m left ≡ breaks
Waits m (fails error left) = Unit {0}
Waits m out_of_fuel = ⊥

Step-Waits :
    (m : ℕ) (frames : List Frame) (grown : List ℕ) (o : Outcome) (rest : List ℕ)
    → ((frames' : List Frame) (left : List ℕ)
        → round m left ≡ breaks
        → Waits m (push_loop m frames' left rest))
    → Step m frames grown o
    → Waits m (and_then o (λ frames' left. push_loop m frames' left rest))
unfolding round
Step-Waits m frames grown o rest later (waits e) = later frames grown e
Step-Waits m frames grown o rest later (stops error left e) = tt
Step-Waits m frames grown o rest later (frees f e) = later (frames ++ (f ∷ [])) [] refl

push_loop-Waits :
    (m : ℕ) (frames : List Frame) (buffered bytes : List ℕ)
    → round m buffered ≡ breaks
    → Waits m (push_loop m frames buffered bytes)
unfolding push_loop
push_loop-Waits m frames buffered [] idle = idle
push_loop-Waits m frames buffered (x ∷ rest) idle =
    Step-Waits m frames (buffered ++ (x ∷ [])) _ rest
      (λ frames' left e. push_loop-Waits m frames' left rest e) (byte-Step m frames buffered x idle)

-- An idle decoder that returns frames is idle again, and holds less than one frame of the largest
-- size that it accepts: at most `maximum_payload + 3` bytes.
pub push-IsIdle :
    (d : FrameDecoder) (bytes : List ℕ) (frames : List Frame) (left : List ℕ)
    → IsIdle d
    → push d bytes ≡ yields frames left
    → IsIdle (record d { buffered = left }) × (length left < d.maximum_payload + 4)
unfolding push
push-IsIdle d bytes frames left idle e =
    let still = push_loop-Waits d.maximum_payload [] d.buffered bytes idle in
    let waits_left : round d.maximum_payload left ≡ breaks = rw e at still in
    (waits_left, round-breaks_lt d.maximum_payload left waits_left)

push_loop-ne-out_of_fuel :
    (m : ℕ) (frames : List Frame) (buffered bytes : List ℕ)
    → push_loop m frames buffered bytes ≢ out_of_fuel
unfolding push_loop
push_loop-ne-out_of_fuel m frames buffered [] = λ e. cc
push_loop-ne-out_of_fuel m frames buffered (x ∷ rest) =
    drained _
      (drain_loop-ne-out_of_fuel (suc (length (buffered ++ (x ∷ [])))) m frames
        (buffered ++ (x ∷ [])) (omega arith))
      λ frames' left. push_loop-ne-out_of_fuel m frames' left rest
  where
    drained :
        (o : Outcome)
        → o ≢ out_of_fuel
        → ((frames' : List Frame) (left : List ℕ) → push_loop m frames' left rest ≢ out_of_fuel)
        → and_then o (λ frames' left. push_loop m frames' left rest) ≢ out_of_fuel
    drained (yields frames' left) h later = later frames' left
    drained (fails error left) h later = λ e. cc
    drained out_of_fuel h later = h

-- The loops of `push` end on every decoder and every input.
pub push-ne-out_of_fuel : (d : FrameDecoder) (bytes : List ℕ) → push d bytes ≢ out_of_fuel
unfolding push
push-ne-out_of_fuel d bytes = push_loop-ne-out_of_fuel d.maximum_payload [] d.buffered bytes
