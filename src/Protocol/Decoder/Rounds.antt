-- ===== src/Protocol/Decoder/Rounds.antt =====
-- One round of the inner loop of `FrameDecoder::push` (crates/velum-protocol/src/frame.rs).
use velum.Prelude.{
  ℕ, zero, suc, ◌+◌, ◌-◌, ◌≡◌, refl, ap, ◌∙◌, ◌≢◌, ◌≤◌, ◌<◌, ◌⊎◌, inl, inr, List, [], ◌∷◌, ◌++◌,
  Result, ok, err, length, length-append, take, drop, arith,
}
use velum.Protocol.Frame.{Frame}
use velum.Protocol.Frame.Reader.{FrameDecodeError}
use velum.Protocol.Frame.Decode.{decode_exact, header_length}
use velum.Protocol.Decoder.{
  Round, breaks, returns, takes, take_frame, round, Outcome, yields, fails, out_of_fuel, drain_loop,
}

length-drop : (n : ℕ) (xs : List ℕ) → length (drop n xs) ≡ length xs - n
length-drop zero xs = omega arith
length-drop (suc n) [] = omega arith
length-drop (suc n) (x ∷ xs) = omega (arith, length-drop n xs)

take_frame-shorter :
    (r : Result Frame FrameDecodeError) (total : ℕ) (bytes : List ℕ) {f : Frame} {left : List ℕ}
    → take_frame r total bytes ≡ takes f left
    → length left ≡ length bytes - total
unfolding take_frame
take_frame-shorter (ok g) total bytes {f} {left} e =
    let same : drop total bytes ≡ left = cc in rw (← same) (length-drop total bytes)
take_frame-shorter (err x) total bytes e = cc

-- What a round that takes a frame has found.
pub round-eq-takes :
    (m a b c d : ℕ) (body : List ℕ) {f : Frame} {left : List ℕ}
    → round m (a ∷ b ∷ c ∷ d ∷ body) ≡ takes f left
    → (header_length c d ≤ length body) × (length left + header_length c d ≡ length body)
unfolding round
round-eq-takes m a b c d body {f} {left} e =
    let shorter =
      take_frame-shorter (decode_exact (take (4 + header_length c d) (a ∷ b ∷ c ∷ d ∷ body)) m)
        (4 + header_length c d) (a ∷ b ∷ c ∷ d ∷ body) {f = f} {left = left} in
    (ground (arith, shorter), ground (arith, shorter))

-- A round that takes a frame takes at least its header, and no more than is there.
pub round-shorter :
    (m : ℕ) (bytes : List ℕ) {f : Frame} {left : List ℕ}
    → round m bytes ≡ takes f left
    → length left + 4 ≤ length bytes
round-shorter m [] e = unfold round in cc
round-shorter m (a ∷ []) e = unfold round in cc
round-shorter m (a ∷ b ∷ []) e = unfold round in cc
round-shorter m (a ∷ b ∷ c ∷ []) e = unfold round in cc
round-shorter m (a ∷ b ∷ c ∷ d ∷ body) e = omega (arith, round-eq-takes m a b c d body e)

-- A buffer at which the loop waits for more holds less than one frame of the largest size.
pub round-breaks_lt : (m : ℕ) (bytes : List ℕ) → round m bytes ≡ breaks → length bytes < m + 4
unfolding round take_frame
round-breaks_lt m [] e = omega arith
round-breaks_lt m (a ∷ []) e = omega arith
round-breaks_lt m (a ∷ b ∷ []) e = omega arith
round-breaks_lt m (a ∷ b ∷ c ∷ []) e = omega arith
round-breaks_lt m (a ∷ b ∷ c ∷ d ∷ body) e = ground arith

round-eq-breaks :
    (m a b c d : ℕ) (body : List ℕ)
    → round m (a ∷ b ∷ c ∷ d ∷ body) ≡ breaks
    → length body < header_length c d
unfolding round take_frame
round-eq-breaks m a b c d body e = ground arith

nil_of_length : (xs : List ℕ) → length xs ≡ 0 → xs ≡ []
nil_of_length [] h = refl
nil_of_length (x ∷ xs) h = absurd (omega arith)

-- One byte more than a waiting buffer is at most one frame: what a round then takes is all.
pub round-takes_all :
    (m : ℕ) (bytes : List ℕ) (x : ℕ) {f : Frame} {left : List ℕ}
    → round m bytes ≡ breaks
    → round m (bytes ++ (x ∷ [])) ≡ takes f left
    → left ≡ []
round-takes_all m [] x waits e = unfold round in cc
round-takes_all m (a ∷ []) x waits e = unfold round in cc
round-takes_all m (a ∷ b ∷ []) x waits e = unfold round in cc
round-takes_all m (a ∷ b ∷ c ∷ []) x {left} waits e =
    nil_of_length left (omega (arith, round-eq-takes m a b c x [] e))
round-takes_all m (a ∷ b ∷ c ∷ d ∷ body) x {left} waits e = nil_of_length left (
    omega (
      arith,
      round-eq-takes m a b c d (body ++ (x ∷ [])) e,
      round-eq-breaks m a b c d body waits,
      length-append body (x ∷ []),
    ))

-- The inner loop behind one more byte: it waits, fails, or takes one frame and is empty.
pub data Step (m : ℕ) (frames : List Frame) (grown : List ℕ) : Outcome → Type 0 where
  waits : round m grown ≡ breaks → Step m frames grown (yields frames grown)
  stops :
      (error : FrameDecodeError) (left : List ℕ)
      → round m grown ≡ returns error left
      → Step m frames grown (fails error left)
  frees :
      (frame : Frame)
      → round m grown ≡ takes frame []
      → Step m frames grown (yields (frames ++ (frame ∷ [])) [])

Round-cases :
    (r : Round)
    → (r ≡ breaks)
      ⊎ (((e : FrameDecodeError) × (left : List ℕ) × (r ≡ returns e left))
          ⊎ ((f : Frame) × (left : List ℕ) × (r ≡ takes f left)))
Round-cases breaks = inl refl
Round-cases (returns e left) = inr (inl (e, left, refl))
Round-cases (takes f left) = inr (inr (f, left, refl))

-- Two rounds are enough behind one more byte.
pub drain_loop-Step :
    (n m : ℕ) (frames : List Frame) (bytes : List ℕ) (x : ℕ)
    → round m bytes ≡ breaks
    → Step m frames (bytes ++ (x ∷ [])) (drain_loop (suc (suc n)) m frames (bytes ++ (x ∷ [])))
unfolding drain_loop round
drain_loop-Step n m frames bytes x idle = elim (Round-cases (round m (bytes ++ (x ∷ [])))) [
  | inl e ↦ rw (e, drain_loop) (waits e)
  | inr (inl (error, left, e)) ↦ rw (e, drain_loop) (stops error left e)
  | inr (inr (f, left, e)) ↦
      let empty = round-takes_all m bytes x idle e in
      let taken = e ∙ ap (λ (l : List ℕ). takes f l) empty in rw (taken, drain_loop) (frees f taken)
]

-- The inner loop ends, whatever the buffer: each round that goes on takes four bytes at least.
pub drain_loop-ne-out_of_fuel :
    (n m : ℕ) (frames : List Frame) (bytes : List ℕ)
    → length bytes < n
    → drain_loop n m frames bytes ≢ out_of_fuel
unfolding drain_loop
drain_loop-ne-out_of_fuel zero m frames bytes h = absurd (omega arith)
drain_loop-ne-out_of_fuel (suc n) m frames bytes h = elim (Round-cases (round m bytes)) [
  | inl e ↦ rw (e, drain_loop) (λ c. cc)
  | inr (inl (error, left, e)) ↦ rw (e, drain_loop) (λ c. cc)
  | inr (inr (f, left, e)) ↦
      rw (e, drain_loop)
        (drain_loop-ne-out_of_fuel n m (frames ++ (f ∷ [])) left
          (omega (arith, round-shorter m bytes e)))
]
