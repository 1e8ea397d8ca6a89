-- ===== src/Protocol/Decoder/Split.antt =====
-- Inputs of `FrameDecoder::push` (crates/velum-protocol/src/frame.rs) in several calls.
use velum.Prelude.{
  ℕ, zero, suc, ◌≡◌, refl, sym, ap, ◌∙◌, List, [], ◌∷◌, ◌++◌, length, append_assoc, append-nil,
}
use velum.Protocol.Frame.{Frame}
use velum.Protocol.Decoder.{
  FrameDecoder, Round, breaks, returns, takes, round, Outcome, yields, fails, out_of_fuel,
  drain_loop, push_loop, push, and_then,
}

-- The frames of an earlier call in front of those of a later one.
abbrev pub prepend : List Frame → Outcome → Outcome
prepend earlier (yields frames left) = yields (earlier ++ frames) left
prepend earlier (fails error left) = fails error left
prepend earlier out_of_fuel = out_of_fuel

drain_loop-prepend :
    (n m : ℕ) (earlier frames : List Frame) (bytes : List ℕ)
    → drain_loop n m (earlier ++ frames) bytes ≡ prepend earlier (drain_loop n m frames bytes)
unfolding drain_loop
drain_loop-prepend zero m earlier frames bytes = refl
drain_loop-prepend (suc n) m earlier frames bytes = by_round (round m bytes) λ frame left.
    rw (append_assoc earlier frames (frame ∷ []))
      (drain_loop-prepend n m earlier (frames ++ (frame ∷ [])) left)
  where
    by_round :
        (r : Round)
        → ((frame : Frame) (left : List ℕ)
            → drain_loop n m ((earlier ++ frames) ++ (frame ∷ [])) left
              ≡ prepend earlier (drain_loop n m (frames ++ (frame ∷ [])) left))
        → elim r as (λ _. Outcome) [
          | breaks ↦ yields (earlier ++ frames) bytes
          | returns error left ↦ fails error left
          | takes frame left ↦ drain_loop n m ((earlier ++ frames) ++ (frame ∷ [])) left
        ]
          ≡ prepend earlier (elim r as (λ _. Outcome) [
            | breaks ↦ yields frames bytes
            | returns error left ↦ fails error left
            | takes frame left ↦ drain_loop n m (frames ++ (frame ∷ [])) left
          ])
    by_round breaks h = refl
    by_round (returns error left) h = refl
    by_round (takes frame left) h = h frame left

and_then-prepend :
    (earlier : List Frame) (o : Outcome) (next : List Frame → List ℕ → Outcome)
    → ((frames : List Frame) (left : List ℕ)
        → next (earlier ++ frames) left ≡ prepend earlier (next frames left))
    → and_then (prepend earlier o) next ≡ prepend earlier (and_then o next)
and_then-prepend earlier (yields frames left) next h = h frames left
and_then-prepend earlier (fails error left) next h = refl
and_then-prepend earlier out_of_fuel next h = refl

push_loop-prepend :
    (m : ℕ) (earlier frames : List Frame) (buffered bytes : List ℕ)
    → push_loop m (earlier ++ frames) buffered bytes
      ≡ prepend earlier (push_loop m frames buffered bytes)
unfolding push_loop
push_loop-prepend m earlier frames buffered [] = refl
push_loop-prepend m earlier frames buffered (x ∷ rest) =
    rw
      (drain_loop-prepend (suc (length (buffered ++ (x ∷ [])))) m earlier frames
        (buffered ++ (x ∷ [])))
      (and_then-prepend earlier _ _ λ frames' left. push_loop-prepend m earlier frames' left rest)

and_then_assoc :
    (o : Outcome) (f g : List Frame → List ℕ → Outcome)
    → and_then (and_then o f) g ≡ and_then o (λ frames left. and_then (f frames left) g)
and_then_assoc (yields frames left) f g = refl
and_then_assoc (fails error left) f g = refl
and_then_assoc out_of_fuel f g = refl

push_loop-append :
    (m : ℕ) (frames : List Frame) (buffered xs ys : List ℕ)
    → push_loop m frames buffered (xs ++ ys)
      ≡ and_then (push_loop m frames buffered xs) (λ frames' left. push_loop m frames' left ys)
unfolding push_loop
push_loop-append m frames buffered [] ys = refl
push_loop-append m frames buffered (x ∷ xs) ys =
    ap (and_then (drain_loop (suc (length (buffered ++ (x ∷ [])))) m frames (buffered ++ (x ∷ []))))
      (λ i frames' left. push_loop-append m frames' left xs ys i)
    ∙ sym (
        and_then_assoc
          (drain_loop (suc (length (buffered ++ (x ∷ [])))) m frames (buffered ++ (x ∷ []))) _ _)

-- Pushing two pieces at once is pushing the first and then, if that returned frames, the second:
-- the frames are those of both calls in order, and an error of either call is the error.
pub push-append :
    (d : FrameDecoder) (xs ys : List ℕ)
    → push d (xs ++ ys)
      ≡ and_then
          (push d xs)
          (λ frames left. prepend frames (push (record d { buffered = left }) ys))
unfolding push
push-append d xs ys =
    push_loop-append d.maximum_payload [] d.buffered xs ys
    ∙ ap (and_then (push_loop d.maximum_payload [] d.buffered xs)) (λ i frames left.
      (ap (λ (fs : List Frame). push_loop d.maximum_payload fs left ys) (sym (append-nil frames))
          ∙ push_loop-prepend d.maximum_payload frames [] left ys)
        i)
