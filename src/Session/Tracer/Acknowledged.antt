-- ===== src/Session/Tracer/Acknowledged.antt =====
-- Which segments `acknowledge` of crates/velum-session/src/lib.rs releases.
use velum.Prelude.{
  ℕ, ◌+◌, ◌≡◌, refl, ap, ◌≤◌, ◌<◌, inl, inr, List, [], ◌∷◌, ◌++◌, length, All, arith, done,
  Bool-cases, leb, and_run-elim,
}
use velum.Protocol.Types.{Sequence}
use velum.Session.Tracer.{PendingSegment}
use velum.Session.Tracer.Send.{Released, release}
use velum.Session.Tracer.Invariant.{Sequenced}

rest_above :
    (next through : ℕ) (p : PendingSegment) (rest : List PendingSegment)
    → Sequenced next (p ∷ rest)
    → through < p.segment.sequence
    → All (λ (q : PendingSegment). through < q.segment.sequence) (p ∷ rest)
rest_above next through p [] s h = (h, tt)
rest_above next through p (q ∷ rest) (here, s) h =
    (h, rest_above next through q rest s (omega arith))

-- On a queue whose sequence numbers count up, the loop of `acknowledge` releases exactly the
-- segments up to `through`: the queue is the released ones followed by those that are left, none
-- of the former is above `through`, and all of the latter are.
pub release_exact :
    (next through : Sequence) (queue : List PendingSegment) (fb segs bytes : ℕ) (r : Released)
    → Sequenced next queue
    → release through queue fb segs bytes ≡ done r
    → (gone : List PendingSegment) × (queue ≡ gone ++ r.pending)
      × All (λ (p : PendingSegment). p.segment.sequence ≤ through) gone
      × All (λ (p : PendingSegment). through < p.segment.sequence) r.pending
      × (r.segments ≡ segs + length gone)
unfolding release
release_exact next through [] fb segs bytes r s e =
    let same : ◌≡◌ {A = Released}
        (record { pending = []; pending_bytes = fb; segments = segs; bytes = bytes }) r =
      cc in
    rw (← same) ([], refl, tt, tt, omega arith)
release_exact next through (p ∷ rest) fb segs bytes r s e =
    elim (Bool-cases (leb p.segment.sequence through)) [
      | inr keep ↦
          let same : ◌≡◌ {A = Released}
              (record { pending = p ∷ rest; pending_bytes = fb; segments = segs; bytes = bytes })
              r =
            done_same (rw keep at e) in
          rw (← same) ([], refl, tt, rest_above next through p rest s (ground arith), omega arith)
      | inl gone ↦ and_run-elim _ _ (rw gone at e) λ left checked later.
          let (front, split, low, high, counted) =
            release_exact next through rest left (segs + 1) (bytes + length p.segment.bytes) r s.1
              later in
          (p ∷ front, ap (◌∷◌ p) split, (ground arith, low), high, omega arith)
    ]
  where
    done_same : {a b : Released} → done a ≡ done b → a ≡ b
    done_same h = cc
