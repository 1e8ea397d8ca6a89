-- ===== src/Session/Tracer/Resumed.antt =====
-- What `resume_unacknowledged` of crates/velum-session/src/lib.rs reissues.
use velum.Prelude.{suc, ◌+◌, ◌-◌, ◌≡◌, refl, ap, some, List, [], ◌∷◌, length, arith, ok, map, All}
use velum.Protocol.Types.{FlowId, Sequence, Epoch}
use velum.Session.Flows.{get}
use velum.Session.Flows.Weights.{get-AllValues}
use velum.Session.Tracer.{Segment, ReliableFlow, PendingSegment, SessionTracer}
use velum.Session.Tracer.Receive.{resume_unacknowledged}
use velum.Session.Tracer.Invariant.{FlowOk, WellFormed, Sequenced}
use velum.Session.Tracer.InOrder.{count_from}

abbrev reissued : Epoch → List PendingSegment → List Segment
reissued epoch queue = map (λ p. record p.segment { epoch = epoch }) queue

-- What the reissue of a queue has, where the flow's next sequence is `next`.
pub record Reissues (t : SessionTracer) (k : FlowId) (flow : ReliableFlow) (again : List Segment)
    : Type 0 where
  pub answered : resume_unacknowledged t k ≡ ok again
  pub counted : length again ≡ length flow.pending
  pub numbered :
      map (λ s. s.sequence) again ≡ count_from (flow.next_send - length again) (length again)
  pub same_bytes :
      map (λ s. s.bytes) again ≡ map (λ (p : PendingSegment). p.segment.bytes) flow.pending
  pub renewed : All (λ (s : Segment). s.epoch ≡ t.transition.current) again

length-reissued :
    (epoch : Epoch) (queue : List PendingSegment) → length (reissued epoch queue) ≡ length queue
length-reissued epoch [] = refl
length-reissued epoch (p ∷ queue) = ap suc (length-reissued epoch queue)

numbered_reissued :
    (epoch : Epoch) (next first : Sequence) (queue : List PendingSegment)
    → Sequenced next queue
    → first + length queue ≡ next
    → map (λ s. s.sequence) (reissued epoch queue) ≡ count_from first (length queue)
numbered_reissued epoch next first [] s e = refl
numbered_reissued epoch next first (p ∷ queue) (here, s) e =
    let same : p.segment.sequence ≡ first = omega arith in
    let later = numbered_reissued epoch next (first + 1) queue s (omega arith) in
    rw (same, later) refl

bytes_reissued :
    (epoch : Epoch) (queue : List PendingSegment)
    → map (λ s. s.bytes) (reissued epoch queue)
      ≡ map (λ (p : PendingSegment). p.segment.bytes) queue
bytes_reissued epoch [] = refl
bytes_reissued epoch (p ∷ queue) = rw (bytes_reissued epoch queue) refl

renewed_reissued :
    (epoch : Epoch) (queue : List PendingSegment)
    → All (λ (s : Segment). s.epoch ≡ epoch) (reissued epoch queue)
renewed_reissued epoch [] = tt
renewed_reissued epoch (p ∷ queue) = (refl, renewed_reissued epoch queue)

length_of_queue :
    (next : Sequence) (queue : List PendingSegment)
    → Sequenced next queue
    → next - length queue + length queue ≡ next
length_of_queue next [] s = omega arith
length_of_queue next (p ∷ queue) (here, s) = omega arith

-- In a well-formed session `resume_unacknowledged` reissues the whole queue of a flow that exists:
-- every segment that waits, with its bytes, in the current epoch, numbered without gaps up to the
-- next sequence to send.
pub resume_unacknowledged-Reissues :
    (t : SessionTracer) (k : FlowId) (flow : ReliableFlow)
    → WellFormed t
    → get k t.flows ≡ some flow
    → (again : List Segment) × Reissues t k flow again
unfolding resume_unacknowledged
resume_unacknowledged-Reissues t k flow w found =
    let good = get-AllValues (FlowOk t.limits) k flow t.flows w.flows_ok found in
    let epoch = t.transition.current in
    let size = length-reissued epoch flow.pending in
    (
      reissued epoch flow.pending,
      record {
        answered = rw (found, resume_unacknowledged) refl;
        counted = size;
        numbered = rw size (
            numbered_reissued epoch flow.next_send (flow.next_send - length flow.pending)
              flow.pending good.queued (length_of_queue flow.next_send flow.pending good.queued));
        same_bytes = bytes_reissued epoch flow.pending;
        renewed = renewed_reissued epoch flow.pending;
      },
    )
