-- ===== src/Session/Tracer/Invariant.antt =====
-- The invariant of `SessionTracer` (crates/velum-session/src/lib.rs) between two calls.
use velum.Prelude.{
  ℕ, suc, ◌+◌, ◌-◌, ◌≡◌, ◌≤◌, ◌<◌, List, [], ◌∷◌, ◌++◌, length, length-append, arith, Run, done,
  panic, drop,
}
use velum.Telemetry.{SessionEvent}
use velum.Session.Transition.{IsTransition}
use velum.Session.Flows.{Rising}
use velum.Session.Flows.Weights.{weigh, AllValues}
use velum.Session.Tracer.{FlowLimits, ReliableFlow, PendingSegment, SessionTracer, record_event}

-- The bytes of a queue of pending segments.
abbrev pub queue_bytes : List PendingSegment → ℕ
queue_bytes [] = 0
queue_bytes (p ∷ rest) = length p.segment.bytes + queue_bytes rest

-- The sequence numbers of a queue count up to the one before `next`.
abbrev pub Sequenced : ℕ → List PendingSegment → Type 0
Sequenced next [] = Unit {0}
Sequenced next (p ∷ rest) = (p.segment.sequence + suc (length rest) ≡ next) × Sequenced next rest

pub record FlowOk (limits : FlowLimits) (f : ReliableFlow) : Type 0 where
  pub bytes_counted : f.pending_bytes ≡ queue_bytes f.pending
  pub few : length f.pending ≤ limits.max_pending_segments
  pub light : f.pending_bytes ≤ limits.max_pending_bytes
  pub queued : Sequenced f.next_send f.pending

abbrev pub flow_segments : ReliableFlow → ℕ
flow_segments f = length f.pending

abbrev pub flow_bytes : ReliableFlow → ℕ
flow_bytes f = f.pending_bytes

pub record WellFormed (t : SessionTracer) : Type 0 where
  pub transition_ok : IsTransition t.transition
  pub rising : Rising 0 t.next_flow t.flows
  pub flows_ok : AllValues (FlowOk t.limits) t.flows
  pub segments_total : t.pending_segments ≡ weigh flow_segments t.flows
  pub bytes_total : t.pending_bytes ≡ weigh flow_bytes t.flows
  pub segments_bound : t.pending_segments ≤ t.limits.max_session_pending_segments
  pub bytes_bound : t.pending_bytes ≤ t.limits.max_session_pending_bytes
  pub flows_bound : length t.flows ≤ t.limits.max_flows
  pub events_bound : length t.events ≤ t.limits.max_events
  pub events_positive : 0 < t.limits.max_events

-- What a call that returns leaves is well formed.
abbrev pub Keeps {ℓ} : {A : Type ℓ} → Run (SessionTracer × A) → Type 0
Keeps (done answer) = WellFormed answer.0
Keeps panic = Unit {0}

-- A call that returns, and what it leaves.
abbrev pub Returns {ℓ} : {A : Type ℓ} → Run (SessionTracer × A) → Type 0
Returns (done answer) = WellFormed answer.0
Returns panic = ⊥

length-drop_one {ℓ} : {A : Type ℓ} (xs : List A) → length (drop 1 xs) ≡ length xs - 1
length-drop_one [] = omega arith
length-drop_one (x ∷ xs) = omega arith

pub record_event-WellFormed :
    (t : SessionTracer) (e : SessionEvent) → WellFormed t → WellFormed (record_event t e)
unfolding record_event
record_event-WellFormed t e w = record {
  transition_ok = w.transition_ok;
  rising = w.rising;
  flows_ok = w.flows_ok;
  segments_total = w.segments_total;
  bytes_total = w.bytes_total;
  segments_bound = w.segments_bound;
  bytes_bound = w.bytes_bound;
  flows_bound = w.flows_bound;
  events_bound = ground (
    arith,
    w.events_bound,
    w.events_positive,
    length-append t.events (e ∷ []),
    length-append (drop 1 t.events) (e ∷ []),
    length-drop_one t.events,
  );
  events_positive = w.events_positive;
}

pub Sequenced_push :
    (next : ℕ) (queue : List PendingSegment) (p : PendingSegment)
    → p.segment.sequence ≡ next
    → Sequenced next queue
    → Sequenced (next + 1) (queue ++ (p ∷ []))
Sequenced_push next [] p e s = (omega arith, tt)
Sequenced_push next (q ∷ queue) p e (here, s) =
    (omega (arith, length-append queue (p ∷ [])), Sequenced_push next queue p e s)

pub queue_bytes-append :
    (queue : List PendingSegment) (p : PendingSegment)
    → queue_bytes (queue ++ (p ∷ [])) ≡ queue_bytes queue + length p.segment.bytes
queue_bytes-append [] p = omega arith
queue_bytes-append (q ∷ queue) p = omega (arith, queue_bytes-append queue p)
