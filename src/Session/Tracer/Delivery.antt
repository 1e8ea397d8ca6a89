-- ===== src/Session/Tracer/Delivery.antt =====
-- The invariant of `SessionTracer` (crates/velum-session/src/lib.rs) where segments are received.
use velum.Prelude.{
  ◌+◌, ◌≡◌, refl, inl, inr, Option, none, some, Option-cases, Result-cases, Bool-cases, u64_limit,
  ltb, ◌==◌,
}
use velum.Protocol.Types.{FlowId, Sequence, Epoch}
use velum.Telemetry.{duplicate_ignored, out_of_order_rejected}
use velum.Session.Flows.{get, insert}
use velum.Session.Flows.Weights.{get-AllValues}
use velum.Session.Tracer.{Segment, ReliableFlow, SessionTracer, require_valid_epoch}
use velum.Session.Tracer.Receive.{is_beyond, receive_flow, receive, finish_flow, finish_receiving}
use velum.Session.Tracer.Invariant.{FlowOk, WellFormed, Keeps, record_event-WellFormed}
use velum.Session.Tracer.Preservation.{replace_flow}

-- A change of a flow's receive cursors only.
replace_cursors :
    (t : SessionTracer) (k : FlowId) (flow : ReliableFlow) (next : Sequence)
    (final : Option Sequence)
    → WellFormed t
    → get k t.flows ≡ some flow
    → WellFormed (record t {
      flows = insert k (record flow { next_receive = next; receive_final_next = final }) t.flows;
    })
replace_cursors t k flow next final w found =
    let good = get-AllValues (FlowOk t.limits) k flow t.flows w.flows_ok found in
    replace_flow t k flow (record flow { next_receive = next; receive_final_next = final })
      t.pending_segments t.pending_bytes w found
      (record {
        bytes_counted = good.bytes_counted;
        few = good.few;
        light = good.light;
        queued = good.queued;
      })
      refl refl w.segments_bound w.bytes_bound

receive_flow-Keeps :
    (t : SessionTracer) (s : Segment) (flow : ReliableFlow)
    → WellFormed t
    → get s.flow_id t.flows ≡ some flow
    → Keeps (receive_flow t s flow)
unfolding receive_flow
receive_flow-Keeps t s flow w found =
    elim (Bool-cases (is_beyond flow.receive_final_next s.sequence)) [
      | inl c ↦ rw c w
      | inr c ↦ rw c (elim (Bool-cases (ltb s.sequence flow.next_receive)) [
        | inl old ↦ rw old (record_event-WellFormed t duplicate_ignored w)
        | inr old ↦ rw old (elim (Bool-cases (ltb flow.next_receive s.sequence)) [
          | inl gap ↦ rw gap (record_event-WellFormed t out_of_order_rejected w)
          | inr gap ↦ rw gap (elim (Bool-cases (ltb (flow.next_receive + 1) u64_limit)) [
            | inl fits ↦ rw fits (
                replace_cursors t s.flow_id flow (flow.next_receive + 1) flow.receive_final_next w
                  found)
            | inr fits ↦ rw fits tt
          ])
        ])
      ])
    ]

-- What `receive` leaves is well formed.
pub receive-Keeps : (t : SessionTracer) (s : Segment) → WellFormed t → Keeps (receive t s)
unfolding receive
receive-Keeps t s w = elim (Result-cases (require_valid_epoch t s.epoch)) [
  | inr (error, e) ↦ rw (e, receive) w
  | inl (_, e) ↦
      rw (e, receive)
        (elim (Option-cases (get s.flow_id t.flows)) [
          | inl missing ↦ rw missing w
          | inr (flow, found) ↦ rw found (receive_flow-Keeps t s flow w found)
        ])
]

finish_flow-WellFormed :
    (t : SessionTracer) (k : FlowId) (flow : ReliableFlow) (known : Option Sequence)
    (final : Sequence)
    → WellFormed t
    → get k t.flows ≡ some flow
    → WellFormed (finish_flow t k flow known final).0
unfolding finish_flow
finish_flow-WellFormed t k flow none final w found =
    replace_cursors t k flow flow.next_receive (some final) w found
finish_flow-WellFormed t k flow (some known) final w found = elim (Bool-cases (known == final)) [
  | inl c ↦ rw c w
  | inr c ↦ rw c w
]

pub finish_receiving-WellFormed :
    (t : SessionTracer) (k : FlowId) (epoch : Epoch) (final : Sequence)
    → WellFormed t
    → WellFormed (finish_receiving t k epoch final).0
unfolding finish_receiving
finish_receiving-WellFormed t k epoch final w = elim (Result-cases (require_valid_epoch t epoch)) [
  | inr (error, e) ↦ rw (e, finish_receiving) w
  | inl (_, e) ↦
      rw (e, finish_receiving)
        (elim (Option-cases (get k t.flows)) [
          | inl missing ↦ rw missing w
          | inr (flow, found) ↦ rw found (elim (Bool-cases (ltb final flow.next_receive)) [
            | inl c ↦ rw c w
            | inr c ↦ rw c (finish_flow-WellFormed t k flow flow.receive_final_next final w found)
          ])
        ])
]
