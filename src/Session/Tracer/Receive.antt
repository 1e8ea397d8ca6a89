-- ===== src/Session/Tracer/Receive.antt =====
-- Receiving on a flow, its final cursor, what is pending, and time: methods of `SessionTracer` in
-- crates/velum-session/src/lib.rs.
use velum.Prelude.{
  ℕ, Bool, false, Option, none, some, List, [], ◌∷◌, Result, ok, err, ltb, leb, ◌==◌, if◌then◌else◌,
  Run, done, and_run, expect, checked_add, map,
}
use velum.Protocol.Types.{FlowId, Epoch, Sequence}
use velum.Telemetry.{flow_timed_out, duplicate_ignored, out_of_order_rejected}
use velum.Session.Flows.{get, insert}
use velum.Session.Tracer.{
  Segment, ReliableFlow, PendingSegment, SessionTracer, Answer, TraceError, unknown_flow,
  flow_finished, record_event, require_valid_epoch,
}
use velum.Session.Tracer.Send.{drop_flow}

pub data ReceiveResult : Type 0 where
  delivered : List ℕ → ReceiveResult
  duplicate out_of_order : ReceiveResult

-- `receive_final_next.is_some_and(|final_next| sequence >= final_next)`
unfoldable pub is_beyond : Option Sequence → Sequence → Bool
is_beyond none sequence = false
is_beyond (some final_next) sequence = leb final_next sequence

-- `receive` in a flow that exists.
unfoldable pub receive_flow : SessionTracer → Segment → ReliableFlow → Run (Answer ReceiveResult)
unfolding is_beyond
receive_flow self segment flow =
    if is_beyond flow.receive_final_next segment.sequence
    then done (self, err flow_finished)
    else (if ltb segment.sequence flow.next_receive
        then done (record_event self duplicate_ignored, ok duplicate)
        else (if ltb flow.next_receive segment.sequence
            then done (record_event self out_of_order_rejected, ok out_of_order)
            else and_run (expect (checked_add flow.next_receive 1)) (λ next_receive. done (
              record self {
                flows =
                    insert segment.flow_id (record flow { next_receive = next_receive }) self.flows;
              },
              ok (delivered segment.bytes),
            ))))

-- `receive`
unfoldable pub receive : SessionTracer → Segment → Run (Answer ReceiveResult)
receive self segment = elim (require_valid_epoch self segment.epoch) [
  | err error ↦ done (self, err error)
  | ok _ ↦ elim (get segment.flow_id self.flows) [
    | none ↦ done (self, err unknown_flow)
    | some flow ↦ receive_flow self segment flow
  ]
]

-- The `match` of `finish_receiving` on the cursor recorded before.
unfoldable pub finish_flow :
    SessionTracer → FlowId → ReliableFlow → Option Sequence → Sequence → Answer (Unit {0})
finish_flow self flow_id flow (some existing) final_next_sequence =
    if existing == final_next_sequence then (self, ok tt) else (self, err flow_finished)
finish_flow self flow_id flow none final_next_sequence = (
  record self {
    flows =
        insert flow_id (record flow { receive_final_next = some final_next_sequence }) self.flows;
  },
  ok tt,
)

-- `finish_receiving`
unfoldable pub finish_receiving : SessionTracer → FlowId → Epoch → Sequence → Answer (Unit {0})
finish_receiving self flow_id epoch final_next_sequence = elim (require_valid_epoch self epoch) [
  | err error ↦ (self, err error)
  | ok _ ↦ elim (get flow_id self.flows) [
    | none ↦ (self, err unknown_flow)
    | some flow ↦
        if ltb final_next_sequence flow.next_receive
        then (self, err flow_finished)
        else finish_flow self flow_id flow flow.receive_final_next final_next_sequence
  ]
]

-- `pending`
unfoldable pub pending : SessionTracer → FlowId → Result (List Segment) TraceError
pending self flow_id = elim (get flow_id self.flows) [
  | none ↦ err unknown_flow
  | some flow ↦ ok (map (λ p. p.segment) flow.pending)
]

-- `resume_unacknowledged`
unfoldable pub resume_unacknowledged : SessionTracer → FlowId → Result (List Segment) TraceError
resume_unacknowledged self flow_id = elim (get flow_id self.flows) [
  | none ↦ err unknown_flow
  | some flow ↦ ok (map (λ p. record p.segment { epoch = self.transition.current }) flow.pending)
]

-- Whether the oldest pending segment of a flow has expired.
unfoldable pub has_expired : ℕ → List PendingSegment → Bool
has_expired tick [] = false
has_expired tick (p ∷ rest) = leb p.expires_at tick

-- The first loop of `advance_time`.
unfoldable pub timed_out_flows : ℕ → List (FlowId × ReliableFlow) → List FlowId
timed_out_flows tick [] = []
timed_out_flows tick ((flow_id, flow) ∷ rest) =
    let later = timed_out_flows tick rest in
    if has_expired tick flow.pending then flow_id ∷ later else later

-- The second loop.
unfoldable pub drop_flows : SessionTracer → List FlowId → Run SessionTracer
drop_flows self [] = done self
drop_flows self (flow_id ∷ rest) =
    and_run (expect (get flow_id self.flows))
      λ flow. and_run (drop_flow self flow_id flow) λ self'. drop_flows self' rest

-- The third loop.
unfoldable pub record_timeouts : SessionTracer → List FlowId → SessionTracer
record_timeouts self [] = self
record_timeouts self (flow_id ∷ rest) = record_timeouts (record_event self flow_timed_out) rest

-- `advance_time`
unfoldable pub advance_time : SessionTracer → ℕ → Run (SessionTracer × List FlowId)
advance_time self ticks = and_run (expect (checked_add self.tick ticks)) λ tick.
    let timed_out = timed_out_flows tick self.flows in
    and_run (drop_flows (record self { tick = tick }) timed_out)
      λ self'. done (record_timeouts self' timed_out, timed_out)
