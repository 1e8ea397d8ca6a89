-- ===== src/Session/Tracer/Send.antt =====
-- Opening, closing and resetting flows, sending and acknowledging: methods of `SessionTracer` in
-- crates/velum-session/src/lib.rs.
use velum.Prelude.{
  ℕ, ◌+◌, ◌-◌, Bool, false, ◌&&◌, ◌||◌, none, some, List, [], ◌∷◌, ◌++◌, ok, err, ltb, leb, ◌==◌,
  if◌then◌else◌, length, is_empty, Run, done, and_run, expect, checked_add, checked_sub, u64_limit,
}
use velum.Protocol.Types.{FlowId, Sequence}
use velum.Telemetry.{flow_opened, pending_limit_reached}
use velum.Session.Flows.{get, insert, remove}
use velum.Session.Tracer.{
  Segment, Acknowledgement, ReliableFlow, PendingSegment, SessionTracer, Answer, TraceError,
  unknown_flow, flow_limit, pending_segment_limit, pending_byte_limit,
  session_pending_segment_limit, session_pending_byte_limit, flow_has_pending_segments,
  flow_finished, invalid_acknowledgement, record_event, require_valid_epoch,
}

abbrev pub fresh_flow : ReliableFlow
fresh_flow = record {
  next_send = 0;
  next_receive = 0;
  receive_final_next = none;
  pending = [];
  pending_bytes = 0;
}

-- `open_reliable_flow_with_id`
unfoldable pub open_reliable_flow_with_id : SessionTracer → FlowId → Answer (Unit {0})
open_reliable_flow_with_id self flow_id =
    if leb self.limits.max_flows (length self.flows)
    then (self, err flow_limit)
    else (if ltb flow_id self.next_flow || flow_id == u64_limit - 1
        then (self, err flow_finished)
        else (
          record_event
              (record self {
                next_flow = flow_id + 1;
                flows = insert flow_id fresh_flow self.flows;
              })
              flow_opened,
          ok tt,
        ))

-- The result of `open_reliable_flow`, which opens the next identifier.
abbrev pub opened_as : FlowId → Answer (Unit {0}) → Answer FlowId
opened_as flow_id (self, ok _) = (self, ok flow_id)
opened_as flow_id (self, err error) = (self, err error)

-- `open_reliable_flow`
unfoldable pub open_reliable_flow : SessionTracer → Answer FlowId
unfolding open_reliable_flow_with_id
open_reliable_flow self = opened_as self.next_flow (open_reliable_flow_with_id self self.next_flow)

-- `close_reliable_flow`
unfoldable pub close_reliable_flow : SessionTracer → FlowId → Answer (Unit {0})
close_reliable_flow self flow_id = elim (get flow_id self.flows) [
  | none ↦ (self, err unknown_flow)
  | some flow ↦
      if is_empty flow.pending
      then (record self { flows = remove flow_id self.flows }, ok tt)
      else (self, err flow_has_pending_segments)
]

-- The last part of `send`, with every limit checked.
unfoldable pub send_segment : SessionTracer → FlowId → ReliableFlow → List ℕ → Run (Answer Segment)
send_segment self flow_id flow bytes =
    let segment : Segment = record {
      flow_id = flow_id;
      epoch = self.transition.current;
      sequence = flow.next_send;
      bytes = bytes;
    } in
    and_run (expect (checked_add flow.next_send 1)) λ next_send.
      and_run (expect (checked_add self.tick self.limits.max_pending_age)) λ expires_at. done (
        record self {
          pending_segments = self.pending_segments + 1;
          pending_bytes = self.pending_bytes + length bytes;
          flows =
              insert flow_id
                (record flow {
                  next_send = next_send;
                  pending =
                      flow.pending ++ (record { segment = segment; expires_at = expires_at } ∷ []);
                  pending_bytes = flow.pending_bytes + length bytes;
                })
                self.flows;
        },
        ok segment,
      )

-- A refusal that is recorded.
abbrev limit_reached : SessionTracer → TraceError → Run (Answer Segment)
limit_reached self error = done (record_event self pending_limit_reached, err error)

-- `send`. `saturating_sub` is the subtraction of natural numbers.
unfoldable pub send : SessionTracer → FlowId → List ℕ → Run (Answer Segment)
unfolding send_segment
send self flow_id bytes = elim (get flow_id self.flows) [
  | none ↦ done (self, err unknown_flow)
  | some flow ↦
      if leb self.limits.max_session_pending_segments self.pending_segments
      then limit_reached self session_pending_segment_limit
      else (if ltb (self.limits.max_session_pending_bytes - self.pending_bytes) (length bytes)
          then limit_reached self session_pending_byte_limit
          else (if length flow.pending == self.limits.max_pending_segments
              then limit_reached self pending_segment_limit
              else (if ltb (self.limits.max_pending_bytes - flow.pending_bytes) (length bytes)
                  then limit_reached self pending_byte_limit
                  else send_segment self flow_id flow bytes)))
]

-- The `while` loop of `acknowledge` over a flow's queue: what is left of the queue and of the
-- flow's byte count, and how many segments and bytes were released. `pending_bytes -= len`
-- panics on underflow where overflow is checked.
pub record Released : Type 0 where
  pub pending : List PendingSegment
  pub pending_bytes : ℕ
  pub segments : ℕ
  pub bytes : ℕ

unfoldable pub release : Sequence → List PendingSegment → ℕ → ℕ → ℕ → Run Released
release through [] pending_bytes segments bytes =
    done
      (record { pending = []; pending_bytes = pending_bytes; segments = segments; bytes = bytes })
release through (p ∷ rest) pending_bytes segments bytes =
    if leb p.segment.sequence through
    then and_run (expect (checked_sub pending_bytes (length p.segment.bytes)))
        (λ left. release through rest left (segments + 1) (bytes + length p.segment.bytes))
    else done (record {
      pending = p ∷ rest;
      pending_bytes = pending_bytes;
      segments = segments;
      bytes = bytes;
    })

-- Whether a segment that would be released was sent in a later epoch than the acknowledgement's.
unfoldable pub acknowledges_later_epoch : Acknowledgement → List PendingSegment → Bool
acknowledges_later_epoch ack [] = false
acknowledges_later_epoch ack (p ∷ rest) =
    (leb p.segment.sequence ack.through && ltb ack.epoch p.segment.epoch)
    || acknowledges_later_epoch ack rest

-- The end of `acknowledge`: the session's totals.
unfoldable pub settle_release :
    SessionTracer → FlowId → ReliableFlow → Released → Run (Answer (Unit {0}))
settle_release self flow_id flow released =
    and_run (expect (checked_sub self.pending_segments released.segments)) λ pending_segments.
      and_run (expect (checked_sub self.pending_bytes released.bytes)) λ pending_bytes. done (
        record self {
          pending_segments = pending_segments;
          pending_bytes = pending_bytes;
          flows =
              insert flow_id
                (record flow { pending = released.pending; pending_bytes = released.pending_bytes })
                self.flows;
        },
        ok tt,
      )

-- `acknowledge` in a flow that exists.
unfoldable pub acknowledge_flow :
    SessionTracer → Acknowledgement → ReliableFlow → Run (Answer (Unit {0}))
acknowledge_flow self ack flow =
    if leb flow.next_send ack.through
    then done (self, err invalid_acknowledgement)
    else (if acknowledges_later_epoch ack flow.pending
        then done (self, err invalid_acknowledgement)
        else and_run (release ack.through flow.pending flow.pending_bytes 0 0)
            (settle_release self ack.flow_id flow))

-- `acknowledge`
unfoldable pub acknowledge : SessionTracer → Acknowledgement → Run (Answer (Unit {0}))
acknowledge self ack = elim (require_valid_epoch self ack.epoch) [
  | err error ↦ done (self, err error)
  | ok _ ↦ elim (get ack.flow_id self.flows) [
    | none ↦ done (self, err unknown_flow)
    | some flow ↦ acknowledge_flow self ack flow
  ]
]

-- The removal of a flow with all that is pending in it: `reset_reliable_flow` behind its lookup,
-- and the body of the second loop of `advance_time`.
unfoldable pub drop_flow : SessionTracer → FlowId → ReliableFlow → Run SessionTracer
drop_flow self flow_id flow =
    and_run (expect (checked_sub self.pending_segments (length flow.pending))) λ pending_segments.
      and_run (expect (checked_sub self.pending_bytes flow.pending_bytes)) λ pending_bytes.
        done (record self {
          pending_segments = pending_segments;
          pending_bytes = pending_bytes;
          flows = remove flow_id self.flows;
        })

-- `reset_reliable_flow`
unfoldable pub reset_reliable_flow : SessionTracer → FlowId → Run (Answer (Unit {0}))
unfolding drop_flow
reset_reliable_flow self flow_id = elim (get flow_id self.flows) [
  | none ↦ done (self, err unknown_flow)
  | some flow ↦ and_run (drop_flow self flow_id flow) λ self'. done (self', ok tt)
]
