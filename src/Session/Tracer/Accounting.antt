-- ===== src/Session/Tracer/Accounting.antt =====
-- The queues, limits and totals of `SessionTracer` (crates/velum-session/src/lib.rs) in `send` and
-- `acknowledge`.
use velum.Prelude.{
  ℕ, ◌+◌, ◌-◌, ◌≡◌, refl, ◌≤◌, ◌<◌, inl, inr, some, Option-cases, Result-cases, List, [], ◌∷◌, ◌++◌,
  length, length-append, arith, done, Bool-cases, u64_limit, checked_sub, ltb, leb, ◌==◌,
}
use velum.Protocol.Types.{FlowId, Sequence}
use velum.Telemetry.{pending_limit_reached}
use velum.Session.Flows.{get}
use velum.Session.Flows.Weights.{weigh-remove, get-AllValues}
use velum.Session.Tracer.{
  Acknowledgement, ReliableFlow, PendingSegment, SessionTracer, require_valid_epoch,
}
use velum.Session.Tracer.Send.{
  send, send_segment, Released, release, settle_release, acknowledge, acknowledge_flow,
  acknowledges_later_epoch,
}
use velum.Session.Tracer.Invariant.{
  queue_bytes, Sequenced, FlowOk, flow_segments, flow_bytes, WellFormed, Keeps, Returns,
  record_event-WellFormed, Sequenced_push, queue_bytes-append,
}
use velum.Session.Tracer.Preservation.{replace_flow}

-- What the loop of `acknowledge` makes of a queue.
pub record Releases (next through : Sequence) (queue : List PendingSegment) (fb segs bytes : ℕ)
    (r : Released) : Type 0 where
  pub segments_counted : r.segments + length r.pending ≡ segs + length queue
  pub bytes_counted : r.bytes + queue_bytes r.pending ≡ bytes + queue_bytes queue
  pub left_counted : r.pending_bytes + queue_bytes queue ≡ fb + queue_bytes r.pending
  pub still_queued : Sequenced next r.pending
  pub shorter : length r.pending ≤ length queue
  pub lighter : queue_bytes r.pending ≤ queue_bytes queue

enough : (a b : ℕ) → b ≤ a → checked_sub a b ≡ some (a - b)
enough a b h = ground arith

pub release_lem :
    (next through : Sequence) (queue : List PendingSegment) (fb segs bytes : ℕ)
    → queue_bytes queue ≤ fb
    → Sequenced next queue
    → (r : Released) × (release through queue fb segs bytes ≡ done r)
      × Releases next through queue fb segs bytes r
unfolding release
release_lem next through [] fb segs bytes h s = (
  record { pending = []; pending_bytes = fb; segments = segs; bytes = bytes },
  refl,
  ground arith,
)
release_lem next through (p ∷ rest) fb segs bytes h s =
    elim (Bool-cases (leb p.segment.sequence through)) [
      | inr keep ↦ (
        record { pending = p ∷ rest; pending_bytes = fb; segments = segs; bytes = bytes },
        rw keep,
        record {
          segments_counted = refl;
          bytes_counted = refl;
          left_counted = refl;
          still_queued = s;
          shorter = omega arith;
          lighter = omega arith;
        },
      )
      | inl gone ↦
          let (r, e, ih) =
            release_lem next through rest (fb - length p.segment.bytes) (segs + 1)
              (bytes + length p.segment.bytes) (omega arith) s.1 in
          (
            r,
            rw gone (rw (enough fb (length p.segment.bytes) (omega arith)) e),
            record {
              segments_counted = omega (arith, ih.segments_counted);
              bytes_counted = omega (arith, ih.bytes_counted);
              left_counted = omega (arith, ih.left_counted);
              still_queued = ih.still_queued;
              shorter = omega (arith, ih.shorter);
              lighter = omega (arith, ih.lighter);
            },
          )
    ]

-- The end of `acknowledge`, behind the loop.
settle_release-Returns :
    (t : SessionTracer) (k through : ℕ) (flow : ReliableFlow) (r : Released)
    → WellFormed t
    → get k t.flows ≡ some flow
    → Releases flow.next_send through flow.pending flow.pending_bytes 0 0 r
    → Returns (settle_release t k flow r)
unfolding settle_release
settle_release-Returns t k through flow r w found rel =
    let good = get-AllValues (FlowOk t.limits) k flow t.flows w.flows_ok found in
    let segs = weigh-remove flow_segments k flow t.flows found in
    let bytes = weigh-remove flow_bytes k flow t.flows found in
    rw
      (enough t.pending_segments r.segments (omega (arith, w.segments_total, rel.segments_counted)))
      (rw
        (enough t.pending_bytes r.bytes
          (omega (arith, w.bytes_total, rel.bytes_counted, good.bytes_counted)))
        (replace_flow t k flow
          (record flow { pending = r.pending; pending_bytes = r.pending_bytes })
          (t.pending_segments - r.segments) (t.pending_bytes - r.bytes) w found
          (record {
            bytes_counted = omega (arith, rel.left_counted, good.bytes_counted);
            few = omega (arith, rel.shorter, good.few);
            light = omega (arith, rel.left_counted, rel.lighter, good.light, good.bytes_counted);
            queued = rel.still_queued;
          })
          (omega (arith, w.segments_total, rel.segments_counted))
          (omega (arith, w.bytes_total, rel.bytes_counted, rel.left_counted, good.bytes_counted))
          (omega (arith, w.segments_bound)) (omega (arith, w.bytes_bound))))

acknowledge_flow-Returns :
    (t : SessionTracer) (ack : Acknowledgement) (flow : ReliableFlow)
    → WellFormed t
    → get ack.flow_id t.flows ≡ some flow
    → Returns (acknowledge_flow t ack flow)
unfolding acknowledge_flow
acknowledge_flow-Returns t ack flow w found = elim (Bool-cases (leb flow.next_send ack.through)) [
  | inl beyond ↦ rw beyond w
  | inr sent ↦ rw sent (elim (Bool-cases (acknowledges_later_epoch ack flow.pending)) [
    | inl later ↦ rw later w
    | inr fine ↦
        let good = get-AllValues (FlowOk t.limits) ack.flow_id flow t.flows w.flows_ok found in
        let (r, e, rel) =
          release_lem flow.next_send ack.through flow.pending flow.pending_bytes 0 0
            (omega (arith, good.bytes_counted)) good.queued in
        rw fine (rw e (settle_release-Returns t ack.flow_id ack.through flow r w found rel))
  ])
]

-- On a well-formed session `acknowledge` never panics: none of its subtractions underflows; and
-- what it leaves is well formed, whether it accepts or refuses.
pub acknowledge-Returns :
    (t : SessionTracer) (ack : Acknowledgement) → WellFormed t → Returns (acknowledge t ack)
unfolding acknowledge
acknowledge-Returns t ack w = elim (Result-cases (require_valid_epoch t ack.epoch)) [
  | inr (error, e) ↦ rw (e, acknowledge) w
  | inl (_, e) ↦
      rw (e, acknowledge)
        (elim (Option-cases (get ack.flow_id t.flows)) [
          | inl missing ↦ rw missing w
          | inr (flow, found) ↦ rw found (acknowledge_flow-Returns t ack flow w found)
        ])
]

send_segment-Keeps :
    (t : SessionTracer) (k : FlowId) (flow : ReliableFlow) (bytes : List ℕ)
    → WellFormed t
    → get k t.flows ≡ some flow
    → t.pending_segments < t.limits.max_session_pending_segments
    → t.pending_bytes + length bytes ≤ t.limits.max_session_pending_bytes
    → length flow.pending < t.limits.max_pending_segments
    → flow.pending_bytes + length bytes ≤ t.limits.max_pending_bytes
    → Keeps (send_segment t k flow bytes)
unfolding send_segment
send_segment-Keeps t k flow bytes w found s1 b1 s2 b2 =
    elim (Bool-cases (ltb (flow.next_send + 1) u64_limit)) [
      | inr spent ↦ rw spent tt
      | inl next_fits ↦
          rw next_fits (elim (Bool-cases (ltb (t.tick + t.limits.max_pending_age) u64_limit)) [
            | inr late ↦ rw late tt
            | inl age_fits ↦
                let good = get-AllValues (FlowOk t.limits) k flow t.flows w.flows_ok found in
                let p : PendingSegment = record {
                  segment = record {
                    flow_id = k;
                    epoch = t.transition.current;
                    sequence = flow.next_send;
                    bytes = bytes;
                  };
                  expires_at = t.tick + t.limits.max_pending_age;
                } in
                rw age_fits (
                  replace_flow t k flow
                    (record flow {
                      next_send = flow.next_send + 1;
                      pending = flow.pending ++ (p ∷ []);
                      pending_bytes = flow.pending_bytes + length bytes;
                    })
                    (t.pending_segments + 1) (t.pending_bytes + length bytes) w found
                    (record {
                      bytes_counted =
                          omega (arith, good.bytes_counted, queue_bytes-append flow.pending p);
                      few = omega (arith, length-append flow.pending (p ∷ []));
                      light = b2;
                      queued = Sequenced_push flow.next_send flow.pending p refl good.queued;
                    })
                    (omega (arith, length-append flow.pending (p ∷ []))) (omega arith) (omega arith)
                    b1)
          ])
    ]

-- Whatever `send` returns, with a segment or with a refusal, the session stays well formed: no
-- limit on segments or bytes, of the flow or of the session, is ever exceeded.
pub send-Keeps :
    (t : SessionTracer) (k : FlowId) (bytes : List ℕ) → WellFormed t → Keeps (send t k bytes)
unfolding send
send-Keeps t k bytes w = elim (Option-cases (get k t.flows)) [
  | inl e ↦ rw (e, send) w
  | inr (flow, e) ↦
      let good = get-AllValues (FlowOk t.limits) k flow t.flows w.flows_ok e in
      let refused = record_event-WellFormed t pending_limit_reached w in
      rw (e, send)
        (elim (Bool-cases (leb t.limits.max_session_pending_segments t.pending_segments)) [
          | inl c1 ↦ rw c1 refused
          | inr c1 ↦
              rw c1
                (elim (Bool-cases
                  (ltb (t.limits.max_session_pending_bytes - t.pending_bytes) (length bytes))) [
                    | inl c2 ↦ rw c2 refused
                    | inr c2 ↦
                        rw c2
                          (elim (Bool-cases
                            (length flow.pending == t.limits.max_pending_segments)) [
                              | inl c3 ↦ rw c3 refused
                              | inr c3 ↦
                                  rw c3
                                    (elim (Bool-cases (
                                      ltb (t.limits.max_pending_bytes - flow.pending_bytes)
                                        (length bytes))) [
                                          | inl c4 ↦ rw c4 refused
                                          | inr c4 ↦ rw c4 (
                                              send_segment-Keeps t k flow bytes w e (ground arith)
                                                (ground arith) (ground (arith, good.few))
                                                (ground (arith, good.light)))
                                        ])
                            ])
                  ])
        ])
]
