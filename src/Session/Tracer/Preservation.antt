-- ===== src/Session/Tracer/Preservation.antt =====
-- The invariant of `SessionTracer` (crates/velum-session/src/lib.rs) where flows are opened, closed
-- and reset.
use velum.Prelude.{
  ℕ, ◌+◌, ◌-◌, ◌≡◌, refl, ap, ◌∙◌, ◌≤◌, ◌<◌, inl, inr, some, Option-cases, ◌||◌, ◌==◌, List, [],
  ◌∷◌, length, arith, done, true, Bool-cases, u64_limit, ltb, leb, is_empty,
}
use velum.Protocol.Types.{FlowId}
use velum.Session.Flows.{
  get, insert, remove, get_found, get_above, insert-Rising, remove-Rising, Rising-mono,
}
use velum.Session.Flows.Weights.{
  weigh-insert_new, weigh-insert_old, weigh-remove, weigh-one, one, get-AllValues, insert-AllValues,
  remove-AllValues,
}
use velum.Session.Tracer.{ReliableFlow, PendingSegment, SessionTracer}
use velum.Session.Tracer.Send.{
  fresh_flow, open_reliable_flow_with_id, close_reliable_flow, drop_flow, reset_reliable_flow,
}
use velum.Session.Tracer.Invariant.{
  queue_bytes, FlowOk, flow_segments, flow_bytes, WellFormed, Returns, record_event-WellFormed,
}

-- A change of one flow that exists, with the totals changed alike.
pub replace_flow :
    (t : SessionTracer) (k : FlowId) (old new : ReliableFlow) (segments bytes : ℕ)
    → WellFormed t
    → get k t.flows ≡ some old
    → FlowOk t.limits new
    → segments + flow_segments old ≡ t.pending_segments + flow_segments new
    → bytes + flow_bytes old ≡ t.pending_bytes + flow_bytes new
    → segments ≤ t.limits.max_session_pending_segments
    → bytes ≤ t.limits.max_session_pending_bytes
    → WellFormed (record t {
      pending_segments = segments;
      pending_bytes = bytes;
      flows = insert k new t.flows;
    })
replace_flow t k old new segments bytes w found good es eb ls lb = record {
  transition_ok = w.transition_ok;
  rising =
      let (low, high) = get_found k 0 t.next_flow old t.flows w.rising found in
      insert-Rising k 0 t.next_flow new t.flows low high w.rising;
  flows_ok = insert-AllValues (FlowOk t.limits) k new t.flows good w.flows_ok;
  segments_total = omega (
    arith,
    w.segments_total,
    weigh-insert_old flow_segments k 0 t.next_flow new old t.flows w.rising found,
  );
  bytes_total = omega (
    arith,
    w.bytes_total,
    weigh-insert_old flow_bytes k 0 t.next_flow new old t.flows w.rising found,
  );
  segments_bound = ls;
  bytes_bound = lb;
  flows_bound = omega (
    arith,
    w.flows_bound,
    weigh-insert_old one k 0 t.next_flow new old t.flows w.rising found,
    weigh-one t.flows,
    weigh-one (insert k new t.flows),
  );
  events_bound = w.events_bound;
  events_positive = w.events_positive;
}

-- `open_reliable_flow_with_id`, on every branch.
pub open_reliable_flow_with_id-WellFormed :
    (t : SessionTracer) (k : FlowId) → WellFormed t → WellFormed (open_reliable_flow_with_id t k).0
unfolding open_reliable_flow_with_id
open_reliable_flow_with_id-WellFormed t k w =
    elim (Bool-cases (leb t.limits.max_flows (length t.flows))) [
      | inl full ↦ rw full w
      | inr room ↦ rw room (elim (Bool-cases (ltb k t.next_flow || k == u64_limit - 1)) [
        | inl used ↦ rw used w
        | inr free ↦
            rw free (record_event-WellFormed _ _ (opened t k w (ground arith) (ground arith)))
      ])
    ]
  where
    opened :
        (t : SessionTracer) (k : FlowId)
        → WellFormed t
        → length t.flows < t.limits.max_flows
        → t.next_flow ≤ k
        → WellFormed (record t { next_flow = k + 1; flows = insert k fresh_flow t.flows })
    opened t k w room free =
        let missing = get_above k 0 t.next_flow t.flows w.rising free in
        record {
          transition_ok = w.transition_ok;
          rising =
              insert-Rising k 0 (k + 1) fresh_flow t.flows (omega arith) (omega arith)
                (Rising-mono 0 0 t.next_flow (k + 1) t.flows (omega arith) (omega arith) w.rising);
          flows_ok =
              insert-AllValues (FlowOk t.limits) k fresh_flow t.flows
                (record {
                  bytes_counted = refl;
                  few = omega arith;
                  light = omega arith;
                  queued = tt;
                })
                w.flows_ok;
          segments_total = omega (
            arith,
            w.segments_total,
            weigh-insert_new flow_segments k fresh_flow t.flows missing,
          );
          bytes_total =
              omega
                (arith, w.bytes_total, weigh-insert_new flow_bytes k fresh_flow t.flows missing);
          segments_bound = w.segments_bound;
          bytes_bound = w.bytes_bound;
          flows_bound = omega (
            arith,
            weigh-insert_new one k fresh_flow t.flows missing,
            weigh-one t.flows,
            weigh-one (insert k fresh_flow t.flows),
          );
          events_bound = w.events_bound;
          events_positive = w.events_positive;
        }

-- The removal of a flow gives back exactly what it had pending.
pub drop_flow-WellFormed :
    (t : SessionTracer) (k : FlowId) (flow : ReliableFlow)
    → WellFormed t
    → get k t.flows ≡ some flow
    → (t' : SessionTracer) × (drop_flow t k flow ≡ done t')
      × (t'.flows ≡ remove k t.flows)
      × WellFormed t'
unfolding drop_flow
drop_flow-WellFormed t k flow w found =
    let segs = weigh-remove flow_segments k flow t.flows found in
    let bytes = weigh-remove flow_bytes k flow t.flows found in
    (
      record t {
        pending_segments = t.pending_segments - length flow.pending;
        pending_bytes = t.pending_bytes - flow.pending_bytes;
        flows = remove k t.flows;
      },
      ground (arith, segs, bytes, w.segments_total, w.bytes_total),
      refl,
      record {
        transition_ok = w.transition_ok;
        rising = remove-Rising k 0 t.next_flow t.flows w.rising;
        flows_ok = remove-AllValues (FlowOk t.limits) k t.flows w.flows_ok;
        segments_total = omega (arith, w.segments_total);
        bytes_total = omega (arith, w.bytes_total);
        segments_bound = omega (arith, w.segments_bound);
        bytes_bound = omega (arith, w.bytes_bound);
        flows_bound = omega (
          arith,
          w.flows_bound,
          weigh-remove one k flow t.flows found,
          weigh-one t.flows,
          weigh-one (remove k t.flows),
        );
        events_bound = w.events_bound;
        events_positive = w.events_positive;
      },
    )

-- `reset_reliable_flow` returns, and keeps the session well formed.
pub reset_reliable_flow-Returns :
    (t : SessionTracer) (k : FlowId) → WellFormed t → Returns (reset_reliable_flow t k)
unfolding reset_reliable_flow
reset_reliable_flow-Returns t k w = elim (Option-cases (get k t.flows)) [
  | inl e ↦ rw (e, reset_reliable_flow) w
  | inr (flow, e) ↦
      let (t', dropped, _, kept) = drop_flow-WellFormed t k flow w e in
      rw (e, reset_reliable_flow) (rw dropped kept)
]

-- `close_reliable_flow`, which takes only a flow with nothing pending.
pub close_reliable_flow-WellFormed :
    (t : SessionTracer) (k : FlowId) → WellFormed t → WellFormed (close_reliable_flow t k).0
unfolding close_reliable_flow
close_reliable_flow-WellFormed t k w = elim (Option-cases (get k t.flows)) [
  | inl e ↦ rw (e, close_reliable_flow) w
  | inr (flow, e) ↦
      rw (e, close_reliable_flow)
        (elim (Bool-cases (is_empty flow.pending)) [
          | inl empty ↦ rw empty (idle t k flow w e (nil_of_empty flow.pending empty))
          | inr filled ↦ rw filled w
        ])
]
  where
    idle :
        (t : SessionTracer) (k : FlowId) (flow : ReliableFlow)
        → WellFormed t
        → get k t.flows ≡ some flow
        → flow.pending ≡ []
        → WellFormed (record t { flows = remove k t.flows })
    idle t k flow w found none_left =
        let good = get-AllValues (FlowOk t.limits) k flow t.flows w.flows_ok found in
        let no_bytes : flow.pending_bytes ≡ 0 = good.bytes_counted ∙ ap queue_bytes none_left in
        let no_segments : length flow.pending ≡ 0 = ap length none_left in
        record {
          transition_ok = w.transition_ok;
          rising = remove-Rising k 0 t.next_flow t.flows w.rising;
          flows_ok = remove-AllValues (FlowOk t.limits) k t.flows w.flows_ok;
          segments_total =
              omega (arith, w.segments_total, weigh-remove flow_segments k flow t.flows found);
          bytes_total = omega (arith, w.bytes_total, weigh-remove flow_bytes k flow t.flows found);
          segments_bound = w.segments_bound;
          bytes_bound = w.bytes_bound;
          flows_bound = omega (
            arith,
            w.flows_bound,
            weigh-remove one k flow t.flows found,
            weigh-one t.flows,
            weigh-one (remove k t.flows),
          );
          events_bound = w.events_bound;
          events_positive = w.events_positive;
        }

    nil_of_empty : (q : List PendingSegment) → is_empty q ≡ true → q ≡ []
    nil_of_empty [] h = refl
    nil_of_empty (p ∷ q) h = cc
