-- ===== src/Session/Tracer/Progress.antt =====
-- When `receive` of crates/velum-session/src/lib.rs returns.
use velum.Prelude.{
  ◌+◌, ◌<◌, ◌≡◌, ◌≢◌, refl, inl, inr, Option-cases, Result-cases, u64_limit, true, ltb, Run, done,
  panic, arith,
}
use velum.Session.Flows.{get}
use velum.Session.Flows.Weights.{AllValues, get-AllValues}
use velum.Session.Tracer.{Segment, ReliableFlow, SessionTracer, Answer, require_valid_epoch}
use velum.Session.Tracer.Receive.{ReceiveResult, receive_flow, receive}
use velum.Session.Tracer.Invariant.{WellFormed, Keeps, Returns}
use velum.Session.Tracer.Delivery.{receive-Keeps}

-- No flow has received every sequence number that 64 bits hold.
abbrev pub Unexhausted : SessionTracer → Type 0
Unexhausted t = AllValues (λ flow. flow.next_receive + 1 < u64_limit) t.flows

receive_flow-ne-panic :
    (t : SessionTracer) (s : Segment) (flow : ReliableFlow)
    → flow.next_receive + 1 < u64_limit
    → receive_flow t s flow ≢ panic
unfolding receive_flow
receive_flow-ne-panic t s flow room =
    let fits : ltb (flow.next_receive + 1) u64_limit ≡ true = ground arith in
    rw fits (λ e. ground arith)

receive-ne-panic : (t : SessionTracer) (s : Segment) → Unexhausted t → receive t s ≢ panic
unfolding receive
receive-ne-panic t s room = elim (Result-cases (require_valid_epoch t s.epoch)) [
  | inr (error, e) ↦ rw (e, receive) (λ h. cc)
  | inl (_, e) ↦
      rw (e, receive)
        (elim (Option-cases (get s.flow_id t.flows)) [
          | inl missing ↦ rw missing (λ h. cc)
          | inr (flow, found) ↦ rw found (
              receive_flow-ne-panic t s flow (
                get-AllValues (λ flow. flow.next_receive + 1 < u64_limit) s.flow_id flow t.flows
                  room found))
        ])
]

-- `receive` in a session with no exhausted flow returns.
pub receive-Returns :
    (t : SessionTracer) (s : Segment) → WellFormed t → Unexhausted t → Returns (receive t s)
receive-Returns t s w room =
    returned (receive t s) (receive-Keeps t s w) (receive-ne-panic t s room)
  where
    returned : (m : Run (Answer ReceiveResult)) → Keeps m → m ≢ panic → Returns m
    returned (done answer) h n = h
    returned panic h n = n refl
