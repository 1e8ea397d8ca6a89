-- ===== src/Session/Tracer/Timeouts.antt =====
-- Flows that time out in `advance_time` of crates/velum-session/src/lib.rs.
use velum.Prelude.{
  ℕ, suc, ◌+◌, ◌≡◌, refl, ◌∙◌, ◌≤◌, ◌<◌, some, List, [], ◌∷◌, arith, Run, done, panic, Bool-cases,
  true, false, u64_limit, ltb, ◌==◌, inl, inr, All,
}
use velum.Protocol.Types.{FlowId}
use velum.Telemetry.{flow_timed_out}
use velum.Session.Flows.{get, remove, Rising, get-remove}
use velum.Session.Tracer.{ReliableFlow, SessionTracer, record_event}
use velum.Session.Tracer.Receive.{
  has_expired, timed_out_flows, drop_flows, record_timeouts, advance_time,
}
use velum.Session.Tracer.Invariant.{WellFormed, Returns, Keeps, record_event-WellFormed}
use velum.Session.Tracer.Preservation.{drop_flow-WellFormed}

abbrev Present : List (FlowId × ReliableFlow) → FlowId → Type 0
Present m k = (v : ReliableFlow) × (get k m ≡ some v)

abbrev RisingIds : ℕ → List FlowId → Type 0
RisingIds low [] = Unit {0}
RisingIds low (k ∷ ks) = (low ≤ k) × RisingIds (suc k) ks

RisingIds-mono :
    (low low' : ℕ) (ks : List FlowId) → low' ≤ low → RisingIds low ks → RisingIds low' ks
RisingIds-mono low low' [] h r = tt
RisingIds-mono low low' (k ∷ ks) h r = (omega arith, r.1)

still_there :
    (j : ℕ) (v : ReliableFlow) (m : List (FlowId × ReliableFlow)) (ks : List FlowId)
    → RisingIds (suc j) ks
    → All (Present m) ks
    → All (Present ((j, v) ∷ m)) ks
unfolding get
still_there j v m [] r h = tt
still_there j v m (k ∷ ks) r ((w, found), h) =
    let miss : (j == k) ≡ false = ground arith in
    (
      (w, rw miss found),
      still_there j v m ks (RisingIds-mono (suc k) (suc j) ks (omega arith) r.1) h,
    )

timed_out_flows_lem :
    (tick low high : ℕ) (m : List (FlowId × ReliableFlow))
    → Rising low high m
    → RisingIds low (timed_out_flows tick m) × All (Present m) (timed_out_flows tick m)
unfolding timed_out_flows
timed_out_flows_lem tick low high [] r = (tt, tt)
timed_out_flows_lem tick low high ((k, v) ∷ m) (a, b, r) =
    let (up, here) = timed_out_flows_lem tick (suc k) high m r in
    let later = still_there k v m (timed_out_flows tick m) up here in
    elim (Bool-cases (has_expired tick v.pending)) [
      | inl c ↦ rw c ((a, up), ((v, found_first k v m), later))
      | inr c ↦ rw c (RisingIds-mono (suc k) low (timed_out_flows tick m) (omega arith) up, later)
    ]
  where
    found_first :
        (k : ℕ) (v : ReliableFlow) (m : List (FlowId × ReliableFlow)) → get k ((k, v) ∷ m) ≡ some v
    found_first k v m = unfold get in ground arith

there_after :
    (k high : ℕ) (m : List (FlowId × ReliableFlow)) (ks : List FlowId)
    → Rising 0 high m
    → RisingIds (suc k) ks
    → All (Present m) ks
    → All (Present (remove k m)) ks
there_after k high m [] r up h = tt
there_after k high m (j ∷ ks) r up ((v, found), h) =
    let miss : (k == j) ≡ false = ground arith in
    (
      (v, get-remove k j 0 high m r ∙ rw miss found),
      there_after k high m ks r (RisingIds-mono (suc j) (suc k) ks (omega arith) up.1) h,
    )

drop_flows_lem :
    (t : SessionTracer) (low : ℕ) (ks : List FlowId)
    → WellFormed t
    → RisingIds low ks
    → All (Present t.flows) ks
    → (t' : SessionTracer) × (drop_flows t ks ≡ done t') × WellFormed t'
unfolding drop_flows
drop_flows_lem t low [] w up h = (t, refl, w)
drop_flows_lem t low (k ∷ ks) w up ((v, found), h) =
    let (mid, dropped, flows, kept) = drop_flow-WellFormed t k v w found in
    let left = there_after k t.next_flow t.flows ks w.rising up.1 h in
    let (last, rest, good) = drop_flows_lem mid (suc k) ks kept up.1 (rw flows left) in
    (last, rw (found, dropped) rest, good)

record_timeouts-WellFormed :
    (t : SessionTracer) (ks : List FlowId) → WellFormed t → WellFormed (record_timeouts t ks)
unfolding record_timeouts
record_timeouts-WellFormed t [] w = w
record_timeouts-WellFormed t (k ∷ ks) w =
    record_timeouts-WellFormed (record_event t flow_timed_out) ks
      (record_event-WellFormed t flow_timed_out w)

at_tick : (t : SessionTracer) (tick : ℕ) → WellFormed t → WellFormed (record t { tick = tick })
at_tick t tick w = record {
  transition_ok = w.transition_ok;
  rising = w.rising;
  flows_ok = w.flows_ok;
  segments_total = w.segments_total;
  bytes_total = w.bytes_total;
  segments_bound = w.segments_bound;
  bytes_bound = w.bytes_bound;
  flows_bound = w.flows_bound;
  events_bound = w.events_bound;
  events_positive = w.events_positive;
}

-- On a well-formed session `advance_time` panics only where the clock leaves 64 bits: while
-- `tick + ticks` fits, it returns, and what it leaves is well formed.
pub advance_time-Returns :
    (t : SessionTracer) (ticks : ℕ)
    → WellFormed t
    → t.tick + ticks < u64_limit
    → Returns (advance_time t ticks)
unfolding advance_time
advance_time-Returns t ticks w fits =
    let inside : ltb (t.tick + ticks) u64_limit ≡ true = ground arith in
    let (up, here) = timed_out_flows_lem (t.tick + ticks) 0 t.next_flow t.flows w.rising in
    let (t', dropped, kept) =
      drop_flows_lem (record t { tick = t.tick + ticks }) 0
        (timed_out_flows (t.tick + ticks) t.flows) (at_tick t (t.tick + ticks) w) up here in
    rw inside (rw dropped (record_timeouts-WellFormed t' _ kept))

pub advance_time-Keeps :
    (t : SessionTracer) (ticks : ℕ) → WellFormed t → Keeps (advance_time t ticks)
advance_time-Keeps t ticks w = elim (Bool-cases (ltb (t.tick + ticks) u64_limit)) [
  | inl fits ↦ returned (advance_time t ticks) (advance_time-Returns t ticks w (ground arith))
  | inr late ↦ unfold advance_time in rw late tt
]
  where
    returned : (r : Run (SessionTracer × List FlowId)) → Returns r → Keeps r
    returned (done answer) h = h
    returned panic h = tt
