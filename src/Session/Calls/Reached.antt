-- ===== src/Session/Calls/Reached.antt =====
-- The sessions that any calls from `SessionTracer::new` reach.
use mathlib.Core.Path.{subst}
use velum.Prelude.{
  ◌≡◌, List, [], ◌∷◌, Run, done, panic, and_run, and_run-elim, ◌<◌, refl, ltb, ◌&&◌, Bool-cases,
  inl, inr, arith, Option-cases, ok, err,
}
use velum.Protocol.Types.{FlowId, Epoch, VersionRange, negotiate_version}
use velum.Telemetry.{CarrierKind, TransitionReason, transition_rejected, incompatible_version}
use velum.Crypto.{Hmac}
use velum.Session.Transition.{new_transition}
use velum.Session.Tracer.{SessionTracer, FlowLimits, new_tracer, Answer}
use velum.Session.Tracer.Send.{
  open_reliable_flow, opened_as, send, acknowledge, reset_reliable_flow,
}
use velum.Session.Tracer.Receive.{receive, advance_time}
use velum.Session.Tracer.Lifecycle
use velum.Session.Tracer.Lifecycle.{
  begin_transition, begin_explained_transition, negotiate_transition_version,
}
use velum.Session.Tracer.Invariant.{WellFormed, Keeps, Returns, record_event-WellFormed}
use velum.Session.Tracer.Preservation.{
  open_reliable_flow_with_id-WellFormed, close_reliable_flow-WellFormed,
  reset_reliable_flow-Returns,
}
use velum.Session.Tracer.Accounting.{acknowledge-Returns, send-Keeps}
use velum.Session.Tracer.Timeouts.{advance_time-Keeps}
use velum.Session.Tracer.Delivery.{receive-Keeps, finish_receiving-WellFormed}
use velum.Session.Tracer.Attachment.{
  begin_transition-Keeps, complete_transition-WellFormed, bind_negotiated_parameters-WellFormed,
  authenticate_carrier_attachment-WellFormed,
}
use velum.Session.Calls.{
  Call, opens, opens_with_id, closes, resets, sends, receives, finishes, acknowledges, advances,
  binds, begins, completes, begins_explained, compares_versions, authenticates, left_by, perform,
  perform_all,
}

-- A session that a run leaves is well formed.
abbrev Leaves : Run SessionTracer → Type 0
Leaves (done t) = WellFormed t
Leaves panic = Unit {0}

kept {ℓ} : {A : Type ℓ} (m : Run (SessionTracer × A)) → Keeps m → Leaves (left_by m)
kept (done (t, a)) w = w
kept panic w = tt

returned {ℓ} : {A : Type ℓ} (m : Run (SessionTracer × A)) → Returns m → Leaves (left_by m)
returned (done (t, a)) w = w
returned panic w = tt

opened_as-WellFormed :
    (k : FlowId) (answer : Answer (Unit {0}))
    → WellFormed answer.0
    → WellFormed (opened_as k answer).0
opened_as-WellFormed k (t, ok a) w = w
opened_as-WellFormed k (t, err e) w = w

open_reliable_flow-WellFormed :
    (t : SessionTracer) → WellFormed t → WellFormed (open_reliable_flow t).0
unfolding open_reliable_flow
open_reliable_flow-WellFormed t w =
    opened_as-WellFormed t.next_flow _ (open_reliable_flow_with_id-WellFormed t t.next_flow w)

begin_explained_transition-Keeps :
    (t : SessionTracer) (from to : CarrierKind) (reason : TransitionReason)
    → WellFormed t
    → Keeps (begin_explained_transition t from to reason)
unfolding begin_explained_transition
begin_explained_transition-Keeps t from to reason w =
    explained-Keeps (begin_transition t) (begin_transition-Keeps t w)
  where
    explained-Keeps :
        (m : Run (Answer Epoch))
        → Keeps m
        → Keeps (
            and_run m
              λ answer. done (velum.Session.Tracer.Lifecycle.explained from to reason answer))
    explained-Keeps panic h = tt
    explained-Keeps (done (t', err e)) h = h
    explained-Keeps (done (t', ok e)) h = record_event-WellFormed t' _ h

negotiate_transition_version-WellFormed :
    (t : SessionTracer) (local peer : VersionRange)
    → WellFormed t
    → WellFormed (negotiate_transition_version t local peer).0
unfolding negotiate_transition_version
negotiate_transition_version-WellFormed t local peer w =
    elim (Option-cases (negotiate_version local peer)) [
      | inr (version, e) ↦ rw (e, negotiate_transition_version) w
      | inl e ↦
          rw (e, negotiate_transition_version)
            (record_event-WellFormed t (transition_rejected incompatible_version) w)
    ]

new_tracer-Leaves : (epoch : Epoch) (limits : FlowLimits) → Leaves (new_tracer epoch limits)
unfolding new_tracer new_transition
new_tracer-Leaves epoch limits =
    elim (Bool-cases (
      ltb 0 limits.max_pending_segments
      && (ltb 0 limits.max_pending_bytes
          && (ltb 0 limits.max_session_pending_segments
              && (ltb 0 limits.max_session_pending_bytes
                  && (ltb 0 limits.max_pending_age
                      && (ltb 0 limits.max_flows && ltb 0 limits.max_events))))))) [
                        | inr c ↦ rw c tt
                        | inl c ↦
                            let positive : 0 < limits.max_events = ground arith in
                            rw c (record {
                              transition_ok = tt;
                              rising = tt;
                              flows_ok = tt;
                              segments_total = refl;
                              bytes_total = refl;
                              segments_bound = omega arith;
                              bytes_bound = omega arith;
                              flows_bound = omega arith;
                              events_bound = omega arith;
                              events_positive = positive;
                            })
                      ]

new_tracer-WellFormed :
    (epoch : Epoch) (limits : FlowLimits) (t : SessionTracer)
    → new_tracer epoch limits ≡ done t
    → WellFormed t
new_tracer-WellFormed epoch limits t e = subst Leaves e (new_tracer-Leaves epoch limits)

module _ (hmac : Hmac) where
  perform-Leaves : (t : SessionTracer) (c : Call) → WellFormed t → Leaves (perform hmac t c)
  unfolding perform
  perform-Leaves t opens w = open_reliable_flow-WellFormed t w
  perform-Leaves t (opens_with_id k) w = open_reliable_flow_with_id-WellFormed t k w
  perform-Leaves t (closes k) w = close_reliable_flow-WellFormed t k w
  perform-Leaves t (resets k) w =
      returned (reset_reliable_flow t k) (reset_reliable_flow-Returns t k w)
  perform-Leaves t (sends k bytes) w = kept (send t k bytes) (send-Keeps t k bytes w)
  perform-Leaves t (receives segment) w = kept (receive t segment) (receive-Keeps t segment w)
  perform-Leaves t (finishes k epoch final) w = finish_receiving-WellFormed t k epoch final w
  perform-Leaves t (acknowledges ack) w = returned (acknowledge t ack) (acknowledge-Returns t ack w)
  perform-Leaves t (advances ticks) w = kept (advance_time t ticks) (advance_time-Keeps t ticks w)
  perform-Leaves t (binds parameters) w = bind_negotiated_parameters-WellFormed t parameters w
  perform-Leaves t begins w = kept (begin_transition t) (begin_transition-Keeps t w)
  perform-Leaves t completes w = complete_transition-WellFormed t w
  perform-Leaves t (begins_explained from to reason) w =
      kept (begin_explained_transition t from to reason)
        (begin_explained_transition-Keeps t from to reason w)
  perform-Leaves t (compares_versions local peer) w =
      negotiate_transition_version-WellFormed t local peer w
  perform-Leaves t (authenticates auth session a) w =
      authenticate_carrier_attachment-WellFormed hmac t auth session a w

  perform_all-WellFormed :
      (t t' : SessionTracer) (calls : List Call)
      → WellFormed t
      → perform_all hmac t calls ≡ done t'
      → WellFormed t'
  unfolding perform_all
  perform_all-WellFormed t t' [] w e = subst Leaves e w
  perform_all-WellFormed t t' (c ∷ calls) w e =
      and_run-elim (perform hmac t c) (λ u. perform_all hmac u calls) e
        λ u p q.
          let kept_u = subst Leaves p (perform-Leaves t c w) in
          perform_all-WellFormed u t' calls kept_u q

  pub reached-WellFormed :
      (epoch : Epoch) (limits : FlowLimits) (start t : SessionTracer) (calls : List Call)
      → new_tracer epoch limits ≡ done start
      → perform_all hmac start calls ≡ done t
      → WellFormed t
  reached-WellFormed epoch limits start t calls made ran =
      perform_all-WellFormed start t calls (new_tracer-WellFormed epoch limits start made) ran
