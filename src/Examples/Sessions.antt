-- ===== src/Examples/Sessions.antt =====
-- Runs of a session and its dispatcher of crates/velum-session.
use velum.Prelude.{
  Result, ℕ, ◌+◌, ◌≡◌, ◌≤◌, ◌<◌, ◌⊎◌, ◌↔◌, List, [], ◌∷◌, ◌++◌, length, ok, Option, none, some,
  refl, arith, All, done, to_be_bytes, false,
}
use velum.Protocol.Types.{parameters_eq, canonical_bytes, Epoch}
use velum.Protocol.Frame.{attach}
use velum.Crypto.{attachment_context, verify, accept, accepts}
use velum.Telemetry.{flow_opened, duplicate_ignored, out_of_order_rejected}
use velum.Session.Transition.{new_transition, advance, validate, stale, future, validate-window}
use velum.Session.Flows.{get, insert}
use velum.Session.Tracer.{
  ReliableFlow, SessionTracer, Segment, PendingSegment, new_tracer, record_event,
  require_valid_epoch,
}
use velum.Session.Tracer.Send.{
  open_reliable_flow, open_reliable_flow_with_id, send, send_segment, acknowledge, acknowledge_flow,
  acknowledges_later_epoch, release, settle_release, Released, fresh_flow,
}
use velum.Session.Tracer.Receive.{receive, receive_flow, is_beyond, advance_time}
use velum.Session.Tracer.Lifecycle.{
  CarrierAttachment, accepted, already_accepted, authenticate_carrier_attachment, verify_attachment,
  accept_attachment, is_accepted, begin_transition,
}
use velum.Session.Tracer.Invariant.{WellFormed, Returns}
use velum.Session.Tracer.Accounting.{acknowledge-Returns}
use velum.Session.Tracer.Timeouts.{advance_time-Returns}
use velum.Session.Tracer.Acknowledged.{release_exact}
use velum.Session.Tracer.Progress.{Unexhausted}
use velum.Session.Tracer.Resumed.{Reissues, resume_unacknowledged-Reissues}
use velum.Session.Tracer.InOrder.{receive_all, receive_all-in_order, cursor, count_from}
use velum.Session.Tracer.Authenticated.{authenticate-retry}
use velum.Session.Dispatcher.{SessionFrameDispatcher, DispatchError, DispatchOutcome, dispatch}
use velum.Session.Dispatcher.Safety.{dispatch-WellFormed}
use velum.Session.Calls.{Call, opens, sends, acknowledges, begins, perform, perform_all}
use velum.Session.Calls.Reached.{reached-WellFormed}
use velum.Examples.Data.{ones, agreed, limits, new_session, open_session, toy_hmac, authenticator}

abbrev segment : ℕ → List ℕ → Segment
segment sequence bytes = record { flow_id = 0; epoch = 0; sequence = sequence; bytes = bytes }

abbrev queued : PendingSegment
queued = record { segment = segment 1 (4 ∷ []); expires_at = 10 }

abbrev calls : List Call
calls =
    opens
    ∷ sends 0 (1 ∷ 2 ∷ [])
    ∷ acknowledges (record { flow_id = 0; epoch = 0; through = 0 })
    ∷ sends 0 (4 ∷ [])
    ∷ begins
    ∷ []

-- What these calls leave.
abbrev moved_session : SessionTracer
moved_session = record new_session {
  transition = record { current = 1; retiring = some 0 };
  next_flow = 1;
  pending_segments = 1;
  pending_bytes = 1;
  flows = (0, record fresh_flow { next_send = 2; pending = queued ∷ []; pending_bytes = 1 }) ∷ [];
  events = flow_opened ∷ [];
}

made : new_tracer 0 limits ≡ done new_session
unfolding new_tracer new_transition
made = refl

ran : perform_all toy_hmac new_session calls ≡ done moved_session
unfolding perform_all perform open_reliable_flow open_reliable_flow_with_id record_event get insert
    send send_segment acknowledge require_valid_epoch validate acknowledge_flow
    acknowledges_later_epoch release settle_release begin_transition advance
ran = refl

moved_session-WellFormed : WellFormed moved_session
moved_session-WellFormed =
    reached-WellFormed toy_hmac 0 limits new_session moved_session calls made ran

acknowledge-Returns_example :
    Returns (acknowledge moved_session (record { flow_id = 0; epoch = 0; through = 1 }))
acknowledge-Returns_example =
    acknowledge-Returns moved_session (record { flow_id = 0; epoch = 0; through = 1 })
      moved_session-WellFormed

advance_time-Returns_example : Returns (advance_time moved_session 10)
advance_time-Returns_example =
    advance_time-Returns moved_session 10 moved_session-WellFormed (omega arith)

abbrev two_queued : List PendingSegment
two_queued = record { segment = segment 0 (1 ∷ 2 ∷ []); expires_at = 10 } ∷ queued ∷ []

abbrev one_released : Released
one_released = record { pending = queued ∷ []; pending_bytes = 1; segments = 1; bytes = 2 }

released : release 0 two_queued 3 0 0 ≡ done one_released
unfolding release
released = refl

release_exact_example :
    (gone : List PendingSegment) × (two_queued ≡ gone ++ (queued ∷ []))
    × All (λ (p : PendingSegment). p.segment.sequence ≤ 0) gone
    × All (λ (p : PendingSegment). 0 < p.segment.sequence) (queued ∷ [])
    × (1 ≡ 0 + length gone)
release_exact_example = release_exact 2 0 two_queued 3 0 0 one_released (refl, (refl, tt)) released

-- The segments 0, 1, 1 again, and 3 too early.
abbrev arriving : List Segment
arriving = segment 0 (5 ∷ []) ∷ segment 1 (6 ∷ []) ∷ segment 1 (6 ∷ []) ∷ segment 3 (7 ∷ []) ∷ []

abbrev received_session : SessionTracer
received_session = record open_session {
  flows = (0, record fresh_flow { next_receive = 2 }) ∷ [];
  events = duplicate_ignored ∷ out_of_order_rejected ∷ [];
}

arrived : receive_all 0 open_session arriving ≡ done (received_session, 0 ∷ 1 ∷ [])
unfolding receive_all receive require_valid_epoch validate get insert receive_flow is_beyond
    record_event
arrived = refl

flow_0 : cursor (get 0 open_session.flows) ≡ some 0
unfolding get
flow_0 = refl

receive_all-in_order_example :
    (◌≡◌ {A = List ℕ} (0 ∷ 1 ∷ []) (count_from 0 2))
    × (cursor (get 0 received_session.flows) ≡ some 2)
receive_all-in_order_example =
    receive_all-in_order 0 0 arriving open_session received_session (0 ∷ 1 ∷ []) flow_0 arrived

abbrev proof : List ℕ
proof =
    1 ∷ 109 ∷ 0 ∷ 0 ∷ 0 ∷ 0 ∷ 0 ∷ 0 ∷ 0 ∷ 0 ∷ 0 ∷ 0 ∷ 0 ∷ 0 ∷ 0 ∷ 0 ∷ 0 ∷ 0 ∷ 0 ∷ 0 ∷ 0 ∷ 0 ∷ 0 ∷ 0
    ∷ 0 ∷ 0 ∷ 0 ∷ 0 ∷ 0 ∷ 0 ∷ 0 ∷ 0 ∷ []

abbrev attempt : CarrierAttachment
attempt = record {
  carrier = 1;
  epoch = 0;
  attachment_id = ones;
  parameters = agreed;
  proof = proof;
}

abbrev attached_session : SessionTracer
attached_session = record open_session {
  attachment_replay = some 0;
  accepted_attachment = some (record { carrier = 1; epoch = 0; attachment_id = ones });
}

authenticated :
    authenticate_carrier_attachment toy_hmac open_session authenticator ones attempt
    ≡ (attached_session, ok accepted)
unfolding authenticate_carrier_attachment verify_attachment accept_attachment is_accepted validate
    verify attachment_context to_be_bytes canonical_bytes accept accepts parameters_eq
authenticated = refl

authenticate-retry_example :
    authenticate_carrier_attachment toy_hmac attached_session authenticator ones attempt
    ≡ (attached_session, ok already_accepted)
authenticate-retry_example =
    authenticate-retry toy_hmac open_session attached_session authenticator ones attempt
      authenticated

abbrev dispatcher : SessionFrameDispatcher
dispatcher = record {
  session_id = ones;
  carrier = 1;
  authenticator = authenticator;
  is_closed = false;
}

open_session-WellFormed : WellFormed open_session
open_session-WellFormed = record {
  transition_ok = tt;
  rising = (omega arith, omega arith, tt);
  flows_ok =
      (record { bytes_counted = refl; few = omega arith; light = omega arith; queued = tt }, tt);
  segments_total = refl;
  bytes_total = refl;
  segments_bound = omega arith;
  bytes_bound = omega arith;
  flows_bound = omega arith;
  events_bound = omega arith;
  events_positive = omega arith;
}

open_session-Unexhausted : Unexhausted open_session
open_session-Unexhausted = (omega arith, tt)

dispatch-WellFormed_example :
    (self' : SessionFrameDispatcher) × (t' : SessionTracer) × (result : Result DispatchOutcome
      DispatchError)
    × (dispatch toy_hmac dispatcher open_session (attach ones 0 ones agreed proof)
        ≡ done (self', t', result))
    × WellFormed t'
dispatch-WellFormed_example =
    dispatch-WellFormed toy_hmac dispatcher open_session (attach ones 0 ones agreed proof)
      open_session-WellFormed open_session-Unexhausted

validate-window_example :
    ((validate (record { current = 3; retiring = some 2 }) 1 ≡ stale)
      ↔ ((1 < 3) × ((◌≡◌ {A = Option Epoch} (some 2) none) ⊎ (1 + 1 < 3))))
    × ((validate (record { current = 3; retiring = some 2 }) 1 ≡ future) ↔ (3 < 1))
validate-window_example = validate-window (record { current = 3; retiring = some 2 }) 1 refl

abbrev waiting_flow : ReliableFlow
waiting_flow = record fresh_flow { next_send = 2; pending = queued ∷ []; pending_bytes = 1 }

waits : get 0 moved_session.flows ≡ some waiting_flow
unfolding get
waits = refl

resume_unacknowledged-Reissues_example :
    (again : List Segment) × Reissues moved_session 0 waiting_flow again
resume_unacknowledged-Reissues_example =
    resume_unacknowledged-Reissues moved_session 0 waiting_flow moved_session-WellFormed waits
