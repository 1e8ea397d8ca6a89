-- ===== src/Examples/Runtimes.antt =====
-- Runs of crates/velum-client-runtime/src/lib.rs.
use velum.Prelude.{ℕ, ◌≡◌, refl, none, some, true, false, List, [], ◌∷◌, ok, done, arith}
use velum.Runtime.Lifecycle.{RuntimeFailure}
use velum.Runtime.Control.{
  ClientRuntime, new_runtime, Event, starts, connects, closes, stops, run, step, stop,
  is_generation_online, started_as, connected_as, noted,
}
use velum.Runtime.Control.Spec.{idle, up, represent, respond_all, new_authority}
use velum.Runtime.Control.Refines.{run_refines}
use velum.Runtime.Control.Ended.{stop-final}
use velum.Net.{v4}
use velum.Tun.{FlowKey, tcp, new_socket}
use velum.Tun.Registry.{TunFlowRegistry, default_limits, admit, is_active}
use velum.Tun.Registry.Grants.{Above}
use velum.Tun.Registry.Leases.{is_active-stop}

-- A connection, the end of a connection that was never made, a stop, and a late client.
abbrev calls : List Event
calls =
    starts true
    ∷ (connects 1 (ok 7) ∷ (closes 5 RuntimeFailure.transport ∷ (stops ∷ (connects 1 (ok 8) ∷ []))))

run_refines_example :
    (revision : ℕ) × (run new_runtime calls
      ≡ done (
        represent revision (respond_all new_authority calls).0,
        (respond_all new_authority calls).1,
      ))
run_refines_example = run_refines calls (omega arith)

abbrev before : List Event
before = starts true ∷ (connects 1 (ok 7) ∷ [])

abbrev after : List Event
after = connects 1 (ok 8) ∷ (starts true ∷ (connects 3 (ok 9) ∷ []))

abbrev connected : ClientRuntime
connected = represent 2 (record { generation = 1; connection = up 7; closed = []; aborted = [] })

abbrev halted : ClientRuntime
halted =
    represent 4 (record { generation = 2; connection = idle; closed = 7 ∷ []; aborted = 1 ∷ [] })

abbrev again : ClientRuntime
again =
    represent 6
      (record { generation = 3; connection = up 9; closed = 8 ∷ (7 ∷ []); aborted = 1 ∷ [] })

run-before :
    run new_runtime before ≡ done (connected, started_as (ok 1) ∷ (connected_as (some 7) ∷ []))
unfolding run step
run-before = refl

stop-connected : stop connected ≡ done (halted, 2)
unfolding stop
stop-connected = refl

run-after :
    run halted after
    ≡ done (again, connected_as none ∷ (started_as (ok 3) ∷ (connected_as (some 9) ∷ [])))
unfolding run step
run-after = refl

stop-final_example : is_generation_online again 1 ≡ false
stop-final_example =
    stop-final 1 2 before after connected halted again _ _ run-before stop-connected run-after
      (omega arith) (omega arith)

abbrev captured : FlowKey
captured = record {
  protocol = tcp;
  source = new_socket (v4 9) 40000;
  destination = new_socket (v4 5) 443;
}

abbrev registry : TunFlowRegistry
registry = record { limits = default_limits; flows = [] }

abbrev leased : TunFlowRegistry
leased = record { limits = default_limits; flows = (captured, 1) ∷ [] }

admit-captured : admit connected registry captured ≡ (ok 1, leased)
unfolding admit
admit-captured = refl

-- Between the admission and the stop the connection ends and a new one is made.
abbrev between : List Event
between = closes 1 RuntimeFailure.transport ∷ (starts true ∷ (connects 2 (ok 6) ∷ []))

abbrev reconnected : ClientRuntime
reconnected = represent 5 (record { generation = 2; connection = up 6; closed = []; aborted = [] })

run-between :
    run connected between
    ≡ done (reconnected, noted ∷ (started_as (ok 2) ∷ (connected_as (some 6) ∷ [])))
unfolding run step
run-between = refl

abbrev rehalted : ClientRuntime
rehalted =
    represent 7 (record { generation = 3; connection = idle; closed = 6 ∷ []; aborted = 2 ∷ [] })

stop-reconnected : stop reconnected ≡ done (rehalted, 3)
unfolding stop
stop-reconnected = refl

abbrev later_events : List Event
later_events = starts true ∷ (connects 4 (ok 9) ∷ [])

abbrev anew : ClientRuntime
anew = represent 9 (record { generation = 4; connection = up 9; closed = 6 ∷ []; aborted = 2 ∷ [] })

run-later_events :
    run rehalted later_events ≡ done (anew, started_as (ok 4) ∷ (connected_as (some 9) ∷ []))
unfolding run step
run-later_events = refl

is_active-stop_example :
    (is_active connected leased captured 1 ≡ true)
    × (is_active anew leased captured 1 ≡ false)
    × Above 1 (admit anew leased captured).0
is_active-stop_example =
    is_active-stop before between later_events connected reconnected rehalted anew 3 1 _ _ _
      registry leased leased captured run-before admit-captured run-between stop-reconnected
      run-later_events (omega arith)
