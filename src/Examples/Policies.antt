-- ===== src/Examples/Policies.antt =====
-- Decisions of crates/velum-policy/src/transition.rs.
use velum.Prelude.{◌≡◌, ◌≢◌, inl, refl, true, false, none, some, arith}
use velum.Telemetry.{CarrierKind, quic, tls}
use velum.Policy.{
  CarrierObservation, TransitionPolicy, cold, transition, stay, primary_unhealthy, decide,
  decide_reason,
}
use velum.Policy.Decisions.{Warranted, decide-Warranted, Warranted-decide}

abbrev policy : TransitionPolicy
policy = record {
  fallback_mode = cold;
  unhealthy_observations = 3;
  recovery_observations = 2;
  minimum_transition_interval_millis = 100;
  maximum_loss_parts_per_million = 1000;
  maximum_round_trip_time_millis = 100;
}

abbrev failing : CarrierObservation
failing = record {
  kind = quic;
  health = record {
    round_trip_time_millis = some 10;
    loss_parts_per_million = some 0;
    is_healthy = false;
  };
  at_millis = 500;
}

abbrev standby : CarrierObservation
standby = record {
  kind = tls;
  health = record {
    round_trip_time_millis = none;
    loss_parts_per_million = none;
    is_healthy = true;
  };
  at_millis = 500;
}

decided : decide policy quic failing standby 3 0 (some 400) ≡ transition cold primary_unhealthy tls
unfolding decide decide_reason
decided = refl

failing-Warranted : Warranted policy quic failing standby 3 0 (some 400)
failing-Warranted = record {
  rested = omega arith;
  grounds = inl (refl, refl, refl, inl refl, omega arith);
}

decide-Warranted_example :
    Warranted policy quic failing standby 3 0 (some 400)
    × (cold ≡ cold)
    × (◌≢◌ {A = CarrierKind} tls quic)
decide-Warranted_example =
    decide-Warranted policy quic failing standby 3 0 (some 400) cold primary_unhealthy tls decided

Warranted-decide_example : decide policy quic failing standby 3 0 (some 400) ≢ stay
Warranted-decide_example =
    Warranted-decide policy quic failing standby 3 0 (some 400) failing-Warranted
