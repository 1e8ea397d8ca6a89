-- ===== src/Policy.antt =====
-- crates/velum-policy/src/transition.rs: when a session changes its carrier. The health of a
-- carrier is that of crates/velum-carrier-api/src/lib.rs.
pub mod Decisions
use velum.Prelude.{
  ℕ, ◌-◌, Bool, true, false, not, ◌&&◌, ◌||◌, Option, none, some, ltb, leb, if◌then◌else◌,
}
use velum.Telemetry.{CarrierKind, quic, tls}

pub record CarrierHealth : Type 0 where
  pub round_trip_time_millis : Option ℕ
  pub loss_parts_per_million : Option ℕ
  pub is_healthy : Bool

pub data FallbackMode : Type 0 where
  cold warm : FallbackMode

pub data TransitionReason : Type 0 where
  primary_unhealthy primary_recovered loss_threshold_exceeded : TransitionReason
  latency_threshold_exceeded : TransitionReason

pub data TransitionDecision : Type 0 where
  stay : TransitionDecision
  transition : FallbackMode → TransitionReason → CarrierKind → TransitionDecision

pub record CarrierObservation : Type 0 where
  pub kind : CarrierKind
  pub health : CarrierHealth
  pub at_millis : ℕ

pub record TransitionPolicy : Type 0 where
  pub fallback_mode : FallbackMode
  pub unhealthy_observations : ℕ
  pub recovery_observations : ℕ
  pub minimum_transition_interval_millis : ℕ
  pub maximum_loss_parts_per_million : ℕ
  pub maximum_round_trip_time_millis : ℕ

abbrev pub is_quic : CarrierKind → Bool
is_quic quic = true
is_quic tls = false

abbrev pub is_tls : CarrierKind → Bool
is_tls quic = false
is_tls tls = true

-- `value.is_some_and(|value| value > limit)`
abbrev pub exceeds : Option ℕ → ℕ → Bool
exceeds none limit = false
exceeds (some value) limit = ltb limit value

-- `last.is_some_and(|last| at.saturating_sub(last) < interval)`
abbrev pub too_soon : Option ℕ → ℕ → ℕ → Bool
too_soon none at interval = false
too_soon (some last) at interval = ltb (at - last) interval

-- The chain of conditions that gives `reason`, and `map_or`.
unfoldable pub decide_reason :
    TransitionPolicy → CarrierKind → CarrierHealth → ℕ → ℕ → TransitionDecision
decide_reason self active primary consecutive_unhealthy consecutive_recovered =
    if is_quic active
      && (not primary.is_healthy && leb self.unhealthy_observations consecutive_unhealthy)
    then transition self.fallback_mode primary_unhealthy tls
    else (if is_quic active
          && (exceeds primary.loss_parts_per_million self.maximum_loss_parts_per_million
              && leb self.unhealthy_observations consecutive_unhealthy)
        then transition self.fallback_mode loss_threshold_exceeded tls
        else (if is_quic active
              && (exceeds primary.round_trip_time_millis self.maximum_round_trip_time_millis
                  && leb self.unhealthy_observations consecutive_unhealthy)
            then transition self.fallback_mode latency_threshold_exceeded tls
            else (if is_tls active
                  && (primary.is_healthy && leb self.recovery_observations consecutive_recovered)
                then transition self.fallback_mode primary_recovered quic
                else stay)))

-- `TransitionPolicy::decide`
unfoldable pub decide :
    TransitionPolicy
    → CarrierKind
    → CarrierObservation
    → CarrierObservation
    → ℕ
    → ℕ
    → Option ℕ
    → TransitionDecision
unfolding decide_reason
decide self active primary fallback consecutive_unhealthy consecutive_recovered last =
    if is_quic active && (not (is_tls fallback.kind) || not fallback.health.is_healthy)
    then stay
    else (if too_soon last primary.at_millis self.minimum_transition_interval_millis
        then stay
        else decide_reason self active primary.health consecutive_unhealthy consecutive_recovered)
