-- ===== src/Policy/Decisions.antt =====
-- What the decisions of crates/velum-policy/src/transition.rs mean.
use velum.Prelude.{
  ℕ, ◌-◌, ◌≡◌, ◌≢◌, ◌≤◌, ◌<◌, ◌⊎◌, ◌↔◌, inl, inr, refl, true, false, Option, none, some, arith,
}
use velum.Telemetry.{CarrierKind, quic, tls}
use velum.Policy.{
  CarrierHealth, FallbackMode, TransitionReason, stay, transition, CarrierObservation,
  TransitionPolicy, is_tls, exceeds, too_soon, decide_reason, decide,
}

-- The time since the last change, if there was one, has reached the interval.
abbrev pub Rested : Option ℕ → ℕ → ℕ → Type 0
Rested none at interval = Unit {0}
Rested (some last) at interval = (interval ≤ at - last)

-- A bound is known and is exceeded.
abbrev pub Above : Option ℕ → ℕ → Type 0
Above none limit = ⊥
Above (some value) limit = limit < value

-- The grounds on which a primary carrier is left.
abbrev pub Degraded : TransitionPolicy → CarrierHealth → Type 0
Degraded policy health =
    (health.is_healthy ≡ false)
    ⊎ (Above health.loss_parts_per_million policy.maximum_loss_parts_per_million
        ⊎ Above health.round_trip_time_millis policy.maximum_round_trip_time_millis)

-- When a change may be decided: from QUIC only to a healthy TLS fallback and after enough bad
-- observations of a tests-Degraded primary; from TLS only after enough observations of a recovery.
pub record Warranted (policy : TransitionPolicy) (active : CarrierKind)
    (primary fallback : CarrierObservation) (unhealthy recovered : ℕ) (last : Option ℕ)
    : Type 0 where
  pub rested : Rested last primary.at_millis policy.minimum_transition_interval_millis
  pub grounds :
      ((active ≡ quic)
        × (fallback.kind ≡ tls)
        × (fallback.health.is_healthy ≡ true)
        × Degraded policy primary.health
        × (policy.unhealthy_observations ≤ unhealthy))
      ⊎ ((active ≡ tls)
          × (primary.health.is_healthy ≡ true)
          × (policy.recovery_observations ≤ recovered))

Rested-iff :
    (last : Option ℕ) (at interval : ℕ)
    → (too_soon last at interval ≡ false) ↔ Rested last at interval
Rested-iff none at interval = (λ e. tt, λ h. refl)
Rested-iff (some l) at interval = (λ e. ground arith, λ h. ground arith)

Above-iff : (value : Option ℕ) (limit : ℕ) → (exceeds value limit ≡ true) ↔ Above value limit
Above-iff none limit = (λ e. cc, λ h. absurd h)
Above-iff (some v) limit = (λ e. ground arith, λ h. ground arith)

is_tls_lem : (kind : CarrierKind) → is_tls kind ≡ true → kind ≡ tls
is_tls_lem quic e = cc
is_tls_lem tls e = refl

-- The three tests of `decide` on the health of the primary.
tests-Degraded :
    (policy : TransitionPolicy) (health : CarrierHealth)
    → (health.is_healthy ≡ false)
      ⊎ ((exceeds health.loss_parts_per_million policy.maximum_loss_parts_per_million ≡ true)
          ⊎ (exceeds health.round_trip_time_millis policy.maximum_round_trip_time_millis ≡ true))
    → Degraded policy health
tests-Degraded policy health (inl sick) = inl sick
tests-Degraded policy health (inr (inl lossy)) = inr (inl ((Above-iff _ _).0 lossy))
tests-Degraded policy health (inr (inr slow)) = inr (inr ((Above-iff _ _).0 slow))

Degraded-tests :
    (policy : TransitionPolicy) (health : CarrierHealth)
    → Degraded policy health
    → (health.is_healthy ≡ false)
      ⊎ ((exceeds health.loss_parts_per_million policy.maximum_loss_parts_per_million ≡ true)
          ⊎ (exceeds health.round_trip_time_millis policy.maximum_round_trip_time_millis ≡ true))
Degraded-tests policy health (inl sick) = inl sick
Degraded-tests policy health (inr (inl lossy)) = inr (inl ((Above-iff _ _).1 lossy))
Degraded-tests policy health (inr (inr slow)) = inr (inr ((Above-iff _ _).1 slow))

-- A change that `decide` makes is warranted, is away from the active carrier, and has the mode of
-- the policy.
pub decide-Warranted :
    (policy : TransitionPolicy) (active : CarrierKind) (primary fallback : CarrierObservation)
    (unhealthy recovered : ℕ) (last : Option ℕ) (mode : FallbackMode) (reason : TransitionReason)
    (to : CarrierKind)
    → decide policy active primary fallback unhealthy recovered last ≡ transition mode reason to
    → Warranted policy active primary fallback unhealthy recovered last
      × (mode ≡ policy.fallback_mode)
      × (to ≢ active)
unfolding decide decide_reason
decide-Warranted policy quic primary fallback unhealthy recovered last mode reason to e = (
  record {
    rested = (Rested-iff _ _ _).0 (ground arith);
    grounds = inl (
      refl,
      is_tls_lem fallback.kind (ground arith),
      ground arith,
      tests-Degraded policy primary.health (ground arith),
      ground arith,
    );
  },
  ground arith,
  ground arith,
)
decide-Warranted policy tls primary fallback unhealthy recovered last mode reason to e = (
  record {
    rested = (Rested-iff _ _ _).0 (ground arith);
    grounds = inr (refl, ground arith, ground arith);
  },
  ground arith,
  ground arith,
)

-- Where a change is warranted, `decide` does not stay.
pub Warranted-decide :
    (policy : TransitionPolicy) (active : CarrierKind) (primary fallback : CarrierObservation)
    (unhealthy recovered : ℕ) (last : Option ℕ)
    → Warranted policy active primary fallback unhealthy recovered last
    → decide policy active primary fallback unhealthy recovered last ≢ stay
unfolding decide decide_reason
Warranted-decide policy active primary fallback unhealthy recovered last w =
    let calm =
      (Rested-iff last primary.at_millis policy.minimum_transition_interval_millis).1 w.rested in
    elim w.grounds [
      | inl (from, kind, healthy, sick, often) ↦
          let bad = Degraded-tests policy primary.health sick in rw (from, kind) (λ e. ground arith)
      | inr (from, healthy, often) ↦ rw from (λ e. ground arith)
    ]
