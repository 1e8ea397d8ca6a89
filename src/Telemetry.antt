-- ===== src/Telemetry.antt =====
-- crates/velum-telemetry/src/lib.rs and the carrier kinds of crates/velum-carrier-api/src/lib.rs:
-- the events that a session records.

pub data CarrierKind : Type 0 where
  quic tls : CarrierKind

pub data CarrierClass : Type 0 where
  quic tls : CarrierClass

pub data TransitionReason : Type 0 where
  primary_unhealthy primary_recovered : TransitionReason
  loss_threshold_exceeded latency_threshold_exceeded : TransitionReason

pub data TransitionRejection : Type 0 where
  incompatible_version datagram_flow flow_control_exhausted attachment_rejected :
      TransitionRejection

pub data SessionEvent : Type 0 where
  flow_opened flow_timed_out pending_limit_reached duplicate_ignored : SessionEvent
  out_of_order_rejected transition_completed : SessionEvent
  transition_started : CarrierClass → CarrierClass → TransitionReason → SessionEvent
  transition_rejected : TransitionRejection → SessionEvent

-- `carrier_class` of crates/velum-session/src/lib.rs
unfoldable pub carrier_class : CarrierKind → CarrierClass
carrier_class CarrierKind.quic = CarrierClass.quic
carrier_class CarrierKind.tls = CarrierClass.tls
