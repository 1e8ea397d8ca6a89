-- ===== src/Protocol/ErrorCode.antt =====
-- `ProtocolErrorCode` of crates/velum-protocol/src/lib.rs: the codes of control frames.
use velum.Prelude.{ℕ, ◌≡◌, ◌==◌, if◌then◌else◌, arith, IsU16}

pub data ProtocolErrorCode : Type 0 where
  no_shared_version incompatible_capabilities authentication_failed : ProtocolErrorCode
  replay_detected protocol_violation resource_limit flow_not_found : ProtocolErrorCode
  flow_state resume_unsupported internal : ProtocolErrorCode
  unknown : ℕ → ProtocolErrorCode

unfoldable pub as_u16 : ProtocolErrorCode → ℕ
as_u16 no_shared_version = 0x0001
as_u16 incompatible_capabilities = 0x0002
as_u16 authentication_failed = 0x0003
as_u16 replay_detected = 0x0004
as_u16 protocol_violation = 0x0005
as_u16 resource_limit = 0x0006
as_u16 flow_not_found = 0x0007
as_u16 flow_state = 0x0008
as_u16 resume_unsupported = 0x0009
as_u16 internal = 0x00ff
as_u16 (unknown value) = value

unfoldable pub from_u16 : ℕ → ProtocolErrorCode
from_u16 value =
    if value == 0x0001
    then no_shared_version
    else (if value == 0x0002
        then incompatible_capabilities
        else (if value == 0x0003
            then authentication_failed
            else (if value == 0x0004
                then replay_detected
                else (if value == 0x0005
                    then protocol_violation
                    else (if value == 0x0006
                        then resource_limit
                        else (if value == 0x0007
                            then flow_not_found
                            else (if value == 0x0008
                                then flow_state
                                else (if value == 0x0009
                                    then resume_unsupported
                                    else (if value == 0x00ff
                                        then internal
                                        else unknown value)))))))))

-- A code that is not an `Unknown` with the number of a named code, and fits 16 bits.
abbrev pub IsCanonical : ProtocolErrorCode → Type 0
IsCanonical e = IsU16 (as_u16 e) × (from_u16 (as_u16 e) ≡ e)

-- Reading a number and writing it back changes nothing, known or not.
pub as_u16-from_u16 : (value : ℕ) → as_u16 (from_u16 value) ≡ value
unfolding as_u16 from_u16
as_u16-from_u16 value = ground arith
