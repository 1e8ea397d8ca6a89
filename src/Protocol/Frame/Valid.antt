-- ===== src/Protocol/Frame/Valid.antt =====
-- The frames of crates/velum-protocol/src/frame.rs that the codec carries: fields of Rust's widths,
-- offers and parameters as their checked constructors make them (their fields are public, so Rust also
-- allows others), stream data that is not empty, error codes that `ProtocolErrorCode::from_u16` gives,
-- and unknown types with the optional bit.
use velum.Prelude.{
  ℕ, zero, suc, ◌≡◌, refl, ◌≤◌, ◌<◌, bit_and, Bool, true, false, ◌&&◌, ltb, ◌==◌, is_empty, All,
  IsByte, IsU64, IsArray, arith, if◌then◌else◌,
}
use velum.Protocol.Types.Valid.{IsNonce, IsOffer, IsParameters}
use velum.Protocol.ErrorCode.{IsCanonical}
use velum.Protocol.Frame.{
  Frame, negotiation_offer, negotiation_accept, attach, attach_accepted, stream_open, stream_data,
  stream_acknowledgement, stream_finish, stream_reset, connection_close, unknown_optional,
  optional_frame_bit,
}

abbrev pub IsFrame : Frame → Type 0
IsFrame (negotiation_offer offer) = IsOffer offer
IsFrame (negotiation_accept parameters) = IsParameters parameters
IsFrame (attach session_id epoch attachment_id parameters proof) =
    IsArray 16 session_id
    × IsU64 epoch
    × IsNonce attachment_id
    × IsParameters parameters
    × IsArray 32 proof
IsFrame (attach_accepted session_id epoch attachment_id) =
    IsArray 16 session_id × IsU64 epoch × IsNonce attachment_id
IsFrame (stream_open flow_id) = IsU64 flow_id
IsFrame (stream_data flow_id epoch sequence bytes) =
    (IsU64 flow_id × IsU64 epoch × IsU64 sequence) × All IsByte bytes × (is_empty bytes ≡ false)
IsFrame (stream_acknowledgement flow_id epoch through) = IsU64 flow_id × IsU64 epoch × IsU64 through
IsFrame (stream_finish flow_id epoch final_next_sequence) =
    IsU64 flow_id × IsU64 epoch × IsU64 final_next_sequence
IsFrame (stream_reset flow_id error) = IsU64 flow_id × IsCanonical error
IsFrame (connection_close error) = IsCanonical error
IsFrame (unknown_optional frame_type payload) =
    IsByte frame_type × (128 ≤ frame_type) × All IsByte payload

-- The optional bit of a byte is set exactly from 128 on; all 256 bytes are checked.
agrees_below : ℕ → Bool
agrees_below zero = true
agrees_below (suc n) =
    (if ltb n 128 then bit_and n optional_frame_bit == 0 else bit_and n optional_frame_bit == 128)
    && agrees_below n

agrees_below_sound :
    (n t : ℕ)
    → agrees_below n ≡ true
    → t < n
    → bit_and t optional_frame_bit ≡ (if ltb t 128 then 0 else 128)
unfolding agrees_below
agrees_below_sound zero t h lt = absurd (omega arith)
agrees_below_sound (suc n) t h lt = ground (arith, agrees_below_sound n t)

pub optional_bit : (t : ℕ) → t < 256 → bit_and t optional_frame_bit ≡ (if ltb t 128 then 0 else 128)
unfolding agrees_below
optional_bit t h = agrees_below_sound 256 t refl h
