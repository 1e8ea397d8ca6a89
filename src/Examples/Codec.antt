-- ===== src/Examples/Codec.antt =====
-- Runs of the wire protocol of crates/velum-protocol and of crates/velum-crypto.
use velum.Prelude.{
  ℕ, ◌≡◌, ◌≢◌, ◌≤◌, ◌<◌, ◌⊎◌, ◌↔◌, List, [], ◌∷◌, ◌++◌, length, ok, none, some, refl, arith,
  to_be_bytes, from_be_bytes,
}
use velum.Protocol.Types.{
  VersionRange, Capabilities, negotiate_version, negotiate, validate_for, select_capabilities,
  contains, offered, intersection, new_nonce, find_nonzero,
}
use velum.Protocol.Types.Valid.{IsNonce}
use velum.Protocol.Types.Negotiation.{
  InRange, negotiate_version-newest, negotiate_version_complete, negotiate-validate_for,
  validate_for-negotiate,
}
use velum.Protocol.Datagram
use velum.Protocol.Datagram.{Datagram, client_to_server, v4, decode, envelope_tail, push_address}
use velum.Protocol.Datagram.RoundTrip.{decode-encode}
use velum.Protocol.Frame.{Frame, stream_open, encode, encode_payload, frame_bytes, push_u64}
use velum.Protocol.Frame.Decode.{
  decode_exact, header_length, decode_payload, frame_type_of, read_frame,
}
use velum.Protocol.Frame.Valid.{IsFrame}
use velum.Protocol.Frame.Reader.{invalid_payload, array, u64}
use velum.Protocol.Frame.RoundTrip.{decode_exact-encode, encode-decode_exact}
use velum.Protocol.Decoder.{
  FrameDecoder, push, push_loop, drain_loop, take_frame, yields, fails, out_of_fuel, and_then,
  round,
}
use velum.Protocol.Decoder.Stream.{push-stream, Encoded}
use velum.Protocol.Decoder.Split.{prepend, push-append}
use velum.Protocol.Decoder.Push.{push-IsIdle, push-ne-out_of_fuel, IsIdle}
use velum.Protocol.Decoder.Poisoned.{push_after_error}
use velum.Crypto.Binding.{Binding, IsBinding, context-injective}
use velum.Examples.Data.{ones, versions, client_offer, agreed}

-- Flow 3 is opened.
abbrev opening : Frame
opening = stream_open 3

abbrev opening_bytes : List ℕ
opening_bytes = 16 ∷ 0 ∷ 0 ∷ 8 ∷ 0 ∷ 0 ∷ 0 ∷ 0 ∷ 0 ∷ 0 ∷ 0 ∷ 3 ∷ []

opening_encodes : encode opening ≡ ok opening_bytes
unfolding encode encode_payload frame_bytes push_u64 to_be_bytes
opening_encodes = refl

-- The first byte of the second frame.
abbrev arrived : List ℕ
arrived = 16 ∷ 0 ∷ 0 ∷ 8 ∷ 0 ∷ 0 ∷ 0 ∷ 0 ∷ 0 ∷ 0 ∷ 0 ∷ 3 ∷ 16 ∷ []

opening_decodes : decode_exact opening_bytes 16 ≡ ok opening
opening_decodes =
    decode_exact-encode opening opening_bytes 16 (omega arith) opening_encodes (omega arith)

encode-decode_exact_example : IsFrame opening × (encode opening ≡ ok opening_bytes)
encode-decode_exact_example =
    encode-decode_exact opening_bytes 16 opening
      (
        omega arith,
        (
          omega arith,
          (
            omega arith,
            (
              omega arith,
              (
                omega arith,
                (
                  omega arith,
                  (
                    omega arith,
                    (omega arith, (omega arith, (omega arith, (omega arith, (omega arith, tt))))),
                  ),
                ),
              ),
            ),
          ),
        ),
      )
      opening_decodes

opening-Encoded : Encoded 16 opening opening_bytes
opening-Encoded = record { valid = omega arith; encoded = opening_encodes; accepted = omega arith }

push-stream_example :
    push (record { maximum_payload = 16; buffered = [] }) (opening_bytes ++ (opening_bytes ++ []))
    ≡ yields (opening ∷ opening ∷ []) []
push-stream_example =
    push-stream 16 ((opening, opening_bytes) ∷ (opening, opening_bytes) ∷ [])
      (opening-Encoded, (opening-Encoded, tt))

abbrev empty_decoder : FrameDecoder
empty_decoder = record { maximum_payload = 16; buffered = [] }

empty_waits : IsIdle empty_decoder
unfolding round
empty_waits = refl

push-arrived : push empty_decoder arrived ≡ yields (opening ∷ []) (16 ∷ [])
unfolding push push_loop drain_loop round take_frame decode_exact header_length decode_payload
    frame_type_of read_frame u64 array from_be_bytes
push-arrived = refl

push-IsIdle_example :
    IsIdle (record empty_decoder { buffered = 16 ∷ [] }) × (length {A = ℕ} (16 ∷ []) < 20)
push-IsIdle_example =
    push-IsIdle empty_decoder arrived (opening ∷ []) (16 ∷ []) empty_waits push-arrived

push-ne-out_of_fuel_example : push empty_decoder arrived ≢ out_of_fuel
push-ne-out_of_fuel_example = push-ne-out_of_fuel empty_decoder arrived

push-append_example :
    push empty_decoder ((16 ∷ 0 ∷ []) ++ (1 ∷ 8 ∷ []))
    ≡ and_then (push empty_decoder (16 ∷ 0 ∷ [])) (λ frames left.
      prepend frames (push (record empty_decoder { buffered = left }) (1 ∷ 8 ∷ [])))
push-append_example = push-append empty_decoder (16 ∷ 0 ∷ []) (1 ∷ 8 ∷ [])

-- A header with a reserved byte that is not 0, and no payload.
abbrev bad_header : List ℕ
bad_header = 16 ∷ 1 ∷ 0 ∷ 0 ∷ []

push_bad : push empty_decoder bad_header ≡ fails invalid_payload bad_header
unfolding push push_loop drain_loop round take_frame decode_exact header_length from_be_bytes
push_bad = refl

push_after_error_example :
    (bad_header ≡ [])
    ⊎ ((added : List ℕ) (x : ℕ) (rest : List ℕ)
        → push (record empty_decoder { buffered = bad_header ++ added }) (x ∷ rest)
          ≡ fails invalid_payload ((bad_header ++ added) ++ (x ∷ [])))
push_after_error_example =
    push_after_error empty_decoder bad_header invalid_payload bad_header empty_waits push_bad

chosen : negotiate_version versions (record { minimum = 2; maximum = 9 }) ≡ some 3
unfolding negotiate_version
chosen = refl

negotiate_version-newest_example :
    (1 ≤ 3)
    × InRange 3 versions
    × InRange 3 (record { minimum = 2; maximum = 9 })
    × ((w : ℕ) → InRange w versions → InRange w (record { minimum = 2; maximum = 9 }) → w ≤ 3)
negotiate_version-newest_example =
    negotiate_version-newest versions (record { minimum = 2; maximum = 9 }) 3 chosen

negotiate_version_complete_example :
    (negotiate_version versions (record { minimum = 4; maximum = 9 }) ≡ none)
    ↔ ((w : ℕ) → InRange w versions → InRange w (record { minimum = 4; maximum = 9 }) → ⊥)
negotiate_version_complete_example =
    negotiate_version_complete versions (record { minimum = 4; maximum = 9 })

selected : negotiate client_offer (record { minimum = 1; maximum = 2 }) 1 ones ≡ ok agreed
unfolding negotiate negotiate_version select_capabilities contains offered intersection
selected = refl

validate_for-negotiate_example : validate_for agreed client_offer ≡ ok tt
validate_for-negotiate_example =
    validate_for-negotiate client_offer (record { minimum = 1; maximum = 2 }) 1 ones agreed selected

validated : validate_for agreed client_offer ≡ ok tt
unfolding validate_for
validated = refl

negotiate-validate_for_example :
    (range : VersionRange) × (range.minimum ≤ range.maximum)
    × (server : Capabilities) × (negotiate client_offer range server agreed.server_nonce
        ≡ ok agreed)
negotiate-validate_for_example = negotiate-validate_for client_offer agreed validated

abbrev binding : Binding
binding = record { session = ones; epoch = 5; attachment = ones; parameters = agreed }

ones-IsNonce : IsNonce ones
unfolding new_nonce find_nonzero
ones-IsNonce = (
  (
    refl,
    (
      omega arith,
      (
        omega arith,
        (
          omega arith,
          (
            omega arith,
            (
              omega arith,
              (
                omega arith,
                (
                  omega arith,
                  (
                    omega arith,
                    (
                      omega arith,
                      (
                        omega arith,
                        (
                          omega arith,
                          (
                            omega arith,
                            (omega arith, (omega arith, (omega arith, (omega arith, tt)))),
                          ),
                        ),
                      ),
                    ),
                  ),
                ),
              ),
            ),
          ),
        ),
      ),
    ),
  ),
  refl,
)

binding_ok : IsBinding binding
binding_ok = record {
  session_ok = ones-IsNonce.0;
  epoch_fits = omega arith;
  attachment_ok = ones-IsNonce;
  parameters_ok = record {
    version_fits = omega arith;
    capabilities_fit = omega arith;
    client_ok = ones-IsNonce;
    server_ok = ones-IsNonce;
  };
}

context-injective_example : binding ≡ binding
context-injective_example = context-injective binding binding binding_ok binding_ok refl

abbrev datagram : Datagram
datagram = client_to_server (9 ∷ []) 1 (v4 (127 ∷ 0 ∷ 0 ∷ 1 ∷ []) 53) (5 ∷ [])

abbrev envelope : List ℕ
envelope = 1 ∷ 1 ∷ 9 ∷ 0 ∷ 0 ∷ 0 ∷ 0 ∷ 0 ∷ 0 ∷ 0 ∷ 1 ∷ 4 ∷ 127 ∷ 0 ∷ 0 ∷ 1 ∷ 0 ∷ 53 ∷ 5 ∷ []

enveloped : Datagram.encode datagram ≡ ok envelope
unfolding Datagram.encode envelope_tail push_address to_be_bytes
enveloped = refl

decode-encode_example : decode envelope ≡ ok datagram
decode-encode_example =
    decode-encode datagram envelope (omega arith, omega arith, (refl, omega arith)) enveloped
