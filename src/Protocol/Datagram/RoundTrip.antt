-- ===== src/Protocol/Datagram/RoundTrip.antt =====
-- Decoding the envelopes that crates/velum-protocol/src/datagram.rs encodes.
use velum.Prelude.{
  ℕ, ◌+◌, ◌≡◌, refl, ◌≤◌, ◌<◌, true, false, List, ◌∷◌, ◌++◌, Result, ok, ltb, ◌==◌, length,
  length-append, take-append_length, drop-append_length, le→leb, to_be_bytes, from-to_be_bytes,
  length-to_be_bytes, IsU16, IsU64, arith, append_assoc,
}
use velum.Protocol.Datagram.{
  SocketAddr, v4, v6, Datagram, client_to_server, server_to_client, DatagramEncodeError,
  max_datagram_payload_bytes, max_datagram_envelope_bytes, is_credential_length, push_address,
  envelope_tail, encode, u8, take_slice, u64, read_family, address, read_credential, session_id,
  new_session_id, directed, decode_envelope, decode,
}

-- An address that an envelope can carry: of the lengths of its family, with no flow label or scope.
abbrev pub IsAddress : SocketAddr → Type 0
IsAddress (v4 octets port) = (length octets ≡ 4) × IsU16 port
IsAddress (v6 octets port flowinfo scope_id) =
    (length octets ≡ 16) × IsU16 port × (flowinfo ≡ 0) × (scope_id ≡ 0)

-- A datagram with an identifier that is checked and an address that an envelope can carry.
abbrev pub IsDatagram : Datagram → Type 0
IsDatagram (client_to_server credential id peer payload) = IsU64 id × (0 < id) × IsAddress peer
IsDatagram (server_to_client id peer payload) = IsU64 id × (0 < id) × IsAddress peer

take_slice-append :
    (n : ℕ) (a rest : List ℕ) → length a ≡ n → take_slice n (a ++ rest) ≡ ok (a, rest)
unfolding take_slice
take_slice-append n a rest e =
    rw (← e, le→leb (length a) (length (a ++ rest)) (omega (arith, length-append a rest)))
      (rw (take-append_length a rest, drop-append_length a rest))

session_id-push :
    (id : ℕ) (rest : List ℕ)
    → IsU64 id
    → 0 < id
    → session_id (to_be_bytes 8 id ++ rest) ≡ ok (id, rest)
unfolding session_id u64 new_session_id
session_id-push id rest fits positive =
    let nonzero : (id == 0) ≡ false = ground arith in
    rw (take_slice-append 8 (to_be_bytes 8 id) rest (length-to_be_bytes 8 id))
      (rw (from-to_be_bytes 8 id (omega arith)) (rw nonzero refl))

address-push_address :
    (peer : SocketAddr) (rest : List ℕ)
    → IsAddress peer
    → address (push_address peer ++ rest) ≡ ok (peer, rest)
unfolding address push_address read_family u8
address-push_address (v4 octets port) rest (sized, fits) =
    rw (append_assoc octets (to_be_bytes 2 port) rest) (
      rw (take_slice-append 4 octets (to_be_bytes 2 port ++ rest) sized) (
        rw (take_slice-append 2 (to_be_bytes 2 port) rest (length-to_be_bytes 2 port))
          (rw (from-to_be_bytes 2 port (omega arith)) refl)))
address-push_address (v6 octets port flowinfo scope_id) rest (sized, fits, no_flow, no_scope) =
    rw (append_assoc octets (to_be_bytes 2 port) rest) (
      rw (take_slice-append 16 octets (to_be_bytes 2 port ++ rest) sized) (
        rw (take_slice-append 2 (to_be_bytes 2 port) rest (length-to_be_bytes 2 port))
          (rw (from-to_be_bytes 2 port (omega arith), no_flow, no_scope) refl)))

length-push_address : (peer : SocketAddr) → IsAddress peer → length (push_address peer) ≤ 19
unfolding push_address
length-push_address (v4 octets port) (sized, fits) =
    omega (arith, length-append octets (to_be_bytes 2 port), length-to_be_bytes 2 port)
length-push_address (v6 octets port flowinfo scope_id) (sized, fits, no_flow, no_scope) =
    omega (arith, length-append octets (to_be_bytes 2 port), length-to_be_bytes 2 port)

length-envelope_tail :
    (id : ℕ) (peer : SocketAddr) (payload : List ℕ)
    → IsAddress peer
    → length (envelope_tail id peer payload) ≤ 27 + length payload
unfolding envelope_tail
length-envelope_tail id peer payload h = omega (
  arith,
  length-append (to_be_bytes 8 id) (push_address peer ++ payload),
  length-append (push_address peer) payload,
  length-to_be_bytes 8 id,
  length-push_address peer h,
)

encoded_same : {a b : List ℕ} → ◌≡◌ {A = Result (List ℕ) DatagramEncodeError} (ok a) (ok b) → a ≡ b
encoded_same e = cc

server_decodes :
    (id : ℕ) (peer : SocketAddr) (payload bytes : List ℕ)
    → IsDatagram (server_to_client id peer payload)
    → encode (server_to_client id peer payload) ≡ ok bytes
    → decode bytes ≡ ok (server_to_client id peer payload)
unfolding encode decode decode_envelope u8 read_credential directed envelope_tail
server_decodes id peer payload bytes (fits, positive, reachable) e =
    let small : ltb max_datagram_payload_bytes (length payload) ≡ false = ground arith in
    let whole : 2 ∷ envelope_tail id peer payload ≡ bytes = encoded_same (rw small at e) in
    let inside : ltb max_datagram_envelope_bytes (length (2 ∷ envelope_tail id peer payload))
        ≡ false =
      ground (arith, length-envelope_tail id peer payload reachable) in
    rw (← whole, inside)
      (rw (session_id-push id (push_address peer ++ payload) fits positive)
        (rw (address-push_address peer payload reachable) (rw small refl)))

client_decodes :
    (credential : List ℕ) (id : ℕ) (peer : SocketAddr) (payload bytes : List ℕ)
    → IsDatagram (client_to_server credential id peer payload)
    → encode (client_to_server credential id peer payload) ≡ ok bytes
    → decode bytes ≡ ok (client_to_server credential id peer payload)
unfolding encode decode decode_envelope u8 read_credential directed envelope_tail
client_decodes credential id peer payload bytes (fits, positive, reachable) e =
    let admitted : is_credential_length (length credential) ≡ true = ground arith in
    let small : ltb max_datagram_payload_bytes (length payload) ≡ false = ground arith in
    let tail = envelope_tail id peer payload in
    let whole : 1 ∷ length credential ∷ (credential ++ tail) ≡ bytes =
      encoded_same (rw (admitted, small) at e) in
    let light : length credential ≤ 128 = ground arith in
    let inside : ltb max_datagram_envelope_bytes
          (length (1 ∷ length credential ∷ (credential ++ tail)))
        ≡ false =
      ground
        (arith, length-append credential tail, length-envelope_tail id peer payload reachable) in
    rw (← whole, inside, admitted)
      (rw (take_slice-append (length credential) credential tail refl) (
        rw (session_id-push id (push_address peer ++ payload) fits positive)
          (rw (address-push_address peer payload reachable) (rw small refl))))

-- Decoding what was encoded gives the datagram back, for every datagram with a checked identifier
-- and an address without a flow label and a scope: an envelope that was encoded is never too large
-- to decode.
pub decode-encode :
    (d : Datagram) (bytes : List ℕ) → IsDatagram d → encode d ≡ ok bytes → decode bytes ≡ ok d
decode-encode (client_to_server credential id peer payload) bytes h e =
    client_decodes credential id peer payload bytes h e
decode-encode (server_to_client id peer payload) bytes h e =
    server_decodes id peer payload bytes h e
