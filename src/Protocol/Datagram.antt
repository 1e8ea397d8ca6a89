-- ===== src/Protocol/Datagram.antt =====
-- crates/velum-protocol/src/datagram.rs: application datagrams and their envelopes. A `SocketAddr`
-- of the standard library is an address and a port, and for IPv6 a flow label and a scope.
pub mod RoundTrip
use velum.Prelude.{
  ℕ, zero, suc, ◌+◌, ◌*◌, Bool, true, false, not, ◌&&◌, List, [], ◌∷◌, ◌++◌, Result, ok, err,
  map_err, ◌>>=◌, ltb, leb, ◌==◌, if◌then◌else◌, length, take, drop, to_be_bytes, from_be_bytes,
}

abbrev pub max_datagram_payload_bytes : ℕ
max_datagram_payload_bytes = 60 * 1024

abbrev pub max_datagram_credential_bytes : ℕ
max_datagram_credential_bytes = 128

abbrev pub max_datagram_envelope_bytes : ℕ
max_datagram_envelope_bytes = 60 * 1024 + 29 + 128

abbrev pub DatagramSessionId : Type 0
DatagramSessionId = ℕ

pub data DatagramSessionIdError : Type 0 where
  zero_id : DatagramSessionIdError

unfoldable pub new_session_id : ℕ → Result DatagramSessionId DatagramSessionIdError
new_session_id value = if value == 0 then err zero_id else ok value

pub data SocketAddr : Type 0 where
  v4 : List ℕ → ℕ → SocketAddr
  v6 : List ℕ → ℕ → ℕ → ℕ → SocketAddr

pub data Datagram : Type 0 where
  client_to_server : List ℕ → DatagramSessionId → SocketAddr → List ℕ → Datagram
  server_to_client : DatagramSessionId → SocketAddr → List ℕ → Datagram

pub data DatagramEncodeError : Type 0 where
  invalid_credential_length : ℕ → ℕ → ℕ → DatagramEncodeError
  payload_too_large : ℕ → ℕ → DatagramEncodeError

pub data DatagramDecodeError : Type 0 where
  too_short : DatagramDecodeError
  too_large : ℕ → ℕ → DatagramDecodeError
  unknown_direction : ℕ → DatagramDecodeError
  invalid_credential : ℕ → ℕ → ℕ → DatagramDecodeError
  invalid_address_family : ℕ → DatagramDecodeError
  zero_session_id : DatagramDecodeError

-- `(1..=MAX_DATAGRAM_CREDENTIAL_BYTES).contains(&length)`
abbrev pub is_credential_length : ℕ → Bool
is_credential_length n = leb 1 n && leb n max_datagram_credential_bytes

-- `push_address`. The flow label and the scope are not written.
unfoldable pub push_address : SocketAddr → List ℕ
push_address (v4 octets port) = 4 ∷ (octets ++ to_be_bytes 2 port)
push_address (v6 octets port flowinfo scope_id) = 6 ∷ (octets ++ to_be_bytes 2 port)

-- The bytes behind the direction and the credential.
unfoldable pub envelope_tail : DatagramSessionId → SocketAddr → List ℕ → List ℕ
envelope_tail session_id address payload =
    to_be_bytes 8 session_id ++ (push_address address ++ payload)

-- `Datagram::encode`
unfoldable pub encode : Datagram → Result (List ℕ) DatagramEncodeError
encode (client_to_server credential session_id destination payload) =
    if not (is_credential_length (length credential))
    then err (invalid_credential_length 1 max_datagram_credential_bytes (length credential))
    else (if ltb max_datagram_payload_bytes (length payload)
        then err (payload_too_large max_datagram_payload_bytes (length payload))
        else ok
            (1 ∷ length credential ∷ (credential ++ envelope_tail session_id destination payload)))
encode (server_to_client session_id source payload) =
    if ltb max_datagram_payload_bytes (length payload)
    then err (payload_too_large max_datagram_payload_bytes (length payload))
    else ok (2 ∷ envelope_tail session_id source payload)

-- A read takes bytes off the front.
abbrev pub Reader {ℓ} : Type ℓ → Type ℓ
Reader A = List ℕ → Result (A × List ℕ) DatagramDecodeError

-- `Reader::u8`
unfoldable pub u8 : Reader ℕ
u8 [] = err too_short
u8 (byte ∷ rest) = ok (byte, rest)

-- `Reader::take` and `Reader::take_slice`
unfoldable pub take_slice : ℕ → Reader (List ℕ)
take_slice n bytes = if leb n (length bytes) then ok (take n bytes, drop n bytes) else err too_short

-- `Reader::u64`
unfoldable pub u64 : Reader ℕ
u64 bytes = do (value, rest) ← take_slice 8 bytes; ok (from_be_bytes value, rest)

-- The family of an address: the number of its bytes, and what they make with a port.
unfoldable pub read_family : ℕ → Reader (ℕ → SocketAddr)
read_family family bytes =
    if family == 4
    then (do (octets, rest) ← take_slice 4 bytes; ok ((λ port. v4 octets port), rest))
    else (if family == 6
        then (do (octets, rest) ← take_slice 16 bytes; ok ((λ port. v6 octets port 0 0), rest))
        else err (invalid_address_family family))

-- `Reader::address`
unfoldable pub address : Reader SocketAddr
address bytes = do
  (family, rest) ← u8 bytes
  (with_port, rest') ← read_family family rest
  (port, rest'') ← take_slice 2 rest'
  ok (with_port (from_be_bytes port), rest'')

-- The credential in front of a client's envelope.
unfoldable pub read_credential : ℕ → Reader (List ℕ)
read_credential direction bytes =
    if direction == 1
    then (do
      (n, rest) ← u8 bytes
      if not (is_credential_length n)
          then err (invalid_credential 1 max_datagram_credential_bytes n)
          else take_slice n rest)
    else ok ([], bytes)

-- The `match` on the direction at the end of `decode`.
unfoldable pub directed :
    ℕ → List ℕ → DatagramSessionId → SocketAddr → List ℕ → Result Datagram DatagramDecodeError
directed direction credential session_id peer payload =
    if direction == 1
    then ok (client_to_server credential session_id peer payload)
    else (if direction == 2
        then ok (server_to_client session_id peer payload)
        else err (unknown_direction direction))

-- The session identifier of an envelope.
unfoldable pub session_id : Reader DatagramSessionId
session_id bytes = do
  (value, rest) ← u64 bytes
  id ← map_err (λ _. zero_session_id) (new_session_id value)
  ok (id, rest)

-- `Datagram::decode` behind the check of the envelope's size.
unfoldable pub decode_envelope : List ℕ → Result Datagram DatagramDecodeError
decode_envelope bytes = do
  (direction, r1) ← u8 bytes
  (credential, r2) ← read_credential direction r1
  (id, r3) ← session_id r2
  (peer, payload) ← address r3
  if ltb max_datagram_payload_bytes (length payload)
      then err (too_large max_datagram_payload_bytes (length payload))
      else directed direction credential id peer payload

-- `Datagram::decode`
unfoldable pub decode : List ℕ → Result Datagram DatagramDecodeError
decode bytes =
    if ltb max_datagram_envelope_bytes (length bytes)
    then err (too_large max_datagram_envelope_bytes (length bytes))
    else decode_envelope bytes
