-- ===== src/Helper.antt =====
-- crates/velum-helper-protocol/src/lib.rs: the control protocol between a client and its privileged
-- traffic host. JSON is the crate `serde_json`'s: a body is what `to_vec` gives and `from_slice` takes.
pub mod Decoder
use velum.Prelude.{
  ℕ, ◌+◌, ◌*◌, Bool, true, false, not, Option, none, some, List, [], ◌∷◌, ◌++◌, Result, ok, err,
  ◌>>=◌, ◌==◌, ltb, if◌then◌else◌, is_empty, length, to_be_bytes, ok_or,
}

abbrev pub protocol_version : ℕ
protocol_version = 1

abbrev pub max_frame_length : ℕ
max_frame_length = 64 * 1024

abbrev pub frame_header_length : ℕ
frame_header_length = 4

pub data Capability : Type 0 where
  tun ipv6 route_transaction dns_transaction socket_protection crash_recovery : Capability

-- An address of the standard library, by its octets.
pub data IpAddr : Type 0 where
  v4 v6 : List ℕ → IpAddr

pub record IpNetwork : Type 0 where
  pub address : IpAddr
  pub prefix_length : ℕ

pub record StartParameters : Type 0 where
  pub mtu : ℕ
  pub ipv4_network : Option IpNetwork
  pub ipv6_network : Option IpNetwork
  pub dns : List IpAddr

pub data Command : Type 0 where
  hello status stop recover : Command
  start : StartParameters → Command

-- A set of capabilities is the ascending list of its elements.
pub record Request : Type 0 where
  pub version : ℕ
  pub request_id : ℕ
  pub profile_generation : ℕ
  pub capabilities : List Capability
  pub command : Command

pub data HostState : Type 0 where
  recovering stopped starting running stopping failed : HostState

pub data ErrorCode : Type 0 where
  unauthorized unsupported_version unsupported_capability invalid_configuration : ErrorCode
  generation_conflict busy platform recovery_required : ErrorCode

pub data Success : Type 0 where
  hello started stopped recovered : Success
  status : HostState → Success

pub data CommandResult : Type 0 where
  succeeded : Success → CommandResult
  refused : ErrorCode → CommandResult

pub record Response : Type 0 where
  pub version : ℕ
  pub request_id : ℕ
  pub profile_generation : ℕ
  pub capabilities : List Capability
  pub response : CommandResult

pub data CodecError : Type 0 where
  empty_frame frame_too_large invalid_json unsupported_version : CodecError

-- The length of a body in front of it.
unfoldable pub framed : List ℕ → List ℕ
framed body = to_be_bytes 4 (length body) ++ body

-- `encode`. A length that passes the bound fits 32 bits.
unfoldable pub encode {ℓ} : {T : Type ℓ} → (T → Option (List ℕ)) → T → Result (List ℕ) CodecError
unfolding framed
encode to_vec value = ok_or (to_vec value) CodecError.invalid_json >>= λ body.
    if is_empty body
    then err empty_frame
    else (if ltb max_frame_length (length body) then err frame_too_large else ok (framed body))

-- `decode`, for a type with a version.
unfoldable pub decode {ℓ} :
    {T : Type ℓ} → (T → ℕ) → (List ℕ → Option T) → List ℕ → Result T CodecError
decode version from_slice body =
    if is_empty body
    then err empty_frame
    else (if ltb max_frame_length (length body)
        then err frame_too_large
        else (ok_or (from_slice body) CodecError.invalid_json >>= λ decoded.
            if not (version decoded == protocol_version)
            then err CodecError.unsupported_version
            else ok decoded))

-- `decode_request` and `decode_response`
unfoldable pub decode_request : (List ℕ → Option Request) → List ℕ → Result Request CodecError
unfolding decode
decode_request from_slice body = decode (λ (r : Request). r.version) from_slice body

unfoldable pub decode_response : (List ℕ → Option Response) → List ℕ → Result Response CodecError
unfolding decode
decode_response from_slice body = decode (λ (r : Response). r.version) from_slice body
