-- ===== src/Protocol/Types.antt =====
-- crates/velum-protocol/src/types.rs: identifiers, version ranges, capability sets, offers and
-- the negotiated parameters. A newtype over an integer or a byte array is what it wraps; an
-- array is a list of bytes whose length stands in the predicates of `Types/Valid`.
pub mod Valid
pub mod Negotiation
use velum.Prelude.{
  ℕ, ◌+◌, ◌-◌, bit_and, bit_or, Bool, true, false, not, ◌&&◌, ◌||◌, List, [], ◌∷◌, ◌++◌, Option,
  none, some, Result, ok, err, ltb, leb, ◌==◌, bytes_eq, if◌then◌else◌, to_be_bytes, ◌>>=◌, ◌>>◌,
}

abbrev pub FlowId : Type 0
FlowId = ℕ

abbrev pub SessionId : Type 0
SessionId = List ℕ

abbrev pub Epoch : Type 0
Epoch = ℕ

abbrev pub Sequence : Type 0
Sequence = ℕ

pub record VersionRange : Type 0 where
  pub minimum : ℕ
  pub maximum : ℕ

pub data VersionRangeError : Type 0 where
  invalid_range : VersionRangeError

-- `VersionRange::new`
unfoldable pub new_version_range : ℕ → ℕ → Result VersionRange VersionRangeError
new_version_range minimum maximum =
    if ltb maximum minimum
    then err invalid_range
    else ok (record { minimum = minimum; maximum = maximum })

unfoldable pub is_valid : VersionRange → Bool
is_valid range = leb range.minimum range.maximum

-- `VersionRange::negotiate`
unfoldable pub negotiate_version : VersionRange → VersionRange → Option ℕ
unfolding is_valid
negotiate_version self peer =
    let minimum = if ltb peer.minimum self.minimum then self.minimum else peer.minimum in
    let maximum = if ltb self.maximum peer.maximum then self.maximum else peer.maximum in
    if not (is_valid self) || not (is_valid peer)
    then none
    else (if leb minimum maximum then some maximum else none)

-- A set of features, one bit each, in a `u64`.
abbrev pub Capabilities : Type 0
Capabilities = ℕ

abbrev pub reliable_stream : Capabilities
reliable_stream = 1

abbrev pub unreliable_datagram : Capabilities
unreliable_datagram = 2

unfoldable pub contains : Capabilities → Capabilities → Bool
contains self other = bit_and self other == other

unfoldable pub intersects : Capabilities → Capabilities → Bool
intersects self other = not (bit_and self other == 0)

unfoldable pub intersection : Capabilities → Capabilities → Capabilities
intersection self other = bit_and self other

pub record CapabilityAdvertisement : Type 0 where
  pub required : Capabilities
  pub optional : Capabilities

pub data CapabilityAdvertisementError : Type 0 where
  overlapping_bits : CapabilityAdvertisementError

-- `CapabilityAdvertisement::new`
unfoldable pub new_advertisement :
    Capabilities → Capabilities → Result CapabilityAdvertisement CapabilityAdvertisementError
unfolding intersects
new_advertisement required optional =
    if intersects required optional
    then err overlapping_bits
    else ok (record { required = required; optional = optional })

unfoldable pub offered : CapabilityAdvertisement → Capabilities
offered self = bit_or self.required self.optional

abbrev pub HandshakeNonce : Type 0
HandshakeNonce = List ℕ

abbrev pub AttachmentId : Type 0
AttachmentId = List ℕ

pub data AllZero : Type 0 where
  all_zero : AllZero

-- The loops of `HandshakeNonce::new` and `AttachmentId::new`: the first byte that is not 0 ends
-- them, with the whole array.
unfoldable pub find_nonzero : List ℕ → List ℕ → Result (List ℕ) AllZero
find_nonzero bytes [] = err all_zero
find_nonzero bytes (b ∷ rest) =
    let next = find_nonzero bytes rest in if not (b == 0) then ok bytes else next

unfoldable pub new_nonce : List ℕ → Result HandshakeNonce AllZero
unfolding find_nonzero
new_nonce bytes = find_nonzero bytes bytes

unfoldable pub new_attachment_id : List ℕ → Result AttachmentId AllZero
unfolding find_nonzero
new_attachment_id bytes = find_nonzero bytes bytes

pub record NegotiationOffer : Type 0 where
  pub versions : VersionRange
  pub capabilities : CapabilityAdvertisement
  pub client_nonce : HandshakeNonce

pub data NegotiationError : Type 0 where
  invalid_version_range invalid_capability_advertisement no_shared_version : NegotiationError
  unsupported_required_capability missing_reliable_stream invalid_selection : NegotiationError

-- `NegotiationOffer::new`
unfoldable pub new_offer :
    VersionRange
    → CapabilityAdvertisement
    → HandshakeNonce
    → Result NegotiationOffer NegotiationError
unfolding is_valid intersects contains
new_offer versions capabilities client_nonce =
    if not (is_valid versions)
    then err invalid_version_range
    else (if intersects capabilities.required capabilities.optional
        then err invalid_capability_advertisement
        else (if not (contains capabilities.required reliable_stream)
            then err missing_reliable_stream
            else ok (record {
              versions = versions;
              capabilities = capabilities;
              client_nonce = client_nonce;
            })))

pub record NegotiatedParameters : Type 0 where
  pub version : ℕ
  pub capabilities : Capabilities
  pub client_nonce : HandshakeNonce
  pub server_nonce : HandshakeNonce

-- The part of `NegotiationOffer::negotiate` behind the choice of the version.
unfoldable pub select_capabilities :
    NegotiationOffer
    → ℕ
    → Capabilities
    → HandshakeNonce
    → Result NegotiatedParameters NegotiationError
unfolding contains intersection offered
select_capabilities self version server_capabilities server_nonce =
    let enabled = intersection (offered self.capabilities) server_capabilities in
    if not (contains server_capabilities self.capabilities.required)
    then err unsupported_required_capability
    else (if not (contains enabled reliable_stream)
        then err missing_reliable_stream
        else ok (record {
          version = version;
          capabilities = enabled;
          client_nonce = self.client_nonce;
          server_nonce = server_nonce;
        }))

-- `NegotiationOffer::negotiate`
unfoldable pub negotiate :
    NegotiationOffer
    → VersionRange
    → Capabilities
    → HandshakeNonce
    → Result NegotiatedParameters NegotiationError
unfolding negotiate_version select_capabilities
negotiate self server_versions server_capabilities server_nonce =
    elim (negotiate_version self.versions server_versions) [
      | none ↦ err no_shared_version
      | some version ↦ select_capabilities self version server_capabilities server_nonce
    ]

-- `NegotiatedParameters::validate_for`
unfoldable pub validate_for :
    NegotiatedParameters → NegotiationOffer → Result (Unit {0}) NegotiationError
unfolding is_valid contains offered
validate_for self offer =
    if not (is_valid offer.versions)
      || (ltb self.version offer.versions.minimum
          || (ltb offer.versions.maximum self.version
              || (not (contains (offered offer.capabilities) self.capabilities)
                  || (not (contains self.capabilities offer.capabilities.required)
                      || (not (contains self.capabilities reliable_stream)
                          || not (bytes_eq self.client_nonce offer.client_nonce))))))
    then err invalid_selection
    else ok tt

-- The 42 bytes that are framed and authenticated: version, capabilities, both nonces.
unfoldable pub canonical_bytes : NegotiatedParameters → List ℕ
canonical_bytes self =
    to_be_bytes 2 self.version
    ++ (to_be_bytes 8 self.capabilities ++ (self.client_nonce ++ self.server_nonce))

-- `==` on the parameters, derived field by field.
unfoldable pub parameters_eq : NegotiatedParameters → NegotiatedParameters → Bool
parameters_eq a b =
    a.version == b.version
    && (a.capabilities == b.capabilities
        && (bytes_eq a.client_nonce b.client_nonce && bytes_eq a.server_nonce b.server_nonce))
