-- ===== src/Protocol/Types/Valid.antt =====
-- What the types of crates/velum-protocol/src/types.rs promise of their values: the widths of
-- integers and arrays, and what their checked constructors ensure.
use velum.Prelude.{ℕ, ◌≡◌, ◌≤◌, bit_and, List, ok, Covers, IsU16, IsU64, IsArray}
use velum.Protocol.Types.{
  VersionRange, NegotiationOffer, NegotiatedParameters, new_nonce, reliable_stream,
}

-- A nonce or an attachment identifier: sixteen bytes that are not all 0.
abbrev pub IsNonce : List ℕ → Type 0
IsNonce bytes = IsArray 16 bytes × (new_nonce bytes ≡ ok bytes)

pub record IsRange (r : VersionRange) : Type 0 where
  pub minimum_fits : IsU16 r.minimum
  pub maximum_fits : IsU16 r.maximum
  pub ordered : r.minimum ≤ r.maximum

pub record IsOffer (o : NegotiationOffer) : Type 0 where
  pub versions_ok : IsRange o.versions
  pub required_fits : IsU64 o.capabilities.required
  pub optional_fits : IsU64 o.capabilities.optional
  pub disjoint : bit_and o.capabilities.required o.capabilities.optional ≡ 0
  pub reliable : Covers o.capabilities.required reliable_stream
  pub nonce_ok : IsNonce o.client_nonce

pub record IsParameters (p : NegotiatedParameters) : Type 0 where
  pub version_fits : IsU16 p.version
  pub capabilities_fit : IsU64 p.capabilities
  pub client_ok : IsNonce p.client_nonce
  pub server_ok : IsNonce p.server_nonce
