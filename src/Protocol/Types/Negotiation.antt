-- ===== src/Protocol/Types/Negotiation.antt =====
-- Version and capability negotiation in crates/velum-protocol/src/types.rs.
use velum.Prelude.{
  ℕ, ◌≡◌, ◌≤◌, true, none, some, ok, err, arith, sym, ◌∙◌, Option-cases, bytes_eq_iff, Covers,
  Covers-bit_and, Covers-bit_or, Covers-meet, inl, inr, ◌↔◌, bit_and, bit_or, refl,
}
use velum.Protocol.Types.{
  VersionRange, NegotiationOffer, NegotiatedParameters, negotiate_version, negotiate, validate_for,
  select_capabilities, contains, offered, intersection, HandshakeNonce, Capabilities,
  no_shared_version, reliable_stream,
}

-- A version is in a range.
abbrev pub InRange : ℕ → VersionRange → Type 0
InRange v r = (r.minimum ≤ v) × (v ≤ r.maximum)

-- `VersionRange::negotiate` answers with the largest version that lies in both ranges.
pub negotiate_version-newest :
    (self peer : VersionRange) (v : ℕ)
    → negotiate_version self peer ≡ some v
    → (self.minimum ≤ self.maximum)
      × InRange v self
      × InRange v peer
      × ((w : ℕ) → InRange w self → InRange w peer → w ≤ v)
unfolding negotiate_version
negotiate_version-newest self peer v e =
    (ground arith, ground arith, ground arith, λ w h k. ground arith)

-- `VersionRange::negotiate` finds a version exactly when some version lies in both ranges.
pub negotiate_version_complete :
    (self peer : VersionRange)
    → (negotiate_version self peer ≡ none) ↔ ((w : ℕ) → InRange w self → InRange w peer → ⊥)
unfolding negotiate_version
negotiate_version_complete self peer =
    (λ e w h k. ground arith, λ h. ground (arith, h self.maximum, h peer.maximum))

contains_lem : (a b : ℕ) → (contains a b ≡ true) ↔ Covers a b
unfolding contains
contains_lem a b = ground arith

-- The server's selection, once the version is chosen.
select_capabilities_lem :
    (o : NegotiationOffer) (v : ℕ) (server : Capabilities) (nonce : HandshakeNonce)
    {p : NegotiatedParameters}
    → select_capabilities o v server nonce ≡ ok p
    → (p ≡ record {
      version = v;
      capabilities = intersection (offered o.capabilities) server;
      client_nonce = o.client_nonce;
      server_nonce = nonce;
    })
      × Covers server o.capabilities.required
      × Covers p.capabilities reliable_stream
unfolding select_capabilities
select_capabilities_lem o v server nonce e = ground arith

-- What a client may accept in answer to its offer.
pub record IsSelection (p : NegotiatedParameters) (o : NegotiationOffer) : Type 0 where
  pub well_formed : o.versions.minimum ≤ o.versions.maximum
  pub version_offered : InRange p.version o.versions
  pub only_offered : Covers (offered o.capabilities) p.capabilities
  pub all_required : Covers p.capabilities o.capabilities.required
  pub reliable : Covers p.capabilities reliable_stream
  pub bound : p.client_nonce ≡ o.client_nonce

validate_for_iff :
    (p : NegotiatedParameters) (o : NegotiationOffer) → (validate_for p o ≡ ok tt) ↔ IsSelection p o
unfolding validate_for
validate_for_iff p o = (
  λ e. ground (arith, bytes_eq_iff p.client_nonce o.client_nonce),
  λ h. ground (arith, bytes_eq_iff p.client_nonce o.client_nonce),
)

selected-IsSelection :
    (o : NegotiationOffer) (range : VersionRange) (v : ℕ) (server : Capabilities)
    (nonce : HandshakeNonce) {p : NegotiatedParameters}
    → negotiate_version o.versions range ≡ some v
    → select_capabilities o v server nonce ≡ ok p
    → IsSelection p o
selected-IsSelection o range v server nonce {p} chosen e =
    let (eq, covers, reliable) = select_capabilities_lem o v server nonce e in
    let (_, inside, _, _) = negotiate_version-newest o.versions range v chosen in
    record {
      well_formed = omega arith;
      version_offered = rw eq inside;
      only_offered = rw eq (unfold intersection in Covers-bit_and (offered o.capabilities) server);
      all_required = rw eq (
          unfold intersection offered in
          Covers-meet (bit_or o.capabilities.required o.capabilities.optional) server
            o.capabilities.required (Covers-bit_or o.capabilities.required o.capabilities.optional)
            covers);
      reliable = reliable;
      bound = rw eq;
    }

-- The client accepts every selection that a server derives from its offer: `validate_for` succeeds
-- on whatever `negotiate` returns, for any server range, capabilities and nonce.
pub validate_for-negotiate :
    (o : NegotiationOffer) (range : VersionRange) (server : Capabilities) (nonce : HandshakeNonce)
    (p : NegotiatedParameters)
    → negotiate o range server nonce ≡ ok p
    → validate_for p o ≡ ok tt
unfolding negotiate
validate_for-negotiate o range server nonce p e =
    elim (Option-cases (negotiate_version o.versions range)) [
      | inl miss ↦
          absurd (let f : ok p ≡ err no_shared_version = sym e ∙ rw (miss, negotiate) in cc)
      | inr (v, hit) ↦
          (validate_for_iff p o).1
            (selected-IsSelection o range v server nonce hit (sym (rw (hit, negotiate)) ∙ e))
    ]

selected-again :
    (o : NegotiationOffer) (p : NegotiatedParameters)
    → IsSelection p o
    → select_capabilities o p.version p.capabilities p.server_nonce ≡ ok p
unfolding select_capabilities intersection
selected-again o p s =
    let kept : contains p.capabilities o.capabilities.required ≡ true =
      (contains_lem p.capabilities o.capabilities.required).1 s.all_required in
    let sent : contains p.capabilities reliable_stream ≡ true =
      (contains_lem p.capabilities reliable_stream).1 s.reliable in
    let met : bit_and (offered o.capabilities) p.capabilities ≡ p.capabilities = s.only_offered in
    let again : intersection (offered o.capabilities) p.capabilities ≡ p.capabilities = met in
    let nonce : o.client_nonce ≡ p.client_nonce = sym s.bound in
    rw (again, nonce) (simp (kept, sent) refl)

negotiate_version-single :
    (range : VersionRange) (v : ℕ)
    → range.minimum ≤ range.maximum
    → InRange v range
    → negotiate_version range (record { minimum = v; maximum = v }) ≡ some v
unfolding negotiate_version
negotiate_version-single range v h k = ground arith

-- Every selection that the client accepts is one that a server could derive from its offer: some ordered
-- range of versions and some capabilities of a server make `negotiate` return it, with its server
-- nonce.
pub negotiate-validate_for :
    (o : NegotiationOffer) (p : NegotiatedParameters)
    → validate_for p o ≡ ok tt
    → (range : VersionRange) × (range.minimum ≤ range.maximum)
      × (server : Capabilities) × (negotiate o range server p.server_nonce ≡ ok p)
unfolding negotiate
negotiate-validate_for o p e =
    let s = (validate_for_iff p o).0 e in
    let range : VersionRange = record { minimum = p.version; maximum = p.version } in
    let hit = negotiate_version-single o.versions p.version s.well_formed s.version_offered in
    (range, omega arith, p.capabilities, rw (hit, negotiate) (selected-again o p s))
