-- ===== src/Protocol/Frame/Backward.antt =====
-- Payloads that `Frame::decode_payload` (crates/velum-protocol/src/frame.rs) accepts.
use velum.Prelude.{
  ℕ, ◌≡◌, refl, ap, ◌∙◌, ◌≤◌, ◌<◌, bit_and, false, List, [], ◌∷◌, Result, ok, err, if◌then◌else◌,
  is_empty, All, IsByte, Covers, append_assoc, append-nil, arith, >>=-elim, >>=-eq-ok, ok-injective,
  map_err-eq-ok, map_err,
}
use velum.Protocol.Types.{
  VersionRange, CapabilityAdvertisement, NegotiationOffer, new_advertisement, new_offer,
}
use velum.Protocol.Frame.{Frame, stream_data, encode_payload, push_u64}
use velum.Protocol.Frame.Valid.{IsFrame, optional_bit}
use velum.Protocol.Frame.Decode.{
  FrameType, decode_payload, read_frame, read_offer, read_attach, read_attach_accepted, read_triple,
  frame_type_of,
}
use velum.Protocol.Frame.Decode
use velum.Protocol.Frame.Reader
use velum.Protocol.Frame.Triple.{IsTriple-Reads}
use velum.Protocol.Frame.Layout.{Reads-bind, array-Reads, u64-Reads}
use velum.Protocol.Frame.Fields.{
  nonce-Reads, attachment_id-Reads, version_range-Reads, parameters-Reads, error-Reads,
}

-- The byte that selects an arm.
abbrev Selects : FrameType → ℕ → Type 0
Selects Decode.negotiation_offer t = t ≡ 0x01
Selects Decode.negotiation_accept t = t ≡ 0x02
Selects Decode.attach t = t ≡ 0x03
Selects Decode.attach_accepted t = t ≡ 0x04
Selects Decode.stream_open t = t ≡ 0x10
Selects Decode.stream_data t = t ≡ 0x11
Selects Decode.stream_ack t = t ≡ 0x12
Selects Decode.stream_finish t = t ≡ 0x13
Selects Decode.stream_reset t = t ≡ 0x14
Selects Decode.connection_close t = t ≡ 0x20
Selects Decode.optional t = 128 ≤ t
Selects Decode.mandatory t = t < 128

frame_type_of-Selects : (k : FrameType) (t : ℕ) → IsByte t → frame_type_of t ≡ k → Selects k t
unfolding frame_type_of
frame_type_of-Selects Decode.negotiation_offer t fits e = ground arith
frame_type_of-Selects Decode.optional t fits e = ground (arith, optional_bit t)
frame_type_of-Selects Decode.mandatory t fits e = ground (arith, optional_bit t)
frame_type_of-Selects _ t fits e = ground arith

-- What a frame with the type byte `t` and the payload `bytes` says of itself.
abbrev pub Encodes : Frame → ℕ → List ℕ → Type 0
Encodes f t bytes = IsFrame f × (encode_payload f ≡ ok (t, bytes))

offer_made :
    (v : VersionRange) (required optional : ℕ) (n : List ℕ) (c : CapabilityAdvertisement)
    (o : NegotiationOffer)
    → new_advertisement required optional ≡ ok c
    → new_offer v c n ≡ ok o
    → (record { versions = v; capabilities = c; client_nonce = n } ≡ o)
      × (record { required = required; optional = optional } ≡ c)
      × (bit_and required optional ≡ 0)
      × Covers required 1
unfolding new_advertisement new_offer
offer_made v required optional n c o made offered =
    (ground arith, ground arith, ground arith, ground arith)

read_offer-backward :
    (bytes : List ℕ) (f : Frame)
    → All IsByte bytes
    → read_offer bytes ≡ ok (f, [])
    → Encodes f 0x01 bytes
unfolding read_offer push_u64 encode_payload
read_offer-backward bytes f h e = Reads-bind version_range-Reads bytes _ h e λ v r1 b1 p1 h1 e1.
    Reads-bind u64-Reads r1 _ h1 e1 λ required r2 b2 p2 h2 e2.
      Reads-bind u64-Reads r2 _ h2 e2 λ optional r3 b3 p3 h3 e3.
        Reads-bind nonce-Reads r3 _ h3 e3 λ n r4 b4 p4 h4 e4.
          let (c, made, e5) = >>=-eq-ok (map_err _ (new_advertisement required optional)) _ e4 in
          let (o, offered, e6) = >>=-eq-ok (map_err _ (new_offer v c n)) _ e5 in
          let (same, tail) = ok-injective e6 in
          let (offer, advert, disjoint, reliable) =
            offer_made v required optional n c o (map_err-eq-ok _ _ made)
              (map_err-eq-ok _ _ offered) in
          rw (← same, ← offer, ← advert)
            (
              record {
                versions_ok = p1;
                required_fits = p2;
                optional_fits = p3;
                disjoint = disjoint;
                reliable = reliable;
                nonce_ok = p4;
              },
              rw (b1, b2, b3, b4, tail, append-nil),
            )

read_attach-backward :
    (bytes : List ℕ) (f : Frame)
    → All IsByte bytes
    → read_attach bytes ≡ ok (f, [])
    → Encodes f 0x03 bytes
unfolding read_attach push_u64 encode_payload
read_attach-backward bytes f h e = Reads-bind (array-Reads 16) bytes _ h e λ s r1 b1 p1 h1 e1.
    Reads-bind u64-Reads r1 _ h1 e1 λ epoch r2 b2 p2 h2 e2.
      Reads-bind attachment_id-Reads r2 _ h2 e2 λ a r3 b3 p3 h3 e3.
        Reads-bind parameters-Reads r3 _ h3 e3 λ p r4 b4 p4 h4 e4.
          Reads-bind (array-Reads 32) r4 _ h4 e4 λ proof r5 b5 p5 h5 e5.
            let (same, tail) = ok-injective e5 in
            rw (← same) ((p1, p2, p3, p4, p5), rw (b1, b2, b3, b4, b5, tail, append-nil))

read_attach_accepted-backward :
    (bytes : List ℕ) (f : Frame)
    → All IsByte bytes
    → read_attach_accepted bytes ≡ ok (f, [])
    → Encodes f 0x04 bytes
unfolding read_attach_accepted push_u64 encode_payload
read_attach_accepted-backward bytes f h e =
    Reads-bind (array-Reads 16) bytes _ h e λ s r1 b1 p1 h1 e1.
      Reads-bind u64-Reads r1 _ h1 e1 λ epoch r2 b2 p2 h2 e2.
        Reads-bind attachment_id-Reads r2 _ h2 e2 λ a r3 b3 p3 h3 e3.
          let (same, tail) = ok-injective e3 in
          rw (← same) ((p1, p2, p3), rw (b1, b2, b3, tail, append-nil))

filled_data :
    (x : ℕ × ℕ × ℕ) (r : List ℕ) (f : Frame)
    → ◌≡◌ {A = Result (Frame × List ℕ) Reader.FrameDecodeError}
        (if is_empty r then err Reader.empty_stream_data else ok (stream_data x.0 x.1 x.2 r, []))
        (ok (f, []))
    → (is_empty r ≡ false) × (stream_data x.0 x.1 x.2 r ≡ f)
filled_data x [] f e = cc
filled_data x (b ∷ r) f e = (refl, (ok-injective e).0)

-- Each arm.
read_frame-backward :
    (k : FrameType) (t : ℕ) (bytes : List ℕ) (f : Frame)
    → Selects k t
    → IsByte t
    → All IsByte bytes
    → read_frame k t bytes ≡ ok (f, [])
    → Encodes f t bytes
unfolding read_frame
read_frame-backward Decode.negotiation_offer t bytes f at_t fits h e =
    rw at_t (read_offer-backward bytes f h e)
read_frame-backward Decode.negotiation_accept t bytes f at_t fits h e =
    Reads-bind parameters-Reads bytes _ h e λ p r b v hr e1.
      let (same, tail) = ok-injective e1 in
      rw (← same, at_t) (v, unfold encode_payload in rw (b, tail, append-nil))
read_frame-backward Decode.attach t bytes f at_t fits h e =
    rw at_t (read_attach-backward bytes f h e)
read_frame-backward Decode.attach_accepted t bytes f at_t fits h e =
    rw at_t (read_attach_accepted-backward bytes f h e)
read_frame-backward Decode.stream_open t bytes f at_t fits h e =
    Reads-bind u64-Reads bytes _ h e λ flow r b v hr e1.
      let (same, tail) = ok-injective e1 in
      rw (← same, at_t) (v, unfold encode_payload push_u64 in rw (b, tail, append-nil))
read_frame-backward Decode.stream_data t bytes f at_t fits h e =
    Reads-bind IsTriple-Reads bytes _ h e λ x r b v hr e1.
      let (filled, same) = filled_data x r f e1 in
      rw (← same, at_t)
        ((v, hr, filled), unfold encode_payload in rw (filled, b, append_assoc, append_assoc))
read_frame-backward Decode.stream_ack t bytes f at_t fits h e =
    Reads-bind IsTriple-Reads bytes _ h e λ x r b v hr e1.
      let (same, tail) = ok-injective e1 in
      rw (← same, at_t) (v, unfold encode_payload in rw (b, tail, append-nil))
read_frame-backward Decode.stream_finish t bytes f at_t fits h e =
    Reads-bind IsTriple-Reads bytes _ h e λ x r b v hr e1.
      let (same, tail) = ok-injective e1 in
      rw (← same, at_t) (v, unfold encode_payload in rw (b, tail, append-nil))
read_frame-backward Decode.stream_reset t bytes f at_t fits h e =
    Reads-bind u64-Reads bytes _ h e λ flow r b v hr e1.
      Reads-bind error-Reads r _ hr e1 λ c r2 b2 v2 hr2 e2.
        let (same, tail) = ok-injective e2 in
        rw (← same, at_t) ((v, v2), unfold encode_payload push_u64 in rw (b, b2, tail, append-nil))
read_frame-backward Decode.connection_close t bytes f at_t fits h e =
    Reads-bind error-Reads bytes _ h e λ c r b v hr e1.
      let (same, tail) = ok-injective e1 in
      rw (← same, at_t) (v, unfold encode_payload in rw (b, tail, append-nil))
read_frame-backward Decode.optional t bytes f high fits h e =
    let (same, tail) = ok-injective e in
    rw (← same) ((fits, high, h), unfold encode_payload in ground (arith, optional_bit t))
read_frame-backward Decode.mandatory t bytes f low fits h e = cc

used_up :
    (f g : Frame) (rest : List ℕ)
    → (if is_empty rest then ok f else err Reader.invalid_payload) ≡ ok g
    → (rest ≡ []) × (f ≡ g)
used_up f g [] e = (refl, cc)
used_up f g (b ∷ rest) e = cc

-- A payload that decodes is the payload that its frame encodes to.
pub decode_payload-encode :
    (t : ℕ) (payload : List ℕ) (f : Frame)
    → IsByte t
    → All IsByte payload
    → decode_payload t payload ≡ ok f
    → Encodes f t payload
unfolding decode_payload
decode_payload-encode t payload f fits h e =
    >>=-elim (read_frame (frame_type_of t) t payload) _ e λ (g, rest) read checked.
      let (tail, same) = used_up g f rest checked in
      rw (← same) (
        read_frame-backward (frame_type_of t) t payload g (frame_type_of-Selects _ t fits refl) fits
          h (read ∙ ap (λ (r : List ℕ). ok (g, r)) tail))
