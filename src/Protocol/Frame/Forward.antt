-- ===== src/Protocol/Frame/Forward.antt =====
-- `Frame::decode_payload` (crates/velum-protocol/src/frame.rs) on encoded payloads, by kind of frame.
use velum.Prelude.{ℕ, ◌≡◌, refl, ◌≤◌, List, [], ◌++◌, ok, IsByte, arith}
use velum.Protocol.Types.{
  NegotiationOffer, NegotiatedParameters, canonical_bytes, new_advertisement, new_offer,
}
use velum.Protocol.Types.Valid.{IsOffer}
use velum.Protocol.Frame.{
  Frame, negotiation_offer, negotiation_accept, attach, attach_accepted, stream_open, stream_data,
  stream_acknowledgement, stream_finish, stream_reset, connection_close, unknown_optional,
  encode_payload, push_u64, push_version_range,
}
use velum.Protocol.Frame.Valid.{IsFrame, optional_bit}
use velum.Protocol.Frame.Decode.{
  decode_payload, read_frame, read_offer, read_attach, read_attach_accepted, read_triple,
  frame_type_of,
}
use velum.Protocol.Frame.Decode
use velum.Protocol.Frame.Triple.{read_triple-forward, read_triple-forward_end}
use velum.Protocol.Frame.Layout.{array-Reads, u64-Reads, forward_end}
use velum.Protocol.Frame.Fields.{
  nonce-Reads, attachment_id-Reads, version_range-Reads, parameters-Reads, error-Reads,
}

offer_checks :
    (o : NegotiationOffer)
    → IsOffer o
    → (new_advertisement o.capabilities.required o.capabilities.optional ≡ ok o.capabilities)
      × (new_offer o.versions o.capabilities o.client_nonce ≡ ok o)
unfolding new_advertisement new_offer
offer_checks o h = (ground arith, ground arith)

read_offer-forward :
    (o : NegotiationOffer)
    → IsOffer o
    → read_offer (
        push_version_range o.versions
        ++ (push_u64 o.capabilities.required
            ++ (push_u64 o.capabilities.optional ++ o.client_nonce)))
      ≡ ok (negotiation_offer o, [])
unfolding read_offer push_u64
read_offer-forward o h =
    let (adv, made) = offer_checks o h in
    rw (version_range-Reads.forward o.versions _ h.versions_ok) (
      rw (u64-Reads.forward o.capabilities.required _ h.required_fits) (
        rw (u64-Reads.forward o.capabilities.optional _ h.optional_fits)
          (rw (forward_end nonce-Reads o.client_nonce h.nonce_ok) (rw adv (rw made)))))

read_attach-forward :
    (s : List ℕ) (e : ℕ) (a : List ℕ) (p : NegotiatedParameters) (proof : List ℕ)
    → IsFrame (attach s e a p proof)
    → read_attach (s ++ (push_u64 e ++ (a ++ (canonical_bytes p ++ proof))))
      ≡ ok (attach s e a p proof, [])
unfolding read_attach push_u64
read_attach-forward s e a p proof (hs, he, ha, hp, hproof) = rw ((array-Reads 16).forward s _ hs) (
    rw (u64-Reads.forward e _ he) (
      rw (attachment_id-Reads.forward a _ ha)
        (rw (parameters-Reads.forward p _ hp) (rw (forward_end (array-Reads 32) proof hproof)))))

read_attach_accepted-forward :
    (s : List ℕ) (e : ℕ) (a : List ℕ)
    → IsFrame (attach_accepted s e a)
    → read_attach_accepted (s ++ (push_u64 e ++ a)) ≡ ok (attach_accepted s e a, [])
unfolding read_attach_accepted push_u64
read_attach_accepted-forward s e a (hs, he, ha) =
    rw ((array-Reads 16).forward s _ hs)
      (rw (u64-Reads.forward e _ he) (rw (forward_end attachment_id-Reads a ha)))

optional_type : (t : ℕ) → IsByte t → 128 ≤ t → frame_type_of t ≡ Decode.optional
unfolding frame_type_of
optional_type t fits high = ground (arith, optional_bit t)

-- A valid frame has a type byte and a payload, and decoding them gives the frame.
pub encode_payload-decode :
    (f : Frame)
    → IsFrame f
    → (t : ℕ) × (payload : List ℕ) × (encode_payload f ≡ ok (t, payload))
      × (decode_payload t payload ≡ ok f)
unfolding encode_payload decode_payload read_frame frame_type_of
encode_payload-decode (negotiation_offer o) h = (_, _, refl, rw (read_offer-forward o h))
encode_payload-decode (negotiation_accept p) h = (_, _, refl, rw (forward_end parameters-Reads p h))
encode_payload-decode (attach s e a p proof) h =
    (_, _, refl, rw (read_attach-forward s e a p proof h))
encode_payload-decode (attach_accepted s e a) h =
    (_, _, refl, rw (read_attach_accepted-forward s e a h))
encode_payload-decode (stream_open f) h =
    (_, _, refl, unfold push_u64 in rw (forward_end u64-Reads f h))
encode_payload-decode (stream_data f e s bytes) (h, hb, filled) = (
  0x11,
  push_u64 f ++ (push_u64 e ++ (push_u64 s ++ bytes)),
  rw filled,
  rw (read_triple-forward f e s bytes h) (rw filled),
)
encode_payload-decode (stream_acknowledgement f e s) h =
    (_, _, refl, rw (read_triple-forward_end f e s h))
encode_payload-decode (stream_finish f e s) h = (_, _, refl, rw (read_triple-forward_end f e s h))
encode_payload-decode (stream_reset f c) (hf, hc) = (
  _,
  _,
  refl,
  unfold push_u64 in rw (u64-Reads.forward f _ hf) (rw (forward_end error-Reads c hc)),
)
encode_payload-decode (connection_close c) h = (_, _, refl, rw (forward_end error-Reads c h))
encode_payload-decode (unknown_optional t payload) (fits, high, h) =
    (t, payload, ground (arith, optional_bit t), rw (optional_type t fits high))
