-- ===== src/Helper/Decoder/Frames.antt =====
-- The frames that `encode` of crates/velum-helper-protocol/src/lib.rs writes, on the way through
-- `RequestDecoder::push`. What `serde_json` writes and reads back is a parameter.
use velum.Prelude.{
  ℕ, suc, ◌≡◌, refl, ap, sym, ◌∙◌, ◌≤◌, ◌<◌, Option, none, some, List, [], ◌∷◌, ◌++◌, append_assoc,
  append-nil, true, is_empty, Result, ok, err, ltb, ◌==◌, ==_iff, ge→ltb, ok_or, >>=-elim, length,
  arith, to_be_bytes, length-to_be_bytes, from-to_be_bytes, if◌then◌else◌,
}
use velum.Helper.{
  Request, CodecError, empty_frame, frame_too_large, max_frame_length, decode_request, decode,
  encode, framed, protocol_version,
}
use velum.Helper.Decoder.{cleared, yields, checked_length}
use velum.Helper.Decoder.Feed.{feed_all}
use velum.Helper.Decoder.Filling.{wanted, full, resume, feed_all-full}
use velum.Helper.Decoder.Stream.{concat, push_all, push_all-feed_all}

bounded :
    (body : List ℕ) {frame : List ℕ}
    → ◌≡◌ {A = Result (List ℕ) CodecError}
        (if is_empty body
          then err empty_frame
          else (if ltb max_frame_length (length body)
              then err frame_too_large
              else ok (framed body)))
        (ok frame)
    → (0 < length body) × (length body ≤ max_frame_length) × (frame ≡ framed body)
bounded [] e = cc
bounded (x ∷ body) e = ground arith

ok_or-eq-ok :
    (o : Option (List ℕ)) {body : List ℕ}
    → ok_or o CodecError.invalid_json ≡ ok body
    → o ≡ some body
ok_or-eq-ok none e = cc
ok_or-eq-ok (some b) e = cc

encode-inverse :
    (to_vec : Request → Option (List ℕ)) (request : Request) (frame : List ℕ)
    → encode to_vec request ≡ ok frame
    → (body : List ℕ) × (to_vec request ≡ some body)
      × (0 < length body)
      × (length body ≤ max_frame_length)
      × (frame ≡ framed body)
unfolding encode
encode-inverse to_vec request frame e =
    >>=-elim (ok_or (to_vec request) CodecError.invalid_json) _ e (λ body written rest.
      let (low, high, e) = bounded body rest in
      (body, ok_or-eq-ok (to_vec request) written, low, high, e))

checked_length-written :
    (n : ℕ) → 0 < n → n ≤ max_frame_length → checked_length (to_be_bytes 4 n) ≡ ok n
unfolding checked_length
checked_length-written n h k = rw (from-to_be_bytes 4 n (omega arith)) ground arith

module _ (from_slice : List ℕ → Option Request) where
  decode_request-eq :
      (body : List ℕ) (request : Request)
      → 0 < length body
      → length body ≤ max_frame_length
      → from_slice body ≡ some request
      → request.version ≡ protocol_version
      → decode_request from_slice body ≡ ok request
  unfolding decode_request decode
  decode_request-eq [] request h k read v = absurd (omega arith)
  decode_request-eq (x ∷ body) request h k read v =
      let current : (request.version == protocol_version) ≡ true =
        (==_iff request.version protocol_version).1 v in
      rw (ge→ltb max_frame_length (suc (length body)) k, read) (simp current refl)

  -- A full buffer, whatever its first byte.
  filled :
      (e : Option ℕ) (xs ys : List ℕ) (requests : List Request)
      → 0 < length xs
      → length xs ≡ wanted e
      → feed_all from_slice (record { buffer = []; expected_body_length = e }) (xs ++ ys) requests
        ≡ resume from_slice (full from_slice e xs) ys requests
  filled e [] ys requests h n = absurd (omega arith)
  filled e (x ∷ xs) ys requests h n = feed_all-full from_slice e x xs [] ys requests (omega arith)

  feed_all-framed :
      (body rest : List ℕ) (request : Request) (requests : List Request)
      → 0 < length body
      → length body ≤ max_frame_length
      → decode_request from_slice body ≡ ok request
      → feed_all from_slice cleared (framed body ++ rest) requests
        ≡ feed_all from_slice cleared rest (requests ++ (request ∷ []))
  unfolding framed
  feed_all-framed body rest request requests h k read =
      rw
        (
          append_assoc (to_be_bytes 4 (length body)) body rest,
          filled none (to_be_bytes 4 (length body)) (body ++ rest) requests
              (omega (arith, length-to_be_bytes 4 (length body)))
              (length-to_be_bytes 4 (length body)),
          checked_length-written (length body) h k,
          filled (some (length body)) body rest requests h refl,
          read,
        )
        refl

-- The frames of requests, one after another, whose versions are the protocol's.
abbrev pub AreFrames : (Request → Option (List ℕ)) → List Request → List (List ℕ) → Type 0
AreFrames to_vec [] [] = Unit
AreFrames to_vec [] (f ∷ fs) = ⊥
AreFrames to_vec (r ∷ rs) [] = ⊥
AreFrames to_vec (r ∷ rs) (f ∷ fs) =
    (encode to_vec r ≡ ok f) × (r.version ≡ protocol_version) × AreFrames to_vec rs fs

module _ (to_vec : Request → Option (List ℕ)) (from_slice : List ℕ → Option Request)
    (from_slice-to_vec : (r : Request) (body : List ℕ)
      → to_vec r ≡ some body
      → from_slice body ≡ some r) where
  feed_all-AreFrames :
      (requests : List Request) (frames : List (List ℕ)) (before : List Request)
      → AreFrames to_vec requests frames
      → feed_all from_slice cleared (concat frames) before ≡ yields (before ++ requests) cleared
  unfolding feed_all
  feed_all-AreFrames [] [] before h = ap (λ rs. yields rs cleared) (sym (append-nil before))
  feed_all-AreFrames [] (f ∷ fs) before h = absurd h
  feed_all-AreFrames (r ∷ rs) [] before h = absurd h
  feed_all-AreFrames (r ∷ rs) (f ∷ fs) before h =
      let (body, written, low, high, e) = encode-inverse to_vec r f h.0 in
      let read =
        decode_request-eq from_slice body r low high (from_slice-to_vec r body written) h.1 in
      rw e (feed_all-framed from_slice body (concat fs) r before low high read)
      ∙ feed_all-AreFrames rs fs (before ++ (r ∷ [])) h.2
      ∙ ap (λ rs'. yields rs' cleared) (append_assoc before (r ∷ []) rs)

-- Where `from_slice` reads back what `to_vec` writes: the frames that `encode` writes for any
-- requests of the protocol's version, joined and cut into any chunks, give a new decoder that is
-- pushed the chunks exactly those requests in their order, and leave it empty.
pub push_all-encode :
    (to_vec : Request → Option (List ℕ)) (from_slice : List ℕ → Option Request)
    (from_slice-to_vec : (r : Request) (body : List ℕ)
      → to_vec r ≡ some body
      → from_slice body ≡ some r)
    (requests : List Request) (frames chunks : List (List ℕ))
    → AreFrames to_vec requests frames
    → concat chunks ≡ concat frames
    → push_all from_slice cleared chunks ≡ yields requests cleared
push_all-encode to_vec from_slice from_slice-to_vec requests frames chunks h e =
    push_all-feed_all from_slice chunks cleared (omega arith, tt)
    ∙ ap (λ bytes. feed_all from_slice cleared bytes []) e
    ∙ feed_all-AreFrames to_vec from_slice from_slice-to_vec requests frames [] h
