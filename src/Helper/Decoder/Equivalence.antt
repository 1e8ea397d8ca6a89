-- ===== src/Helper/Decoder/Equivalence.antt =====
-- The loop of `RequestDecoder::push` (crates/velum-helper-protocol/src/lib.rs) beside the machine
-- of `Decoder/Feed`.
use velum.Prelude.{
  ℕ, zero, suc, ◌+◌, ◌-◌, ◌≡◌, refl, ap, sym, ◌∙◌, ◌≤◌, ◌<◌, true, false, Option, none, some, List,
  [], ◌∷◌, ◌++◌, append-nil, Result, ok, err, ltb, ltb→lt, Bool-cases, inl, inr, length,
  length-append, is_empty, arith,
}
use velum.Helper.{Request, CodecError, decode_request}
use velum.Helper.Decoder.{
  RequestDecoder, cleared, Outcome, yields, fails, crashes, Round, breaks, returns, goes,
  underflows, checked_length, finished, read_body, after_header, read_header, push_loop, push,
}
use velum.Helper.Decoder.Feed.{headed, bodied, feed_all}
use velum.Helper.Decoder.Filling.{wanted, resume, feed_all-short, feed_all-full}
use velum.Helper.Decoder.Rounds.{
  split_at, read_body-short, read_body-full, read_header-short, read_header-full,
}

-- A decoder between two calls: the buffer is not yet what it waits for.
abbrev pub IsReady : RequestDecoder → Type 0
IsReady self = length self.buffer < wanted self.expected_body_length

checked_length-positive : (header : List ℕ) (n : ℕ) → checked_length header ≡ ok n → 0 < n
unfolding checked_length
checked_length-positive header n h = ground arith

module _ (from_slice : List ℕ → Option Request) where
  -- What the loop does after a round.
  abbrev settle : ℕ → List Request → Round → Outcome
  unfolding push_loop
  settle fuel requests round = elim round [
    | breaks left ↦ yields requests left
    | returns error ↦ fails error cleared
    | underflows ↦ crashes
    | goes request rest ↦ elim (is_empty rest) [
      | true ↦ yields (requests ++ (request ∷ [])) cleared
      | false ↦ push_loop from_slice fuel cleared rest (requests ++ (request ∷ []))
    ]
  ]

  -- On fewer bytes than the fuel the loop and the machine agree.
  abbrev Agrees : ℕ → Type 0
  Agrees fuel =
      (bytes : List ℕ)
      → length bytes < fuel
      → (requests : List Request)
      → push_loop from_slice fuel cleared bytes requests
        ≡ feed_all from_slice cleared bytes requests

  finished-Agrees :
      (fuel : ℕ) (ys : List ℕ) (requests : List Request) (r : Result Request CodecError)
      → Agrees fuel
      → length ys < fuel
      → settle fuel requests (finished from_slice r ys) ≡ resume from_slice (bodied r) ys requests
  unfolding settle feed_all
  finished-Agrees fuel ys requests (err error) agrees h = refl
  finished-Agrees fuel [] requests (ok request) agrees h = refl
  finished-Agrees fuel (y ∷ ys) requests (ok request) agrees h =
      agrees (y ∷ ys) h (requests ++ (request ∷ []))

  starved :
      (e : Option ℕ) (buffer bytes : List ℕ) (requests : List Request)
      → length buffer + length bytes < wanted e
      → yields requests (record { buffer = buffer ++ bytes; expected_body_length = e })
        ≡ feed_all from_slice (record { buffer = buffer; expected_body_length = e }) bytes requests
  unfolding feed_all
  starved e buffer bytes requests h =
      sym (feed_all-short from_slice e bytes buffer [] requests h)
      ∙ ap
          (λ b.
            feed_all from_slice (record { buffer = buffer; expected_body_length = e }) b requests)
          (append-nil bytes)

  body_full :
      (fuel n : ℕ) (buffer xs ys : List ℕ) (requests : List Request)
      → length buffer < n
      → length buffer + length xs ≡ n
      → length xs + length ys ≤ fuel
      → Agrees fuel
      → settle fuel requests (read_body from_slice n buffer (xs ++ ys))
        ≡ feed_all from_slice
            (record { buffer = buffer; expected_body_length = some n })
            (xs ++ ys)
            requests
  unfolding settle
  body_full fuel n buffer [] ys requests h e k agrees = absurd (omega arith)
  body_full fuel n buffer (x ∷ xs) ys requests h e k agrees =
      rw
        (
          read_body-full from_slice n buffer (x ∷ xs) ys h e,
          feed_all-full from_slice (some n) x xs buffer ys requests e,
        )
        (finished-Agrees fuel ys requests (decode_request from_slice (buffer ++ (x ∷ xs))) agrees
          (omega arith))

  body-Agrees :
      (fuel n : ℕ) (buffer bytes : List ℕ) (requests : List Request)
      → length buffer < n
      → length bytes ≤ fuel
      → Agrees fuel
      → settle fuel requests (read_body from_slice n buffer bytes)
        ≡ feed_all from_slice
            (record { buffer = buffer; expected_body_length = some n })
            bytes
            requests
  unfolding settle
  body-Agrees fuel n buffer bytes requests h k agrees =
      elim (Bool-cases (ltb (length buffer + length bytes) n)) [
        | inl short ↦
            let less = ltb→lt (length buffer + length bytes) n short in
            rw (read_body-short from_slice n buffer bytes less)
              (starved (some n) buffer bytes requests less)
        | inr enough ↦
            let (xs, ys, e, l) = split_at (n - length buffer) bytes (ground arith) in
            rw e (
              body_full fuel n buffer xs ys requests h (omega arith)
                (omega (arith, length-append xs ys, ap length e)) agrees)
      ]

  header_read :
      (fuel : ℕ) (ys : List ℕ) (requests : List Request) (r : Result ℕ CodecError)
      → ((n : ℕ) → r ≡ ok n → 0 < n)
      → length ys < fuel
      → Agrees fuel
      → settle fuel requests (after_header from_slice r ys)
        ≡ resume from_slice (headed r) ys requests
  unfolding settle
  header_read fuel ys requests (err error) positive h agrees = refl
  header_read fuel ys requests (ok n) positive h agrees =
      body-Agrees fuel n [] ys requests (positive n refl) (omega arith) agrees

  header_full :
      (fuel : ℕ) (buffer xs ys : List ℕ) (requests : List Request)
      → length buffer < 4
      → length buffer + length xs ≡ 4
      → length xs + length ys ≤ fuel
      → Agrees fuel
      → settle fuel requests (read_header from_slice buffer (xs ++ ys))
        ≡ feed_all from_slice
            (record { buffer = buffer; expected_body_length = none })
            (xs ++ ys)
            requests
  header_full fuel buffer [] ys requests h e k agrees = absurd (omega arith)
  header_full fuel buffer (x ∷ xs) ys requests h e k agrees =
      rw
        (
          read_header-full from_slice buffer (x ∷ xs) ys h e,
          feed_all-full from_slice none x xs buffer ys requests e,
        )
        (header_read fuel ys requests (checked_length (buffer ++ (x ∷ xs)))
          (checked_length-positive (buffer ++ (x ∷ xs))) (omega arith) agrees)

  header-Agrees :
      (fuel : ℕ) (buffer bytes : List ℕ) (requests : List Request)
      → length buffer < 4
      → length bytes ≤ fuel
      → Agrees fuel
      → settle fuel requests (read_header from_slice buffer bytes)
        ≡ feed_all from_slice
            (record { buffer = buffer; expected_body_length = none })
            bytes
            requests
  unfolding settle
  header-Agrees fuel buffer bytes requests h k agrees =
      elim (Bool-cases (ltb (length buffer + length bytes) 4)) [
        | inl short ↦
            let less = ltb→lt (length buffer + length bytes) 4 short in
            rw (read_header-short from_slice buffer bytes less)
              (starved none buffer bytes requests less)
        | inr enough ↦
            let (xs, ys, e, l) = split_at (4 - length buffer) bytes (ground arith) in
            rw e (
              header_full fuel buffer xs ys requests h (omega arith)
                (omega (arith, length-append xs ys, ap length e)) agrees)
      ]

  loop-Agrees :
      (fuel : ℕ) (e : Option ℕ) (buffer bytes : List ℕ) (requests : List Request)
      → length buffer < wanted e
      → length bytes < fuel
      → push_loop from_slice fuel
          (record { buffer = buffer; expected_body_length = e })
          bytes
          requests
        ≡ feed_all from_slice (record { buffer = buffer; expected_body_length = e }) bytes requests
  unfolding settle push_loop
  loop-Agrees zero e buffer bytes requests h k = absurd (omega arith)
  loop-Agrees (suc fuel) none buffer bytes requests h k =
      header-Agrees fuel buffer bytes requests h (omega arith)
        (λ rest l more. loop-Agrees fuel none [] rest more (omega arith) l)
  loop-Agrees (suc fuel) (some n) buffer bytes requests h k =
      body-Agrees fuel n buffer bytes requests h (omega arith)
        (λ rest l more. loop-Agrees fuel none [] rest more (omega arith) l)

-- For a decoder between two calls, `push` on any bytes gives what the machine that takes one byte
-- at a time gives: the same requests and decoder, or the same error. No length underflows, and
-- one round for each byte and one more are enough.
pub push-feed_all :
    (from_slice : List ℕ → Option Request) (self : RequestDecoder) (bytes : List ℕ)
    → IsReady self
    → push from_slice self bytes ≡ feed_all from_slice self bytes []
unfolding push
push-feed_all from_slice self bytes h =
    loop-Agrees from_slice (suc (length bytes)) self.expected_body_length self.buffer bytes [] h
      (omega arith)
