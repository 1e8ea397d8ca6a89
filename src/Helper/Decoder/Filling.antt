-- ===== src/Helper/Decoder/Filling.antt =====
-- Runs of bytes that only fill the buffer of the machine of `Decoder/Feed`
-- (crates/velum-helper-protocol/src/lib.rs).
use velum.Prelude.{
  ℕ, ◌+◌, ◌≡◌, refl, ap, ◌∙◌, ◌<◌, Option, none, some, List, [], ◌∷◌, ◌++◌, append_assoc,
  append-nil, lt→ltb, ge→ltb, length, length-append, arith,
}
use velum.Helper.{Request, decode_request}
use velum.Helper.Decoder.{cleared, Outcome, fails, checked_length}
use velum.Helper.Decoder.Feed.{Fed, waits, emits, refuses, headed, bodied, feed_at, feed, feed_all}

-- How many bytes the machine waits for.
abbrev pub wanted : Option ℕ → ℕ
wanted none = 4
wanted (some n) = n

-- What is decided on a full buffer.
module _ (from_slice : List ℕ → Option Request) where
  abbrev pub full : Option ℕ → List ℕ → Fed
  full none buffer = headed (checked_length buffer)
  full (some n) buffer = bodied (decode_request from_slice buffer)

  abbrev pub resume : Fed → List ℕ → List Request → Outcome
  resume (waits next) bytes requests = feed_all from_slice next bytes requests
  resume (emits request) bytes requests =
      feed_all from_slice cleared bytes (requests ++ (request ∷ []))
  resume (refuses error) bytes requests = fails error cleared

  feed_at-short :
      (e : Option ℕ) (buffer : List ℕ)
      → length buffer < wanted e
      → feed_at from_slice e buffer ≡ waits (record { buffer = buffer; expected_body_length = e })
  feed_at-short none buffer h = rw (lt→ltb (length buffer) 4 h) refl
  feed_at-short (some n) buffer h = rw (lt→ltb (length buffer) n h) refl

  feed_at-full :
      (e : Option ℕ) (buffer : List ℕ)
      → length buffer ≡ wanted e
      → feed_at from_slice e buffer ≡ full e buffer
  feed_at-full none buffer h = rw (ge→ltb (length buffer) 4 (omega arith)) refl
  feed_at-full (some n) buffer h = rw (ge→ltb (length buffer) n (omega arith)) refl

  -- One step of `feed_all`, by what the byte does.
  feed_step :
      (e : Option ℕ) (buffer : List ℕ) (x : ℕ) (bytes : List ℕ) (requests : List Request) (f : Fed)
      → feed_at from_slice e (buffer ++ (x ∷ [])) ≡ f
      → feed_all from_slice
          (record { buffer = buffer; expected_body_length = e })
          (x ∷ bytes)
          requests
        ≡ resume f bytes requests
  unfolding feed_all feed
  feed_step e buffer x bytes requests (waits next) h = rw (h, feed_all) refl
  feed_step e buffer x bytes requests (emits request) h = rw (h, feed_all) refl
  feed_step e buffer x bytes requests (refuses error) h = rw (h, feed_all) refl

  pub feed_all-short :
      (e : Option ℕ) (xs buffer ys : List ℕ) (requests : List Request)
      → length buffer + length xs < wanted e
      → feed_all from_slice
          (record { buffer = buffer; expected_body_length = e })
          (xs ++ ys)
          requests
        ≡ feed_all from_slice
            (record { buffer = buffer ++ xs; expected_body_length = e })
            ys
            requests
  feed_all-short e [] buffer ys requests h = rw append-nil
  feed_all-short e (x ∷ xs) buffer ys requests h =
      feed_step e buffer x (xs ++ ys) requests _
        (feed_at-short e (buffer ++ (x ∷ [])) (omega (arith, length-append buffer (x ∷ []))))
      ∙ feed_all-short e xs (buffer ++ (x ∷ [])) ys requests
          (omega (arith, length-append buffer (x ∷ [])))
      ∙ ap (λ b. feed_all from_slice (record { buffer = b; expected_body_length = e }) ys requests)
          (append_assoc buffer (x ∷ []) xs)

  pub feed_all-full :
      (e : Option ℕ) (x : ℕ) (xs buffer ys : List ℕ) (requests : List Request)
      → length buffer + length (x ∷ xs) ≡ wanted e
      → feed_all from_slice
          (record { buffer = buffer; expected_body_length = e })
          (x ∷ (xs ++ ys))
          requests
        ≡ resume (full e (buffer ++ (x ∷ xs))) ys requests
  feed_all-full e x [] buffer ys requests h =
      feed_step e buffer x ys requests _
        (feed_at-full e (buffer ++ (x ∷ [])) (omega (arith, length-append buffer (x ∷ []))))
  feed_all-full e x (x' ∷ xs) buffer ys requests h =
      feed_step e buffer x (x' ∷ (xs ++ ys)) requests _
        (feed_at-short e (buffer ++ (x ∷ [])) (omega (arith, length-append buffer (x ∷ []))))
      ∙ feed_all-full e x' xs (buffer ++ (x ∷ [])) ys requests
          (omega (arith, length-append buffer (x ∷ [])))
      ∙ ap (λ b. resume (full e b) ys requests) (append_assoc buffer (x ∷ []) (x' ∷ xs))
