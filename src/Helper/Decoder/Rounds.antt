-- ===== src/Helper/Decoder/Rounds.antt =====
-- A round of the loop of `RequestDecoder::push` (crates/velum-helper-protocol/src/lib.rs), by
-- whether the bytes at hand fill the buffer.
use velum.Prelude.{
  ℕ, zero, suc, ◌+◌, ◌-◌, ◌≡◌, refl, ap, sym, ◌≤◌, ◌<◌, Option, none, some, List, [], ◌∷◌, ◌++◌,
  lt→ltb, ge→ltb, length, length-append, take, take-append_length, drop-append_length, checked_sub,
  arith,
}
use velum.Helper.{Request, decode_request}
use velum.Helper.Decoder.{
  breaks, min_of, checked_length, finished, read_body, after_header, read_header,
}

sub_more : (a b : ℕ) → b < a → checked_sub a b ≡ some (a - b)
sub_more a b h = rw (ge→ltb a b (omega arith)) refl

take-length : (xs : List ℕ) → take (length xs) xs ≡ xs
take-length [] = refl
take-length (x ∷ xs) = ap (◌∷◌ x) (take-length xs)

-- The bytes taken when there are fewer than required, and when there are enough.
taken_short :
    (k : ℕ) (bytes : List ℕ) → length bytes < k → take (min_of k (length bytes)) bytes ≡ bytes
taken_short k bytes h = rw (ge→ltb k (length bytes) (omega arith)) (take-length bytes)

min_full : (xs ys : List ℕ) (k : ℕ) → length xs ≡ k → min_of k (length (xs ++ ys)) ≡ length xs
min_full xs ys k h = ground (arith, length-append xs ys)

pub split_at :
    (k : ℕ) (bytes : List ℕ)
    → k ≤ length bytes
    → (xs : List ℕ) × (ys : List ℕ) × (bytes ≡ xs ++ ys) × (length xs ≡ k)
split_at zero bytes h = ([], bytes, refl, refl)
split_at (suc k) [] h = absurd (omega arith)
split_at (suc k) (x ∷ bytes) h =
    let (xs, ys, e, n) = split_at k bytes (omega arith) in (x ∷ xs, ys, ap (◌∷◌ x) e, omega arith)

module _ (from_slice : List ℕ → Option Request) where
  pub read_body-short :
      (n : ℕ) (buffer bytes : List ℕ)
      → length buffer + length bytes < n
      → read_body from_slice n buffer bytes
        ≡ breaks (record { buffer = buffer ++ bytes; expected_body_length = some n })
  unfolding read_body
  read_body-short n buffer bytes h =
      rw
        (
          sub_more n (length buffer) (omega arith),
          taken_short (n - length buffer) bytes (omega arith),
          lt→ltb (length (buffer ++ bytes)) n (omega (arith, length-append buffer bytes)),
          read_body,
        )
        refl

  pub read_body-full :
      (n : ℕ) (buffer xs ys : List ℕ)
      → length buffer < n
      → length buffer + length xs ≡ n
      → read_body from_slice n buffer (xs ++ ys)
        ≡ finished from_slice (decode_request from_slice (buffer ++ xs)) ys
  unfolding read_body
  read_body-full n buffer xs ys h e =
      rw
        (
          sub_more n (length buffer) h,
          min_full xs ys (n - length buffer) (omega arith),
          take-append_length xs ys,
          drop-append_length xs ys,
          ge→ltb (length (buffer ++ xs)) n (omega (arith, length-append buffer xs)),
          read_body,
        )
        refl

  pub read_header-short :
      (buffer bytes : List ℕ)
      → length buffer + length bytes < 4
      → read_header from_slice buffer bytes
        ≡ breaks (record { buffer = buffer ++ bytes; expected_body_length = none })
  unfolding read_header
  read_header-short buffer bytes h =
      rw
        (
          sub_more 4 (length buffer) (omega arith),
          taken_short (4 - length buffer) bytes (omega arith),
          lt→ltb (length (buffer ++ bytes)) 4 (omega (arith, length-append buffer bytes)),
          read_header,
        )
        refl

  pub read_header-full :
      (buffer xs ys : List ℕ)
      → length buffer < 4
      → length buffer + length xs ≡ 4
      → read_header from_slice buffer (xs ++ ys)
        ≡ after_header from_slice (checked_length (buffer ++ xs)) ys
  unfolding read_header
  read_header-full buffer xs ys h e =
      rw
        (
          sub_more 4 (length buffer) h,
          min_full xs ys (4 - length buffer) (omega arith),
          take-append_length xs ys,
          drop-append_length xs ys,
          ge→ltb (length (buffer ++ xs)) 4 (omega (arith, length-append buffer xs)),
          whole,
          read_header,
        )
        refl
    where
      whole : take 4 (buffer ++ xs) ≡ buffer ++ xs
      whole =
          let four : length (buffer ++ xs) ≡ 4 = omega (arith, length-append buffer xs) in
          rw (sym four) (take-length (buffer ++ xs))
