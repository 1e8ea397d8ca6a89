-- ===== src/Protocol/Frame/Layout.antt =====
-- Each read of the `Reader` (crates/velum-protocol/src/frame.rs) against the bytes that it reads.
use velum.Prelude.{
  ℕ, ◌≡◌, sym, ◌≤◌, ◌<◌, ◌^◌, List, [], ◌++◌, Result, ok, length, length-append, take, drop,
  take-append_length, drop-append_length, take-append-drop, length-take, All, All-take, All-drop,
  le→leb, IsByte, IsU16, IsU64, IsArray, to_be_bytes, from_be_bytes, from-to_be_bytes,
  to-from_be_bytes, from_be_bytes-lt, length-to_be_bytes, to_be_bytes-IsByte, append-nil, arith,
  >>=-eq-ok, ok-injective, ◌>>=◌,
}
use velum.Protocol.Frame.Reader.{FrameDecodeError, Reader, array, u16, u64}

-- What a reader reads is what `print` writes, for the values that satisfy `P`.
pub record Reads {ℓ} {A : Type ℓ} (read : Reader A) (print : A → List ℕ) (P : A → Type 0)
    : Type ℓ where
  pub forward : (a : A) (rest : List ℕ) → P a → read (print a ++ rest) ≡ ok (a, rest)
  pub backward :
      (bytes : List ℕ) (a : A) (rest : List ℕ)
      → All IsByte bytes
      → read bytes ≡ ok (a, rest)
      → (bytes ≡ print a ++ rest) × P a × All IsByte rest

-- The last read of a payload leaves nothing.
pub forward_end {ℓ} :
    {A : Type ℓ} {read : Reader A} {print : A → List ℕ} {P : A → Type 0} (r : Reads read print P)
    (a : A)
    → P a
    → read (print a) ≡ ok (a, [])
forward_end {print} r a h = rw append-nil at (r.forward a [] h)

array-forward : (n : ℕ) (a rest : List ℕ) → length a ≡ n → array n (a ++ rest) ≡ ok (a, rest)
unfolding array
array-forward n a rest e =
    rw (← e, le→leb (length a) (length (a ++ rest)) (omega (arith, length-append a rest)))
      (rw (take-append_length a rest, drop-append_length a rest))

array-backward :
    (n : ℕ) (bytes a rest : List ℕ)
    → array n bytes ≡ ok (a, rest)
    → (n ≤ length bytes) × (take n bytes ≡ a) × (drop n bytes ≡ rest)
unfolding array
array-backward n bytes a rest e = ground arith

pub array-Reads : (n : ℕ) → Reads (array n) (λ a. a) (IsArray n)
array-Reads n = record {
  forward = λ a rest h. array-forward n a rest h.0;
  backward = λ bytes a rest h e.
      let (enough, front, back) = array-backward n bytes a rest e in
      (
        sym (rw (← front, ← back) (take-append-drop n bytes)),
        (rw (← front) (length-take n bytes enough), rw (← front) (All-take IsByte n bytes h)),
        rw (← back) (All-drop IsByte n bytes h),
      );
}

-- The first read of a chain that succeeds, taken off it.
pub Reads-bind {ℓ μ κ} :
    {A : Type ℓ} {B : Type μ} {read : Reader A} {print : A → List ℕ} {P : A → Type 0} {C : Type κ}
    (r : Reads read print P) (bytes : List ℕ) (next : A × List ℕ → Result B FrameDecodeError)
    {y : B}
    → All IsByte bytes
    → (read bytes >>= next) ≡ ok y
    → ((a : A) (rest : List ℕ)
        → bytes ≡ print a ++ rest
        → P a
        → All IsByte rest
        → next (a, rest) ≡ ok y
        → C)
    → C
Reads-bind {read} r bytes next h e use_parts =
    let ((a, rest), first, then_next) = >>=-eq-ok (read bytes) next e in
    let (printed, valid, left) = r.backward bytes a rest h first in
    use_parts a rest printed valid left then_next

abbrev word : ℕ → Reader ℕ
word k bytes = do (value, rest) ← array k bytes; ok (from_be_bytes value, rest)

word-forward :
    (k v : ℕ) (rest : List ℕ) → v < 256 ^ k → word k (to_be_bytes k v ++ rest) ≡ ok (v, rest)
word-forward k v rest h =
    rw
      ((array-Reads k).forward (to_be_bytes k v) rest
        (length-to_be_bytes k v, to_be_bytes-IsByte k v))
      (rw (from-to_be_bytes k v h))

word-backward :
    (k : ℕ) (bytes : List ℕ) (v : ℕ) (rest : List ℕ)
    → All IsByte bytes
    → word k bytes ≡ ok (v, rest)
    → (bytes ≡ to_be_bytes k v ++ rest) × (v < 256 ^ k) × All IsByte rest
word-backward k bytes v rest h e =
    Reads-bind (array-Reads k) bytes _ h e λ a r printed valid left done.
      let (value, tail) = ok-injective done in
      (
        rw (printed, ← tail, ← value, to-from_be_bytes a {m = k} valid.1 valid.0),
        rw (← value) (from_be_bytes-lt a {m = k} valid.1 valid.0),
        rw (← tail) left,
      )

pub u16-Reads : Reads u16 (to_be_bytes 2) IsU16
unfolding u16
u16-Reads = record { forward = word-forward 2; backward = word-backward 2 }

pub u64-Reads : Reads u64 (to_be_bytes 8) IsU64
unfolding u64
u64-Reads = record { forward = word-forward 8; backward = word-backward 8 }
