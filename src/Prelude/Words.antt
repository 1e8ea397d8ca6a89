-- ===== src/Prelude/Words.antt =====
-- Fixed-width integers, and `to_be_bytes`/`from_be_bytes` at every width.
use Prim.Native.Nat.{ℕ, zero, suc, ◌+◌, ◌*◌, ◌/◌, ◌%◌, ◌^◌, ◌<◌}
use mathlib.Core.Path.{◌≡◌, refl, ◌∙◌}
use mathlib.Core.List.{List, [], ◌∷◌, ◌++◌, append_assoc, append-nil}
use native.Mathlib.Omega.{arith}
use native.Mathlib.Nat.{pow-suc}
use velum.Prelude.Lists.{length, length-append, All, All-append}

abbrev pub IsByte : ℕ → Type 0
IsByte b = b < 256

abbrev pub IsU16 : ℕ → Type 0
IsU16 v = v < 65536

abbrev pub IsU64 : ℕ → Type 0
IsU64 v = v < 18446744073709551616

-- A byte array of the given length, as Rust's `[u8; N]`.
abbrev pub IsArray : ℕ → List ℕ → Type 0
IsArray n xs = (length xs ≡ n) × All IsByte xs

-- `value.to_be_bytes()` for an integer of the given number of bytes.
unfoldable pub to_be_bytes : ℕ → ℕ → List ℕ
to_be_bytes zero v = []
to_be_bytes (suc k) v = to_be_bytes k (v / 256) ++ (v % 256 ∷ [])

unfoldable pub from_be_loop : ℕ → List ℕ → ℕ
from_be_loop acc [] = acc
from_be_loop acc (b ∷ bs) = from_be_loop (acc * 256 + b) bs

-- `from_be_bytes(bytes)`
unfoldable pub from_be_bytes : List ℕ → ℕ
unfolding from_be_loop
from_be_bytes bs = from_be_loop 0 bs

pub length-to_be_bytes : (k v : ℕ) → length (to_be_bytes k v) ≡ k
unfolding to_be_bytes
length-to_be_bytes zero v = refl
length-to_be_bytes (suc k) v =
    omega (
      arith,
      length-append (to_be_bytes k (v / 256)) (v % 256 ∷ []),
      length-to_be_bytes k (v / 256),
    )

pub to_be_bytes-IsByte : (k v : ℕ) → All IsByte (to_be_bytes k v)
unfolding to_be_bytes
to_be_bytes-IsByte zero v = tt
to_be_bytes-IsByte (suc k) v =
    All-append IsByte (to_be_bytes k (v / 256)) (v % 256 ∷ []) (to_be_bytes-IsByte k (v / 256))
      (omega arith, tt)

from_be_loop-snoc :
    (xs : List ℕ) (acc b : ℕ) → from_be_loop acc (xs ++ (b ∷ [])) ≡ from_be_loop acc xs * 256 + b
unfolding from_be_loop
from_be_loop-snoc [] acc b = refl
from_be_loop-snoc (x ∷ xs) acc b = from_be_loop-snoc xs (acc * 256 + x) b

-- Reading back a value that fits the width.
pub from-to_be_bytes : (k v : ℕ) → v < 256 ^ k → from_be_bytes (to_be_bytes k v) ≡ v
unfolding from_be_bytes from_be_loop to_be_bytes
from-to_be_bytes zero v h = omega arith
from-to_be_bytes (suc k) v h =
    rw (from_be_loop-snoc (to_be_bytes k (v / 256)) 0 (v % 256))
      (omega (arith, from-to_be_bytes k (v / 256) (omega (arith, pow-suc 256 k))))

to-from_be_loop :
    (bs : List ℕ) (k acc : ℕ) {m : ℕ}
    → All IsByte bs
    → m ≡ k + length bs
    → to_be_bytes m (from_be_loop acc bs) ≡ to_be_bytes k acc ++ bs
unfolding from_be_loop
to-from_be_loop [] k acc {m} h e = let f : m ≡ k = omega arith in rw (f, append-nil)
to-from_be_loop (b ∷ bs) k acc h e =
    to-from_be_loop bs (suc k) (acc * 256 + b) h.1 (omega arith) ∙ last
  where
    quotient : (acc * 256 + b) / 256 ≡ acc
    quotient = omega (arith, h.0)

    remainder : (acc * 256 + b) % 256 ≡ b
    remainder = omega (arith, h.0)

    last : to_be_bytes (suc k) (acc * 256 + b) ++ bs ≡ to_be_bytes k acc ++ (b ∷ bs)
    last = unfold to_be_bytes in rw (quotient, remainder) (append_assoc _ (b ∷ []) bs)

-- Writing back what was read from any bytes.
pub to-from_be_bytes :
    (bs : List ℕ) {m : ℕ} → All IsByte bs → length bs ≡ m → to_be_bytes m (from_be_bytes bs) ≡ bs
unfolding from_be_bytes to_be_bytes
to-from_be_bytes bs {m} h e = to-from_be_loop bs 0 0 {m = m} h (omega arith)

from_be_loop-lt :
    (bs : List ℕ) (k acc : ℕ) {m : ℕ}
    → All IsByte bs
    → m ≡ k + length bs
    → acc < 256 ^ k
    → from_be_loop acc bs < 256 ^ m
unfolding from_be_loop
from_be_loop-lt [] k acc {m} h e lt = let f : m ≡ k = omega arith in rw f lt
from_be_loop-lt (b ∷ bs) k acc h e lt =
    from_be_loop-lt bs (suc k) (acc * 256 + b) h.1 (omega arith) (omega (arith, pow-suc 256 k, h.0))

pub from_be_bytes-lt :
    (bs : List ℕ) {m : ℕ} → All IsByte bs → length bs ≡ m → from_be_bytes bs < 256 ^ m
unfolding from_be_bytes
from_be_bytes-lt bs {m} h e = from_be_loop-lt bs 0 0 {m = m} h (omega arith) (omega arith)
