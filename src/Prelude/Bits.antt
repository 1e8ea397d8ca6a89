-- ===== src/Prelude/Bits.antt =====
-- Bit sets as natural numbers: `&` and `|` one digit at a time, and containment.
use Prim.Native.Nat.{
  ℕ, zero, suc, ◌+◌, ◌*◌, ◌/◌, ◌%◌, ◌≤◌, min, max, bit_and, bit_or, digits, bit_and-bitwise,
  bit_or-bitwise,
}
use mathlib.Core.Path.{◌≡◌, refl}
use native.Mathlib.Omega.{arith}

-- Enough rounds give the same digits, whatever is done with each.
and_rounds :
    (n m a b : ℕ) → a ≤ n → a ≤ m → digits (λ b. zero) min n a b ≡ digits (λ b. zero) min m a b
and_rounds zero zero a b p q = refl
and_rounds zero (suc m) zero b p q = refl
and_rounds zero (suc m) (suc a) b p q = absurd (omega arith)
and_rounds (suc n) zero zero b p q = refl
and_rounds (suc n) zero (suc a) b p q = absurd (omega arith)
and_rounds (suc n) (suc m) zero b p q = refl
and_rounds (suc n) (suc m) (suc a) b p q =
    omega (arith, and_rounds n m (suc a / 2) (b / 2) (omega arith) (omega arith))

or_rounds : (n m a b : ℕ) → a ≤ n → a ≤ m → digits (λ b. b) max n a b ≡ digits (λ b. b) max m a b
or_rounds zero zero a b p q = refl
or_rounds zero (suc m) zero b p q = refl
or_rounds zero (suc m) (suc a) b p q = absurd (omega arith)
or_rounds (suc n) zero zero b p q = refl
or_rounds (suc n) zero (suc a) b p q = absurd (omega arith)
or_rounds (suc n) (suc m) zero b p q = refl
or_rounds (suc n) (suc m) (suc a) b p q =
    omega (arith, or_rounds n m (suc a / 2) (b / 2) (omega arith) (omega arith))

pub bit_and_step : (x y : ℕ) → bit_and x y ≡ min (x % 2) (y % 2) + 2 * bit_and (x / 2) (y / 2)
bit_and_step zero y = omega (arith, bit_and-bitwise 0 (y / 2), bit_and-bitwise 0 y)
bit_and_step (suc n) y =
    let tail = and_rounds n (suc n / 2) (suc n / 2) (y / 2) (omega arith) (omega arith) in
    omega (arith, tail, bit_and-bitwise (suc n / 2) (y / 2), bit_and-bitwise (suc n) y)

bit_or_step : (x y : ℕ) → bit_or x y ≡ max (x % 2) (y % 2) + 2 * bit_or (x / 2) (y / 2)
bit_or_step zero y = omega (arith, bit_or-bitwise 0 (y / 2), bit_or-bitwise 0 y)
bit_or_step (suc n) y =
    let tail = or_rounds n (suc n / 2) (suc n / 2) (y / 2) (omega arith) (omega arith) in
    omega (arith, tail, bit_or-bitwise (suc n / 2) (y / 2), bit_or-bitwise (suc n) y)

bit_and-half : (a b : ℕ) → bit_and a b / 2 ≡ bit_and (a / 2) (b / 2)
bit_and-half a b = omega (arith, bit_and_step a b)

bit_and-parity : (a b : ℕ) → bit_and a b % 2 ≡ min (a % 2) (b % 2)
bit_and-parity a b = omega (arith, bit_and_step a b)

bit_or-half : (a b : ℕ) → bit_or a b / 2 ≡ bit_or (a / 2) (b / 2)
bit_or-half a b = omega (arith, bit_or_step a b)

bit_or-parity : (a b : ℕ) → bit_or a b % 2 ≡ max (a % 2) (b % 2)
bit_or-parity a b = omega (arith, bit_or_step a b)

halves_eq : (a b : ℕ) → a / 2 ≡ b / 2 → a % 2 ≡ b % 2 → a ≡ b
halves_eq a b h k = omega arith

-- `a` has every bit of `b`: `a & b == b`.
abbrev pub Covers : ℕ → ℕ → Type 0
Covers a b = bit_and a b ≡ b

Covers-half : (a b : ℕ) → Covers a b → Covers (a / 2) (b / 2)
Covers-half a b c = omega (arith, bit_and-half a b)

Covers-parity : (a b : ℕ) → Covers a b → b % 2 ≤ a % 2
Covers-parity a b c = omega (arith, bit_and-parity a b)

pub bit_and-zero : (n a : ℕ) → a ≤ n → bit_and a 0 ≡ 0
bit_and-zero n zero h = refl
bit_and-zero zero (suc a) h = absurd (omega arith)
bit_and-zero (suc n) (suc a) h =
    omega (arith, bit_and_step (suc a) 0, bit_and-zero n (suc a / 2) (omega arith))

-- Containment, one digit at a time.
Covers-join : (a b : ℕ) → Covers (a / 2) (b / 2) → b % 2 ≤ a % 2 → Covers a b
Covers-join a b h k = omega (arith, bit_and_step a b)

Covers-trans_below : (n a b c : ℕ) → c ≤ n → Covers a b → Covers b c → Covers a c
Covers-trans_below n a b zero h p q = bit_and-zero a a (omega arith)
Covers-trans_below zero a b (suc c) h p q = absurd (omega arith)
Covers-trans_below (suc n) a b (suc c) h p q =
    Covers-join a (suc c)
      (Covers-trans_below n (a / 2) (b / 2) (suc c / 2) (omega arith) (Covers-half a b p)
        (Covers-half b (suc c) q))
      (omega (arith, Covers-parity a b p, Covers-parity b (suc c) q))

pub Covers-trans : (a b c : ℕ) → Covers a b → Covers b c → Covers a c
Covers-trans a b c = Covers-trans_below c a b c (omega arith)

bit_and-le : (n a b : ℕ) → a ≤ n → bit_and a b ≤ a
bit_and-le n zero b h = omega (arith, bit_and-bitwise 0 b)
bit_and-le zero (suc a) b h = absurd (omega arith)
bit_and-le (suc n) (suc a) b h =
    omega (arith, bit_and_step (suc a) b, bit_and-le n (suc a / 2) (b / 2) (omega arith))

-- An intersection is contained in its first set.
Covers-bit_and_below : (n a b : ℕ) → a ≤ n → Covers a (bit_and a b)
Covers-bit_and_below n zero b h = rw (bit_and-bitwise 0 b)
Covers-bit_and_below zero (suc a) b h = absurd (omega arith)
Covers-bit_and_below (suc n) (suc a) b h =
    Covers-join (suc a) (bit_and (suc a) b)
      (rw (bit_and-half (suc a) b) (Covers-bit_and_below n (suc a / 2) (b / 2) (omega arith)))
      (omega (arith, bit_and-parity (suc a) b))

pub Covers-bit_and : (a b : ℕ) → Covers a (bit_and a b)
Covers-bit_and a b = Covers-bit_and_below a a b (omega arith)

pub bit_and-le_left : (a b : ℕ) → bit_and a b ≤ a
bit_and-le_left a b = bit_and-le a a b (omega arith)

-- A union has the bits of its first set.
Covers-bit_or_below : (n a b : ℕ) → a ≤ n → Covers (bit_or a b) a
Covers-bit_or_below n zero b h = bit_and-zero (bit_or 0 b) (bit_or 0 b) (omega arith)
Covers-bit_or_below zero (suc a) b h = absurd (omega arith)
Covers-bit_or_below (suc n) (suc a) b h =
    Covers-join (bit_or (suc a) b) (suc a)
      (rw (bit_or-half (suc a) b) (Covers-bit_or_below n (suc a / 2) (b / 2) (omega arith)))
      (omega (arith, bit_or-parity (suc a) b))

pub Covers-bit_or : (a b : ℕ) → Covers (bit_or a b) a
Covers-bit_or a b = Covers-bit_or_below a a b (omega arith)

-- What two sets both contain, their intersection contains.
Covers-meet_below : (n a b c : ℕ) → c ≤ n → Covers a c → Covers b c → Covers (bit_and a b) c
Covers-meet_below n a b zero h p q = bit_and-zero (bit_and a b) (bit_and a b) (omega arith)
Covers-meet_below zero a b (suc c) h p q = absurd (omega arith)
Covers-meet_below (suc n) a b (suc c) h p q =
    Covers-join (bit_and a b) (suc c)
      (rw (bit_and-half a b) (
        Covers-meet_below n (a / 2) (b / 2) (suc c / 2) (omega arith) (Covers-half a (suc c) p)
          (Covers-half b (suc c) q)))
      (omega (arith, bit_and-parity a b, Covers-parity a (suc c) p, Covers-parity b (suc c) q))

pub Covers-meet : (a b c : ℕ) → Covers a c → Covers b c → Covers (bit_and a b) c
Covers-meet a b c = Covers-meet_below c a b c (omega arith)
