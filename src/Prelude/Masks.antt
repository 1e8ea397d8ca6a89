-- ===== src/Prelude/Masks.antt =====
-- Masks of leading bits, as a shifted and truncated all-ones word.
use Prim.Native.Nat.{ℕ, zero, suc, ◌+◌, ◌-◌, ◌*◌, ◌/◌, ◌%◌, ◌^◌, ◌≤◌, ◌<◌, bit_and}
use mathlib.Core.Path.{◌≡◌, sym, ap, ◌∙◌}
use native.Mathlib.Omega.{arith}
use native.Mathlib.Nat.{
  pow-suc, suc-mul, mul-suc, mul_assoc, mul_comm, add-zero, add-suc, div-div-eq-div-mul,
  add-mul-mod_self_left, mod-eq_of_lt,
}
use velum.Prelude.Bits.{bit_and_step, bit_and-zero}

one_le_two_pow : (n : ℕ) → 1 ≤ 2 ^ n
one_le_two_pow zero = omega arith
one_le_two_pow (suc n) = omega (arith, pow-suc 2 n, one_le_two_pow n)

bit_and-ones : (n a : ℕ) → a < 2 ^ n → bit_and a (2 ^ n - 1) ≡ a
bit_and-ones zero a h =
    let none_left : a ≡ 0 = omega arith in bit_and-zero a a (omega arith) ∙ sym none_left
bit_and-ones (suc n) a h =
    let half : (2 ^ suc n - 1) / 2 ≡ 2 ^ n - 1 = omega (arith, pow-suc 2 n, one_le_two_pow n) in
    let odd : (2 ^ suc n - 1) % 2 ≡ 1 = omega (arith, pow-suc 2 n, one_le_two_pow n) in
    let ih = bit_and-ones n (a / 2) (omega (arith, pow-suc 2 n)) in
    omega (arith, bit_and_step a (2 ^ suc n - 1), half, odd, ap (bit_and (a / 2)) half, ih)

shift_eq : (n p q : ℕ) → suc n * suc p ≡ suc q → q * suc p ≡ n * suc p + suc q * p
shift_eq n p q e = omega (arith, suc-mul n (suc p), suc-mul q (suc p), mul-suc (suc q) p)

two_pow-add : (n s : ℕ) → 2 ^ (n + s) ≡ 2 ^ n * 2 ^ s
two_pow-add n zero = omega (arith, ap (λ k. 2 ^ k) (add-zero n))
two_pow-add n (suc s) =
    ap (λ k. 2 ^ k) (add-suc n s)
    ∙ pow-suc 2 (n + s)
    ∙ ap (λ k. k * 2) (two_pow-add n s)
    ∙ mul_assoc (2 ^ n) (2 ^ s) 2
    ∙ sym (ap (◌*◌ (2 ^ n)) (pow-suc 2 s))

truncated : (n p : ℕ) → 1 ≤ n → 1 ≤ p → (n * p - 1) * p % (n * p) ≡ (n - 1) * p
truncated zero p h k = absurd (omega arith)
truncated (suc n) zero h k = absurd (omega arith)
truncated (suc n) (suc p) h k =
    let q = n * suc p + p in
    let whole : suc n * suc p ≡ suc q = omega (arith, suc-mul n (suc p)) in
    let less : n * suc p < suc q = omega arith in
    let back : n ≡ suc n - 1 = omega arith in
    let one_less : suc q - 1 ≡ q = omega arith in
    ap (λ m. (m - 1) * suc p % m) whole
    ∙ ap (λ m. m * suc p % suc q) one_less
    ∙ ap (λ m. m % suc q) (shift_eq n p q whole)
    ∙ add-mul-mod_self_left (n * suc p) (suc q) p
    ∙ mod-eq_of_lt less
    ∙ ap (λ m. m * suc p) back

-- The truncated shift of all ones is the mask of the leading bits.
shifted : (n s : ℕ) → (2 ^ (n + s) - 1) * 2 ^ s % 2 ^ (n + s) ≡ (2 ^ n - 1) * 2 ^ s
shifted n s =
    ap (λ w. (w - 1) * 2 ^ s % w) (two_pow-add n s)
    ∙ truncated (2 ^ n) (2 ^ s) (one_le_two_pow n) (one_le_two_pow s)

bit_and-shifted :
    (s n a : ℕ) → a < 2 ^ n * 2 ^ s → bit_and a ((2 ^ n - 1) * 2 ^ s) ≡ a / 2 ^ s * 2 ^ s
bit_and-shifted zero n a h =
    let ones : (2 ^ n - 1) * 1 ≡ 2 ^ n - 1 = omega arith in
    omega (arith, ap (bit_and a) ones, bit_and-ones n a (omega arith))
bit_and-shifted (suc s) n a h =
    let twice : (k : ℕ) → k * 2 ^ suc s ≡ k * 2 ^ s * 2 =
      λ k. ap (◌*◌ k) (pow-suc 2 s) ∙ sym (mul_assoc k (2 ^ s) 2) in
    let mask : (2 ^ n - 1) * 2 ^ suc s ≡ (2 ^ n - 1) * 2 ^ s * 2 = twice (2 ^ n - 1) in
    let half : (2 ^ n - 1) * 2 ^ suc s / 2 ≡ (2 ^ n - 1) * 2 ^ s = omega (arith, mask) in
    let ih = bit_and-shifted s n (a / 2) (omega (arith, twice (2 ^ n))) in
    let high =
      div-div-eq-div-mul a 2 (2 ^ s) ∙ ap (λ k. a / k) (mul_comm 2 (2 ^ s) ∙ sym (pow-suc 2 s)) in
    omega (
      arith,
      bit_and_step a ((2 ^ n - 1) * 2 ^ suc s),
      mask,
      ap (bit_and (a / 2)) half,
      ih,
      ap (λ k. k * 2 ^ s) high,
      twice (a / 2 ^ suc s),
    )

-- What an address keeps under a mask of its leading bits.
pub bit_and-mask :
    (n s a : ℕ)
    → a < 2 ^ (n + s)
    → bit_and a ((2 ^ (n + s) - 1) * 2 ^ s % 2 ^ (n + s)) ≡ a / 2 ^ s * 2 ^ s
bit_and-mask n s a h =
    ap (bit_and a) (shifted n s) ∙ bit_and-shifted s n a (omega (arith, two_pow-add n s))
