-- ===== src/Routing/Cidr.antt =====
-- `IpCidr` of crates/velum-client-routing/src/lib.rs: which addresses a network has.
use velum.Prelude.{
  ℕ, ◌+◌, ◌-◌, ◌*◌, ◌/◌, ◌%◌, ◌^◌, ◌≡◌, refl, ap, sym, ◌∙◌, ◌≤◌, ◌<◌, ◌↔◌, true, ok, err, ==_iff,
  ltb, leb, leb→le, Bool-cases, inl, inr, bit_and, bit_and-mask, bit_and-zero, zero, suc, arith,
}
use mathlib.Core.Path.{subst}
use native.Mathlib.Nat.{pow-suc, div-eq_of_lt, eq_of_mul-eq-mul_right}
use velum.Net.{IpAddr, v4, v6, ip_eq, ip_eq_iff}
use velum.Routing.{
  IpCidr, prefix_out_of_range, host_bits_set, min_of, mask_bits, mask, width_of, new_cidr, contains,
}

-- Addresses that fit the words of their family.
abbrev pub IsIpAddr : IpAddr → Type 0
IsIpAddr (v4 a) = a < 2 ^ 32
IsIpAddr (v6 a) = a < 2 ^ 128

-- Two addresses of one family with the same leading bits.
abbrev pub Agree : ℕ → IpAddr → IpAddr → Type 0
Agree prefix (v4 a) (v4 b) = a / 2 ^ (32 - prefix) ≡ b / 2 ^ (32 - prefix)
Agree prefix (v4 a) (v6 b) = ⊥
Agree prefix (v6 a) (v4 b) = ⊥
Agree prefix (v6 a) (v6 b) = a / 2 ^ (128 - prefix) ≡ b / 2 ^ (128 - prefix)

shift_eq : (width prefix : ℕ) → prefix ≤ width → width - min_of prefix width ≡ width - prefix
shift_eq width prefix h = ground arith

mask_bits-eq :
    (width prefix a : ℕ)
    → prefix ≤ width
    → a < 2 ^ width
    → bit_and a (mask_bits width prefix) ≡ a / 2 ^ (width - prefix) * 2 ^ (width - prefix)
unfolding mask_bits
mask_bits-eq width prefix a h k =
    let s = width - prefix in
    elim (Bool-cases (ltb s width)) [
      | inl some_bits ↦
          let whole : prefix + s ≡ width = omega arith in
          rw (shift_eq width prefix h, some_bits)
            (subst (λ w. bit_and a ((2 ^ w - 1) * 2 ^ s % 2 ^ w) ≡ a / 2 ^ s * 2 ^ s) whole
              (bit_and-mask prefix s a (subst (λ w. a < 2 ^ w) (sym whole) k)))
      | inr no_bits ↦
          let all : width ≡ s = ground arith in
          let nothing : a / 2 ^ s ≡ 0 = div-eq_of_lt (subst (λ w. a < 2 ^ w) all k) in
          rw (shift_eq width prefix h, no_bits)
            (omega (arith, bit_and-zero a a (omega arith), ap (λ q. q * 2 ^ s) nothing))
    ]

-- A word cut to its leading bits is a word without others exactly when their leading bits agree.
cut_iff : (P a b : ℕ) → 0 < P → b / P * P ≡ b → (a / P * P ≡ b) ↔ (a / P ≡ b / P)
cut_iff P a b h e = (
  λ cut. eq_of_mul-eq-mul_right P h (a / P) (b / P) (cut ∙ sym e),
  λ same. ap (λ q. q * P) same ∙ e,
)

-- No bit of the address is set behind the prefix.
abbrev pub IsNetwork : ℕ → IpAddr → Type 0
IsNetwork prefix (v4 a) = a / 2 ^ (32 - prefix) * 2 ^ (32 - prefix) ≡ a
IsNetwork prefix (v6 a) = a / 2 ^ (128 - prefix) * 2 ^ (128 - prefix) ≡ a

pub mask_iff :
    (network : IpAddr) (prefix : ℕ)
    → prefix ≤ width_of network
    → IsIpAddr network
    → (mask (record { network = network; prefix_length = prefix }) network ≡ network)
      ↔ IsNetwork prefix network
unfolding mask
mask_iff (v4 n) prefix h k =
    let cut = mask_bits-eq 32 prefix n h k in (λ e. sym cut ∙ cc, λ e. ap v4 (cut ∙ e))
mask_iff (v6 n) prefix h k =
    let cut = mask_bits-eq 128 prefix n h k in (λ e. sym cut ∙ cc, λ e. ap v6 (cut ∙ e))

pow_positive : (n : ℕ) → 0 < 2 ^ n
pow_positive zero = omega arith
pow_positive (suc n) = omega (arith, pow-suc 2 n, pow_positive n)

-- Masks agree with the network exactly when the leading bits do.
masked_iff :
    (width prefix a b : ℕ)
    → prefix ≤ width
    → a < 2 ^ width
    → b < 2 ^ width
    → bit_and b (mask_bits width prefix) ≡ b
    → (bit_and a (mask_bits width prefix) ≡ b)
      ↔ (a / 2 ^ (width - prefix) ≡ b / 2 ^ (width - prefix))
masked_iff width prefix a b h k l e =
    let cut =
      cut_iff (2 ^ (width - prefix)) a b (pow_positive (width - prefix))
        (sym (mask_bits-eq width prefix b h l) ∙ e) in
    let masked = mask_bits-eq width prefix a h k in
    (λ m. cut.0 (sym masked ∙ m), λ same. masked ∙ cut.1 same)

-- What the checks of `new` leave.
pub new_cidr-eq-ok :
    (network : IpAddr) (prefix_length : ℕ) (cidr : IpCidr)
    → new_cidr network prefix_length ≡ ok cidr
    → (cidr ≡ record { network = network; prefix_length = prefix_length })
      × (prefix_length ≤ width_of network)
      × (mask cidr network ≡ network)
unfolding new_cidr
new_cidr-eq-ok network prefix_length cidr e =
    let made : IpCidr = record { network = network; prefix_length = prefix_length } in
    elim (Bool-cases (leb prefix_length (width_of network))) [
      | inr long ↦
          let refused : new_cidr network prefix_length ≡ err prefix_out_of_range = simp long refl in
          absurd cc
      | inl fits ↦ elim (Bool-cases (ip_eq (mask made network) network)) [
        | inr unclean ↦
            let refused : new_cidr network prefix_length ≡ err host_bits_set =
              simp (fits, unclean) refl in
            absurd cc
        | inl clean ↦
            let accepted : new_cidr network prefix_length ≡ ok made = simp (fits, clean) refl in
            let same : made ≡ cidr = cc in
            (
              sym same,
              leb→le prefix_length (width_of network) fits,
              subst (λ x. mask x network ≡ network) same
                  ((ip_eq_iff (mask made network) network).0 clean),
            )
      ]
    ]

pub contains-made :
    (network a : IpAddr) (prefix : ℕ)
    → prefix ≤ width_of network
    → mask (record { network = network; prefix_length = prefix }) network ≡ network
    → IsIpAddr network
    → IsIpAddr a
    → (contains (record { network = network; prefix_length = prefix }) a ≡ true)
      ↔ Agree prefix a network
unfolding contains mask
contains-made (v4 n) (v4 a) prefix h e k l =
    let same = masked_iff 32 prefix a n h l k cc in
    (λ t. same.0 ((==_iff _ _).0 t), λ t. (==_iff _ _).1 (same.1 t))
contains-made (v4 n) (v6 a) prefix h e k l = (λ t. cc, λ t. absurd t)
contains-made (v6 n) (v4 a) prefix h e k l = (λ t. cc, λ t. absurd t)
contains-made (v6 n) (v6 a) prefix h e k l =
    let same = masked_iff 128 prefix a n h l k cc in
    (λ t. same.0 ((==_iff _ _).0 t), λ t. (==_iff _ _).1 (same.1 t))

-- A network that `IpCidr::new` accepts contains an address exactly when the two are of one family
-- and agree on the leading bits that the prefix counts.
pub contains-new_cidr :
    (network a : IpAddr) (prefix : ℕ) (cidr : IpCidr)
    → new_cidr network prefix ≡ ok cidr
    → IsIpAddr network
    → IsIpAddr a
    → (contains cidr a ≡ true) ↔ Agree prefix a network
contains-new_cidr network a prefix cidr e k l =
    let (made, fits, clean) = new_cidr-eq-ok network prefix cidr e in
    subst (λ x. (contains x a ≡ true) ↔ Agree prefix a network) (sym made)
      (contains-made network a prefix fits (subst (λ x. mask x network ≡ network) made clean) k l)
