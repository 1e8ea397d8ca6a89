-- ===== src/Net.antt =====
-- The standard library's addresses and text, as crates/velum-adapter-tun/src/fake_dns.rs and
-- crates/velum-client-routing/src/lib.rs use them. Text is its UTF-8 bytes. `str::trim`, which
-- strips Unicode's white space, is a parameter wherever it is used.
use velum.Prelude.{
  ℕ, ◌+◌, ◌≡◌, ap, ◌↔◌, Bool, true, false, ◌&&◌, List, [], ◌∷◌, ◌==◌, ==_iff, leb, if◌then◌else◌,
}

-- `IpAddr`, by the number that `u32::from` and `u128::from` give.
pub data IpAddr : Type 0 where
  v4 v6 : ℕ → IpAddr

abbrev pub ip_eq : IpAddr → IpAddr → Bool
ip_eq (v4 a) (v4 b) = a == b
ip_eq (v4 a) (v6 b) = false
ip_eq (v6 a) (v4 b) = false
ip_eq (v6 a) (v6 b) = a == b

pub ip_eq_iff : (a b : IpAddr) → (ip_eq a b ≡ true) ↔ (a ≡ b)
ip_eq_iff (v4 a) (v4 b) = (λ e. ap v4 ((==_iff a b).0 e), λ e. (==_iff a b).1 cc)
ip_eq_iff (v4 a) (v6 b) = (λ e. cc, λ e. cc)
ip_eq_iff (v6 a) (v4 b) = (λ e. cc, λ e. cc)
ip_eq_iff (v6 a) (v6 b) = (λ e. ap v6 ((==_iff a b).0 e), λ e. (==_iff a b).1 cc)

abbrev pub is_ipv4 : IpAddr → Bool
is_ipv4 (v4 a) = true
is_ipv4 (v6 a) = false

-- `byte.to_ascii_lowercase()`
abbrev pub lower : ℕ → ℕ
lower c = if leb 65 c && leb c 90 then c + 32 else c

-- `text.to_ascii_lowercase()`
unfoldable pub to_ascii_lowercase : List ℕ → List ℕ
to_ascii_lowercase [] = []
to_ascii_lowercase (c ∷ cs) = lower c ∷ to_ascii_lowercase cs

-- Bytes behind which only dots follow end before them.
abbrev pub keep_front : ℕ → List ℕ → List ℕ
keep_front c [] = if c == 46 then [] else c ∷ []
keep_front c (d ∷ ds) = c ∷ (d ∷ ds)

-- `text.trim_end_matches('.')`
unfoldable pub trim_end_dots : List ℕ → List ℕ
trim_end_dots [] = []
trim_end_dots (c ∷ cs) = keep_front c (trim_end_dots cs)
