-- ===== src/Tun/FakeDns/Occupied.antt =====
-- The round of IPv4 addresses of crates/velum-adapter-tun/src/fake_dns.rs: how many of them entries can
-- take.
use velum.Prelude.{
  ℕ, zero, suc, ◌+◌, ◌≡◌, ◌≢◌, refl, ap, sym, ◌∙◌, ◌≤◌, ◌<◌, true, false, [], ◌∷◌, Bool-cases, inl,
  inr, ◌⊎◌, ltb, if◌then◌else◌, length, arith,
}
use mathlib.Core.Path.{subst}
use velum.Net.{IpAddr, v4, ip_eq, ip_eq_iff}
use velum.Tun.FakeDns.{first_ipv4, last_ipv4, is_some, get, remove}
use velum.Tun.FakeDns.Maps.{Mappings, get-there}
use velum.Tun.FakeDns.Search.{InRange}

abbrev pub next_of : ℕ → ℕ
next_of c = if ltb last_ipv4 (c + 1) then first_ipv4 else c + 1

-- The next addresses of a number are all taken.
abbrev pub Occupied : ℕ → ℕ → Mappings → Type 0
Occupied zero c m = Unit
Occupied (suc n) c m = (is_some (get (v4 c) m) ≡ true) × Occupied n (next_of c) m

-- None of the next addresses is the given one.
abbrev Avoids : ℕ → ℕ → ℕ → Type 0
Avoids x zero c = Unit
Avoids x (suc n) c = (x ≢ c) × Avoids x n (next_of c)

pub next_of-InRange : (c : ℕ) → InRange c → InRange (next_of c)
next_of-InRange c h = ground arith

-- `c` is `k` steps behind `x` on the round of 131070 addresses.
abbrev IsBehind : ℕ → ℕ → ℕ → Type 0
IsBehind x k c = (x + k ≡ c) ⊎ (x + k ≡ c + 131070)

next_of-IsBehind :
    (x k c : ℕ)
    → InRange x
    → InRange c
    → k + 1 < 131070
    → IsBehind x k c
    → IsBehind x (k + 1) (next_of c)
next_of-IsBehind x k c h i room b = ground arith

behind_differs : (x k c : ℕ) → InRange x → InRange c → 0 < k → k < 131070 → IsBehind x k c → x ≢ c
behind_differs x k c h i low high (inl e) same = absurd (omega arith)
behind_differs x k c h i low high (inr e) same = absurd (omega arith)

Avoids-next :
    (n x k c : ℕ) → InRange x → InRange c → 0 < k → k + n ≤ 131070 → IsBehind x k c → Avoids x n c
Avoids-next zero x k c h i low high b = tt
Avoids-next (suc zero) x k c h i low high b = (behind_differs x k c h i low (omega arith) b, tt)
Avoids-next (suc (suc n)) x k c h i low high b = (
  behind_differs x k c h i low (omega arith) b,
  Avoids-next (suc n) x (k + 1) (next_of c) h (next_of-InRange c i) (omega arith) (omega arith)
      (next_of-IsBehind x k c h i (omega arith) b),
)

v4-false : (x c : ℕ) → x ≢ c → ip_eq (v4 x) (v4 c) ≡ false
v4-false x c h = ground (arith, h)

after_self : (n c : ℕ) → InRange c → n < 131070 → Avoids c n (next_of c)
after_self n c i room =
    Avoids-next n c 1 (next_of c) i (next_of-InRange c i) (omega arith) (omega arith) (ground arith)

remove-other : (x y : IpAddr) (m : Mappings) → ip_eq x y ≡ false → get y (remove x m) ≡ get y m
unfolding get remove
remove-other x y [] h = refl
remove-other x y ((k, v) ∷ m) h = elim (Bool-cases (ip_eq k x)) [
  | inl same ↦
      let differ : ip_eq k y ≡ false =
        subst (λ a. ip_eq a y ≡ false) (sym ((ip_eq_iff k x).0 same)) h in
      simp (same, differ) refl
  | inr other ↦ elim (Bool-cases (ip_eq k y)) [
    | inl hit ↦ simp (other, hit) refl
    | inr miss ↦ simp (other, miss) (remove-other x y m h)
  ]
]

length-remove :
    (x : IpAddr) (m : Mappings) → is_some (get x m) ≡ true → length m ≡ suc (length (remove x m))
unfolding get remove
length-remove x [] h = cc
length-remove x ((k, v) ∷ m) h = elim (Bool-cases (ip_eq k x)) [
  | inl same ↦ simp same refl
  | inr other ↦
      let rest : is_some (get x m) ≡ true = sym (ap is_some (get-there k x v m other)) ∙ h in
      simp other (omega (arith, length-remove x m rest))
]

-- Taken addresses other than the one removed are taken still.
Occupied-remove :
    (n x c : ℕ) (m : Mappings) → Occupied n c m → Avoids x n c → Occupied n c (remove (v4 x) m)
Occupied-remove zero x c m h a = tt
Occupied-remove (suc n) x c m h a = (
  ap is_some (remove-other (v4 x) (v4 c) m (v4-false x c a.0)) ∙ h.0,
  Occupied-remove n x (next_of c) m h.1 a.1,
)

-- As many addresses as there are on the round are taken only by as many entries.
pub Occupied-length :
    (n c : ℕ) (m : Mappings) → InRange c → n ≤ 131070 → Occupied n c m → n ≤ length m
Occupied-length zero c m i room h = omega arith
Occupied-length (suc n) c m i room h =
    let ih =
      Occupied-length n (next_of c) (remove (v4 c) m) (next_of-InRange c i) (omega arith)
        (Occupied-remove n c (next_of c) m h.1 (after_self n c i (omega arith))) in
    omega (arith, ih, length-remove (v4 c) m h.0)
