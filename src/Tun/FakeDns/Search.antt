-- ===== src/Tun/FakeDns/Search.antt =====
-- `next_address` of crates/velum-adapter-tun/src/fake_dns.rs.
use velum.Prelude.{
  ℕ, zero, suc, ◌+◌, ◌^◌, ◌≡◌, refl, ap, sym, ◌∙◌, ◌≤◌, Option, none, some, Result, ok, err,
  Bool-cases, Option-cases, inl, inr, ltb, if◌then◌else◌, arith,
}
use velum.Net.{IpAddr, v4, v6, is_ipv4}
use velum.Tun.FakeDns.{
  FakeDnsTable, FakeDnsError, first_ipv4, last_ipv4, get, contains_key, candidate, search,
}
use velum.Tun.FakeDns.Maps.{Mappings, IsFake}

abbrev pub InRange : ℕ → Type 0
InRange next = (first_ipv4 ≤ next) × (next ≤ last_ipv4)

-- Only the counters differ.
abbrev pub Keeps : FakeDnsTable → FakeDnsTable → Type 0
Keeps self next =
    (next.mappings ≡ self.mappings)
    × (next.insertion_order ≡ self.insertion_order)
    × (next.capacity ≡ self.capacity)
    × (next.generation ≡ self.generation)
    × InRange next.next_ipv4

abbrev pub IsFound : Mappings → IpAddr → Result IpAddr FakeDnsError → Type 0
IsFound m real (err error) = Unit
IsFound m real (ok a) = (get a m ≡ none) × (is_ipv4 a ≡ is_ipv4 real) × IsFake a

abbrev IsCandidate : FakeDnsTable → IpAddr → Option (IpAddr × FakeDnsTable) → Type 0
IsCandidate self real none = Unit
IsCandidate self real (some (a, next)) = Keeps self next × (is_ipv4 a ≡ is_ipv4 real) × IsFake a

wrapped : (a : ℕ) → InRange a → InRange (if ltb last_ipv4 (a + 1) then first_ipv4 else a + 1)
wrapped a h = ground arith

candidate-IsCandidate :
    (self : FakeDnsTable) (real : IpAddr)
    → InRange self.next_ipv4
    → IsCandidate self real (candidate self real)
unfolding candidate
candidate-IsCandidate self (v4 real) h = elim (Bool-cases (ltb (self.next_ipv4 + 1) (2 ^ 32))) [
  | inl fits ↦ simp fits ((refl, refl, refl, refl, wrapped self.next_ipv4 h), refl, h)
  | inr full ↦ simp full tt
]
candidate-IsCandidate self (v6 real) h = elim (Bool-cases (ltb (self.next_ipv6 + 1) (2 ^ 128))) [
  | inl fits ↦ simp fits ((refl, refl, refl, refl, h), refl, tt)
  | inr full ↦ simp full tt
]

Keeps-trans : (self next last : FakeDnsTable) → Keeps self next → Keeps next last → Keeps self last
Keeps-trans self next last (a, b, c, d, r) (a', b', c', d', r') =
    (a' ∙ a, b' ∙ b, c' ∙ c, d' ∙ d, r')

IsFound-eq :
    (m m' : Mappings) (real : IpAddr) (out : Result IpAddr FakeDnsError)
    → m' ≡ m
    → IsFound m' real out
    → IsFound m real out
IsFound-eq m m' real (err error) e h = tt
IsFound-eq m m' real (ok a) e (f, i, r) = (sym (ap (get a) e) ∙ f, i, r)

abbrev pub IsSearched : FakeDnsTable → IpAddr → Result IpAddr FakeDnsError × FakeDnsTable → Type 0
IsSearched self real out = Keeps self out.1 × IsFound self.mappings real out.0

-- The search changes nothing but the counters, and what it finds is free.
pub search-IsSearched :
    (rounds : ℕ) (self : FakeDnsTable) (real : IpAddr)
    → InRange self.next_ipv4
    → IsSearched self real (search rounds self real)
unfolding search
search-IsSearched zero self real h = ((refl, refl, refl, refl, h), tt)
search-IsSearched (suc rounds) self real h =
    go (candidate self real) (candidate-IsCandidate self real h)
      (λ next r. search-IsSearched rounds next real r)
  where
    go :
        (c : Option (IpAddr × FakeDnsTable))
        → IsCandidate self real c
        → ((next : FakeDnsTable)
            → InRange next.next_ipv4
            → IsSearched next real (search rounds next real))
        → IsSearched self real (elim c [
          | none ↦ (err FakeDnsError.address_space_exhausted, self)
          | some (address, next) ↦
              let later = search rounds next real in
              if contains_key address next.mappings then later else (ok address, next)
        ])
    go none i ih = ((refl, refl, refl, refl, h), tt)
    go (some (a, next)) (k, f, r) ih = elim (Option-cases (get a next.mappings)) [
      | inl free ↦ simp free (k, (sym (ap (get a) k.0) ∙ free, f, r))
      | inr (v, taken) ↦
          let (k', i) = ih next k.4 in
          simp taken (
            Keeps-trans self next (search rounds next real).1 k k',
            IsFound-eq self.mappings next.mappings real (search rounds next real).0 k.0 i,
          )
    ]
