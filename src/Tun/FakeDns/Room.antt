-- ===== src/Tun/FakeDns/Room.antt =====
-- The search of crates/velum-adapter-tun/src/fake_dns.rs for a free IPv4 address, which goes round the
-- range of addresses.
use velum.Prelude.{
  ℕ, zero, suc, ◌+◌, ◌^◌, ◌≡◌, refl, ap, sym, ◌∙◌, ◌≤◌, ◌<◌, Bool, Option, none, some, List, Result,
  ok, err, Option-cases, inl, inr, ◌⊎◌, lt→ltb, if◌then◌else◌, length, arith, ==_iff, done, and_run,
  expect,
}
use mathlib.Core.Path.{subst}
use velum.Net.{IpAddr, v4}
use velum.Tun.FakeDns.{
  FakeDnsMapping, FakeDnsTable, FakeDnsError, address_space_exhausted, contains_key, is_some, get,
  candidate, search, next_address, evict, find, renew, store, make, serve, allocate_domain,
  allocate, Allocation, remove_expired, normalize_domain,
}
use velum.Tun.FakeDns.Valid.{IsValid, remove_expired-IsValid}
use velum.Tun.FakeDns.Maps.{Mappings, keys}
use velum.Tun.FakeDns.Changes.{evict-eq}
use velum.Tun.FakeDns.Search.{InRange}
use velum.Tun.FakeDns.Occupied.{next_of, next_of-InRange, Occupied, Occupied-length}

candidate-v4 :
    (self : FakeDnsTable) (real : ℕ)
    → InRange self.next_ipv4
    → candidate self (v4 real)
      ≡ some (v4 self.next_ipv4, record self { next_ipv4 = next_of self.next_ipv4 })
unfolding candidate
candidate-v4 self real i = simp (lt→ltb (self.next_ipv4 + 1) (2 ^ 32) (omega arith)) refl

-- One round of the search.
search-suc :
    (n : ℕ) (self : FakeDnsTable) (real : ℕ)
    → InRange self.next_ipv4
    → let next : FakeDnsTable = record self { next_ipv4 = next_of self.next_ipv4 } in
      search (suc n) self (v4 real) ≡ (
        if is_some (get (v4 self.next_ipv4) self.mappings)
        then search n next (v4 real)
        else (ok (v4 self.next_ipv4), next))
unfolding search
search-suc n self real i =
    ap
      (λ (c : Option (IpAddr × FakeDnsTable)). elim c [
        | none ↦ (err address_space_exhausted, self)
        | some (address, next) ↦
            let later = search n next (v4 real) in
            if contains_key address next.mappings then later else (ok address, next)
      ])
      (candidate-v4 self real i)

-- The search finds an address, or all that it tried are taken.
search-cases :
    (n : ℕ) (self : FakeDnsTable) (real : ℕ)
    → InRange self.next_ipv4
    → ((a : IpAddr) × ((search n self (v4 real)).0 ≡ ok a))
      ⊎ Occupied n self.next_ipv4 self.mappings
search-cases zero self real i = inr tt
search-cases (suc n) self real i =
    let next : FakeDnsTable = record self { next_ipv4 = next_of self.next_ipv4 } in
    let round =
      ap (λ (out : Result IpAddr FakeDnsError × FakeDnsTable). out.0) (search-suc n self real i) in
    let ih = search-cases n next real (next_of-InRange self.next_ipv4 i) in
    elim (Option-cases (get (v4 self.next_ipv4) self.mappings)) [
      | inl free ↦ inl (
        v4 self.next_ipv4,
        round
            ∙ ap
                (λ (b : Bool).
                  (if b then search n next (v4 real) else (ok (v4 self.next_ipv4), next)).0)
                (ap is_some free),
      )
      | inr (v, taken) ↦
          let on =
            round
            ∙ ap
                (λ (b : Bool).
                  (if b then search n next (v4 real) else (ok (v4 self.next_ipv4), next)).0)
                (ap is_some taken) in
          elim ih [ inl (a, found) ↦ inl (a, on ∙ found) | inr all ↦ inr (ap is_some taken, all) ]
    ]

search-ok :
    (n : ℕ) (self : FakeDnsTable) (real : ℕ)
    → InRange self.next_ipv4
    → n ≤ 131070
    → length self.mappings < n
    → (a : IpAddr) × ((search n self (v4 real)).0 ≡ ok a)
search-ok n self real i room short = elim (search-cases n self real i) [
  | inl found ↦ found
  | inr all ↦ absurd (omega (arith, Occupied-length n self.next_ipv4 self.mappings i room all))
]

-- An allocation that gives an address.
abbrev pub Gives : Allocation → Type 0
Gives out = (fake : IpAddr) × (next : FakeDnsTable) × (out ≡ done (ok fake, next))

expect-Gives :
    (o : Option ℕ) (fake : IpAddr) (f : ℕ → FakeDnsTable) {t : ℕ}
    → o ≡ some t
    → Gives (and_run (expect o) (λ e. done (ok fake, f e)))
expect-Gives none fake f h = cc
expect-Gives (some t) fake f h = (fake, f t, refl)

module _ (trim : List ℕ → List ℕ) (plus : ℕ → ℕ → Option ℕ) (ttl now t : ℕ)
    (deadline : plus now ttl ≡ some t) where
  store-Gives :
      (g : ℕ) (d : List ℕ) (real : IpAddr) (out : Result IpAddr FakeDnsError × FakeDnsTable)
      → ((a : IpAddr) × (out.0 ≡ ok a))
      → Gives (store trim plus g d real ttl now out)
  unfolding store
  store-Gives g d real (ok fake, self) found = expect-Gives (plus now ttl) fake _ deadline
  store-Gives g d real (err error, self) (a, e) = cc

  make-Gives :
      (self : FakeDnsTable) (d : List ℕ) (real : ℕ)
      → IsValid self
      → self.capacity < 131070
      → Gives (make trim plus self self.generation d (v4 real) ttl now)
  unfolding make next_address
  make-Gives self d real (o, h, l, c, r) room =
      let (kept, same, fine, short, still) =
        evict-eq self.generation self.capacity self.mappings h c in
      let evicted = ap (λ q. evict self.capacity q self.mappings) o ∙ same in
      subst
        (λ (e : List IpAddr × Mappings). Gives (
          store trim plus self.generation d (v4 real) ttl now
            (next_address (record self { insertion_order = e.0; mappings = e.1 }) (v4 real))))
        (sym evicted)
        (store-Gives self.generation d (v4 real) _ (
          search-ok (self.capacity + 1)
            (record self { insertion_order = keys kept; mappings = kept }) real r (omega arith)
            (omega arith)))

  serve-Gives :
      (live : FakeDnsTable) (d : List ℕ) (real : ℕ) (found : Option FakeDnsMapping)
      → IsValid live
      → live.capacity < 131070
      → Gives (serve trim plus live live.generation d (v4 real) ttl now found)
  unfolding serve renew
  serve-Gives live d real none v room = make-Gives live d real v room
  serve-Gives live d real (some existing) v room =
      expect-Gives (plus now ttl) existing.fake_address _ deadline

-- On a valid table with a capacity below the 131070 addresses of the range, `allocate` of an IPv4
-- address for a name that is accepted, in the current generation and with an expiry that does not
-- overflow, gives a fake address: the search never runs out of addresses.
pub allocate-Gives :
    (trim : List ℕ → List ℕ) (plus : ℕ → ℕ → Option ℕ) (self : FakeDnsTable) (text d : List ℕ)
    (real ttl now t : ℕ)
    → IsValid self
    → self.capacity < 131070
    → plus now ttl ≡ some t
    → normalize_domain trim text ≡ ok d
    → Gives (allocate trim plus self self.generation text (v4 real) ttl now)
unfolding allocate allocate_domain remove_expired
allocate-Gives trim plus self text d real ttl now t v room deadline named =
    let live = remove_expired now self in
    simp ((==_iff self.generation self.generation).1 refl, named)
      (serve-Gives trim plus ttl now t deadline live d real (find d (v4 real) live.mappings)
        (remove_expired-IsValid now self v) room)
