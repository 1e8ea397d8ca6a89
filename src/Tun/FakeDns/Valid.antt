-- ===== src/Tun/FakeDns/Valid.antt =====
-- What the table of crates/velum-adapter-tun/src/fake_dns.rs holds between two calls.
use velum.Prelude.{
  ℕ, ◌+◌, ◌≡◌, refl, ap, sym, ◌∙◌, ◌≤◌, ◌<◌, Option, none, some, List, [], ◌∷◌, ◌++◌, Result, ok,
  err, Bool-cases, inl, inr, ◌==◌, ==_iff, length, length-append, arith, done, panic, and_run,
  expect,
}
use mathlib.Core.Path.{subst}
use velum.Net.{IpAddr}
use velum.Tun.FakeDns.{
  FakeDnsMapping, FakeDnsTable, FakeDnsError, first_ipv4, first_ipv6, get, retain_live, retain_keys,
  find, evict, remove_expired, new, Allocation, renew, store, make, serve, allocate_domain,
  allocate, resolve, replace_generation, normalize_domain, next_address,
}
use velum.Tun.FakeDns.Maps.{
  Mappings, keys, AreMappings, retain_live-AreMappings, length-retain_live, retain_keys-retain_live,
}
use velum.Tun.FakeDns.Changes.{evict-eq, insert-eq, keys-append, append-AreMappings}
use velum.Tun.FakeDns.Expiry.{keys-set_expiry, length-set_expiry, set_expiry-AreMappings}
use velum.Tun.FakeDns.Search.{InRange, Keeps, IsSearched, search-IsSearched}

-- The queue has the keys of the map in their order, the map is within the capacity and its entries
-- are as `AreMappings` says, and the next IPv4 address is one the table may give.
abbrev pub IsValid : FakeDnsTable → Type 0
IsValid self =
    (self.insertion_order ≡ keys self.mappings)
    × AreMappings self.generation self.mappings
    × (length self.mappings ≤ self.capacity)
    × (0 < self.capacity)
    × InRange self.next_ipv4

pub remove_expired-IsValid :
    (now : ℕ) (self : FakeDnsTable) → IsValid self → IsValid (remove_expired now self)
unfolding remove_expired
remove_expired-IsValid now self (o, h, l, c, r) = (
  ap (retain_keys (retain_live now self.mappings)) o
      ∙ retain_keys-retain_live self.generation now self.mappings h,
  retain_live-AreMappings self.generation now self.mappings h,
  omega (arith, length-retain_live now self.mappings),
  c,
  r,
)

-- An allocation leaves a valid table of the same generation, if it does not panic.
abbrev pub LeavesValid : Allocation → Type 0
LeavesValid (done (out, next)) = IsValid next
LeavesValid panic = Unit

and_run-LeavesValid :
    (o : Option ℕ) (f : ℕ → Allocation)
    → ((t : ℕ) → o ≡ some t → LeavesValid (f t))
    → LeavesValid (and_run (expect o) f)
and_run-LeavesValid none f h = tt
and_run-LeavesValid (some t) f h = h t refl

module _ (trim : List ℕ → List ℕ) (plus : ℕ → ℕ → Option ℕ) where
  renew-LeavesValid :
      (self : FakeDnsTable) (d : List ℕ) (real : IpAddr) (existing : FakeDnsMapping) (ttl now : ℕ)
      → IsValid self
      → LeavesValid (renew trim plus self d real existing ttl now)
  unfolding renew
  renew-LeavesValid self d real existing ttl now (o, h, l, c, r) =
      and_run-LeavesValid (plus now ttl) _ (λ t e. (
        o ∙ sym (keys-set_expiry d real t self.mappings),
        set_expiry-AreMappings d real t self.generation self.mappings h,
        omega (arith, length-set_expiry d real t self.mappings),
        c,
        r,
      ))

  Keeps-IsValid : (self next : FakeDnsTable) → Keeps self next → IsValid self → IsValid next
  Keeps-IsValid self next (m, q, p, g, i) (o, h, l, c, r) = (
    q ∙ o ∙ sym (ap keys m),
    subst (λ n. AreMappings n next.mappings) (sym g)
        (subst (AreMappings self.generation) (sym m) h),
    omega (arith, ap length m),
    omega arith,
    i,
  )

  store-LeavesValid :
      (g : ℕ) (d : List ℕ) (real : IpAddr) (ttl now : ℕ) (kept : FakeDnsTable)
      (out : Result IpAddr FakeDnsError × FakeDnsTable)
      → IsValid kept
      → length kept.mappings < kept.capacity
      → find d real kept.mappings ≡ none
      → g ≡ kept.generation
      → IsSearched kept real out
      → LeavesValid (store trim plus g d real ttl now out)
  unfolding store
  store-LeavesValid g d real ttl now kept (err error, self) v room absent same (k, f) =
      Keeps-IsValid kept self k v
  store-LeavesValid g d real ttl now kept (ok fake, self) v room absent same (k, f) =
      let (o, h, l, c, r) = Keeps-IsValid kept self k v in
      let free : get fake self.mappings ≡ none = ap (get fake) k.0 ∙ f.0 in
      let new_one : find d real self.mappings ≡ none = ap (find d real) k.0 ∙ absent in
      and_run-LeavesValid (plus now ttl) _ (λ t e.
        let entry : FakeDnsMapping = record {
          domain = d;
          real_address = real;
          fake_address = fake;
          generation = g;
          expires_at = t;
        } in
        rw (insert-eq fake entry self.mappings free) (
          ap (λ q. q ++ (fake ∷ [])) o ∙ sym (keys-append self.mappings ((fake, entry) ∷ [])),
          append-AreMappings self.generation fake entry self.mappings h free new_one
              (refl, same ∙ sym k.3, f.1, f.2),
          omega (arith, length-append self.mappings ((fake, entry) ∷ []), ap length k.0, k.2),
          c,
          r,
        ))

  make-LeavesValid :
      (self : FakeDnsTable) (d : List ℕ) (real : IpAddr) (ttl now : ℕ)
      → IsValid self
      → find d real self.mappings ≡ none
      → LeavesValid (make trim plus self self.generation d real ttl now)
  unfolding make next_address
  make-LeavesValid self d real ttl now (o, h, l, c, r) absent =
      let (kept, same, fine, room, still) =
        evict-eq self.generation self.capacity self.mappings h c in
      let table : FakeDnsTable = record self { insertion_order = keys kept; mappings = kept } in
      let evicted : evict self.capacity self.insertion_order self.mappings ≡ (keys kept, kept) =
        ap (λ q. evict self.capacity q self.mappings) o ∙ same in
      subst
        (λ (e : List IpAddr × Mappings). LeavesValid (
          store trim plus self.generation d real ttl now
            (next_address (record self { insertion_order = e.0; mappings = e.1 }) real)))
        (sym evicted)
        (store-LeavesValid self.generation d real ttl now table _ (refl, fine, omega arith, c, r)
          room (still d real absent) refl (search-IsSearched (self.capacity + 1) table real r))

  serve-LeavesValid :
      (live : FakeDnsTable) (d : List ℕ) (real : IpAddr) (ttl now : ℕ)
      (found : Option FakeDnsMapping)
      → find d real live.mappings ≡ found
      → IsValid live
      → LeavesValid (serve trim plus live live.generation d real ttl now found)
  unfolding serve
  serve-LeavesValid live d real ttl now none absent v =
      make-LeavesValid live d real ttl now v absent
  serve-LeavesValid live d real ttl now (some existing) found v =
      renew-LeavesValid live d real existing ttl now v

  domain-LeavesValid :
      (self : FakeDnsTable) (domain : Result (List ℕ) FakeDnsError) (real : IpAddr) (ttl now : ℕ)
      → IsValid self
      → LeavesValid (allocate_domain trim plus self self.generation domain real ttl now)
  unfolding allocate_domain remove_expired
  domain-LeavesValid self (err error) real ttl now v = v
  domain-LeavesValid self (ok d) real ttl now v =
      let live = remove_expired now self in
      serve-LeavesValid live d real ttl now (find d real live.mappings) refl
        (remove_expired-IsValid now self v)

  allocate-LeavesValid :
      (self : FakeDnsTable) (generation : ℕ) (text : List ℕ) (real : IpAddr) (ttl now : ℕ)
      → IsValid self
      → LeavesValid (allocate trim plus self generation text real ttl now)
  unfolding allocate
  allocate-LeavesValid self generation text real ttl now v =
      elim (Bool-cases (generation == self.generation)) [
        | inl same ↦ simp same (
            subst
              (λ g.
                LeavesValid
                  (allocate_domain trim plus self g (normalize_domain trim text) real ttl now))
              (sym ((==_iff generation self.generation).0 same))
              (domain-LeavesValid self (normalize_domain trim text) real ttl now v))
        | inr differ ↦ simp differ v
      ]

-- A table after any calls, as long as none panics.
pub data Reached (trim : List ℕ → List ℕ) (plus : ℕ → ℕ → Option ℕ) : FakeDnsTable → Type 0 where
  created :
      (generation capacity : ℕ) (self : FakeDnsTable)
      → new generation capacity ≡ ok self
      → Reached trim plus self
  allocated :
      (self next : FakeDnsTable) (generation : ℕ) (text : List ℕ) (real : IpAddr) (ttl now : ℕ)
      (out : Result IpAddr FakeDnsError)
      → Reached trim plus self
      → allocate trim plus self generation text real ttl now ≡ done (out, next)
      → Reached trim plus next
  resolved :
      (self : FakeDnsTable) (generation : ℕ) (fake : IpAddr) (now : ℕ)
      → Reached trim plus self
      → Reached trim plus (resolve self generation fake now).1
  replaced :
      (self : FakeDnsTable) (generation : ℕ)
      → Reached trim plus self
      → Reached trim plus (replace_generation self generation)

new-IsValid :
    (generation capacity : ℕ) (self : FakeDnsTable)
    → new generation capacity ≡ ok self
    → IsValid self
unfolding new
new-IsValid generation capacity self e = elim (Bool-cases (capacity == 0)) [
  | inl empty ↦ absurd (ground arith)
  | inr some_room ↦
      let table : FakeDnsTable = record {
        generation = generation;
        capacity = capacity;
        mappings = [];
        insertion_order = [];
        next_ipv4 = first_ipv4;
        next_ipv6 = first_ipv6;
      } in
      let made : new generation capacity ≡ ok table = simp some_room refl in
      let same : table ≡ self = cc in
      subst IsValid same (refl, tt, omega arith, ground arith, (omega arith, omega arith))
]

resolve-IsValid :
    (self : FakeDnsTable) (generation : ℕ) (fake : IpAddr) (now : ℕ)
    → IsValid self
    → IsValid (resolve self generation fake now).1
unfolding resolve
resolve-IsValid self generation fake now v = elim (Bool-cases (generation == self.generation)) [
  | inl same ↦ simp same (remove_expired-IsValid now self v)
  | inr differ ↦ simp differ v
]

-- Whatever calls a table has had, none of which panicked, its queue has exactly the keys of its map;
-- it has at most as many entries as its capacity; no two entries have one fake address, or one domain and real address;
-- each entry is of the current generation and stands under its own fake address, which has the
-- family of the real one and, for IPv4, lies between 198.18.0.1 and 198.19.255.254.
pub Reached-IsValid :
    (trim : List ℕ → List ℕ) (plus : ℕ → ℕ → Option ℕ) (self : FakeDnsTable)
    → Reached trim plus self
    → IsValid self
unfolding replace_generation
Reached-IsValid trim plus _ (created generation capacity self e) =
    new-IsValid generation capacity self e
Reached-IsValid trim plus _ (allocated self next generation text real ttl now out r e) =
    subst LeavesValid e (
      allocate-LeavesValid trim plus self generation text real ttl now
        (Reached-IsValid trim plus self r))
Reached-IsValid trim plus _ (resolved self generation fake now r) =
    resolve-IsValid self generation fake now (Reached-IsValid trim plus self r)
Reached-IsValid trim plus _ (replaced self generation r) =
    let (o, h, l, c, i) = Reached-IsValid trim plus self r in (refl, tt, omega arith, c, i)
