-- ===== src/Tun/FakeDns.antt =====
-- crates/velum-adapter-tun/src/fake_dns.rs: the table of fake addresses that stand for the domains
-- a client asked for. The map is an association list in the order of insertion; `Instant` is a
-- number, and `now + ttl` a parameter, `none` where it overflows and panics.
pub mod Maps
pub mod Changes
pub mod Search
pub mod Expiry
pub mod Valid
pub mod Resolved
pub mod Occupied
pub mod Room
use velum.Prelude.{
  ℕ, zero, suc, ◌+◌, ◌-◌, ◌*◌, ◌^◌, Bool, true, false, ◌&&◌, ◌||◌, not, Option, none, some, List,
  [], ◌∷◌, ◌++◌, Result, ok, err, ◌==◌, ltb, leb, if◌then◌else◌, length, is_empty, bytes_eq, Run,
  done, panic, and_run, expect, map,
}
use velum.Net.{IpAddr, v4, v6, ip_eq, to_ascii_lowercase, trim_end_dots}

pub record FakeDnsMapping : Type 0 where
  pub domain : List ℕ
  pub real_address : IpAddr
  pub fake_address : IpAddr
  pub generation : ℕ
  pub expires_at : ℕ

pub data FakeDnsError : Type 0 where
  zero_capacity empty_domain generation_mismatch address_space_exhausted : FakeDnsError

-- The keys and values of `mappings`, and the rest of the table.
pub record FakeDnsTable : Type 0 where
  pub generation : ℕ
  pub capacity : ℕ
  pub mappings : List (IpAddr × FakeDnsMapping)
  pub insertion_order : List IpAddr
  pub next_ipv4 : ℕ
  pub next_ipv6 : ℕ

-- 198.18.0.1 and 198.19.255.254
abbrev pub first_ipv4 : ℕ
first_ipv4 = 3323068417

abbrev pub last_ipv4 : ℕ
last_ipv4 = 3323199486

-- fd00:19::1
abbrev pub first_ipv6 : ℕ
first_ipv6 = 64768 * 2 ^ 112 + 25 * 2 ^ 96 + 1

-- `FakeDnsTable::new`
unfoldable pub new : ℕ → ℕ → Result FakeDnsTable FakeDnsError
new generation capacity =
    if capacity == 0
    then err zero_capacity
    else ok (record {
      generation = generation;
      capacity = capacity;
      mappings = [];
      insertion_order = [];
      next_ipv4 = first_ipv4;
      next_ipv6 = first_ipv6;
    })

-- `normalize_domain`
unfoldable pub normalize_domain : (List ℕ → List ℕ) → List ℕ → Result (List ℕ) FakeDnsError
normalize_domain trim text =
    let domain = to_ascii_lowercase (trim_end_dots (trim text)) in
    if is_empty domain || ltb 253 (length domain) then err empty_domain else ok domain

module _ {ℓ} {V : Type ℓ} where
  -- `map.get(&key)`
  unfoldable pub get : IpAddr → List (IpAddr × V) → Option V
  get key [] = none
  get key ((k, v) ∷ m) = if ip_eq k key then some v else get key m

  -- `map.remove(&key)`
  unfoldable pub remove : IpAddr → List (IpAddr × V) → List (IpAddr × V)
  remove key [] = []
  remove key ((k, v) ∷ m) = if ip_eq k key then m else (k, v) ∷ remove key m

  -- `map.insert(key, value)`
  unfoldable pub insert : IpAddr → V → List (IpAddr × V) → List (IpAddr × V)
  insert key value [] = (key, value) ∷ []
  insert key value ((k, v) ∷ m) =
      let later = insert key value m in if ip_eq k key then (k, value) ∷ m else (k, v) ∷ later

abbrev pub is_some {ℓ} : {A : Type ℓ} → Option A → Bool
is_some none = false
is_some (some a) = true

-- `map.contains_key(&key)`
abbrev pub contains_key {ℓ} : {V : Type ℓ} → IpAddr → List (IpAddr × V) → Bool
contains_key key m = is_some (get key m)

-- The two `retain` of `remove_expired`.
unfoldable pub retain_live : ℕ → List (IpAddr × FakeDnsMapping) → List (IpAddr × FakeDnsMapping)
retain_live now [] = []
retain_live now ((k, v) ∷ m) =
    let later = retain_live now m in if ltb now v.expires_at then (k, v) ∷ later else later

unfoldable pub retain_keys : List (IpAddr × FakeDnsMapping) → List IpAddr → List IpAddr
retain_keys m [] = []
retain_keys m (a ∷ order) =
    let later = retain_keys m order in if contains_key a m then a ∷ later else later

unfoldable pub remove_expired : ℕ → FakeDnsTable → FakeDnsTable
unfolding retain_live retain_keys
remove_expired now self =
    let live = retain_live now self.mappings in
    record self { mappings = live; insertion_order = retain_keys live self.insertion_order }

-- A candidate of `next_address`, and the table behind it.
unfoldable pub candidate : FakeDnsTable → IpAddr → Option (IpAddr × FakeDnsTable)
candidate self (v4 real) =
    let address = self.next_ipv4 in
    if ltb (address + 1) (2 ^ 32)
    then some (
      v4 address,
      record self { next_ipv4 = (if ltb last_ipv4 (address + 1) then first_ipv4 else address + 1) },
    )
    else none
candidate self (v6 real) =
    let address = self.next_ipv6 in
    if ltb (address + 1) (2 ^ 128)
    then some (v6 address, record self { next_ipv6 = address + 1 })
    else none

-- The loop of `next_address`, for the rounds that are left.
unfoldable pub search : ℕ → FakeDnsTable → IpAddr → Result IpAddr FakeDnsError × FakeDnsTable
unfolding candidate
search zero self real = (err address_space_exhausted, self)
search (suc rounds) self real = elim (candidate self real) [
  | none ↦ (err address_space_exhausted, self)
  | some (address, next) ↦
      let later = search rounds next real in
      if contains_key address next.mappings then later else (ok address, next)
]

-- `next_address`
unfoldable pub next_address : FakeDnsTable → IpAddr → Result IpAddr FakeDnsError × FakeDnsTable
unfolding search
next_address self real = search (self.capacity + 1) self real

-- Whether `find` takes a mapping.
abbrev pub is_for : List ℕ → IpAddr → FakeDnsMapping → Bool
is_for domain real mapping = bytes_eq mapping.domain domain && ip_eq mapping.real_address real

-- `values_mut().find(..)`
unfoldable pub find : List ℕ → IpAddr → List (IpAddr × FakeDnsMapping) → Option FakeDnsMapping
find domain real [] = none
find domain real ((k, v) ∷ m) = if is_for domain real v then some v else find domain real m

-- The assignment to the mapping found.
unfoldable pub set_expiry :
    List ℕ → IpAddr → ℕ → List (IpAddr × FakeDnsMapping) → List (IpAddr × FakeDnsMapping)
set_expiry domain real expires [] = []
set_expiry domain real expires ((k, v) ∷ m) =
    let later = set_expiry domain real expires m in
    if is_for domain real v then (k, record v { expires_at = expires }) ∷ m else (k, v) ∷ later

-- The `while` over the oldest addresses.
unfoldable pub evict :
    ℕ → List IpAddr → List (IpAddr × FakeDnsMapping) → List IpAddr × List (IpAddr × FakeDnsMapping)
evict capacity [] m = ([], m)
evict capacity (oldest ∷ order) m =
    let later = evict capacity order (remove oldest m) in
    if leb capacity (length m) then later else (oldest ∷ order, m)

-- What a call of `allocate` gives, and the table behind it.
abbrev pub Allocation : Type 0
Allocation = Run (Result IpAddr FakeDnsError × FakeDnsTable)

module _ (trim : List ℕ → List ℕ) (plus : ℕ → ℕ → Option ℕ) where
  -- `allocate` where a live mapping serves the request.
  unfoldable pub renew : FakeDnsTable → List ℕ → IpAddr → FakeDnsMapping → ℕ → ℕ → Allocation
  unfolding set_expiry
  renew self domain real existing ttl now = and_run (expect (plus now ttl)) (λ expires. done (
    ok existing.fake_address,
    record self { mappings = set_expiry domain real expires self.mappings },
  ))

  -- The end of `allocate`, by the result of `next_address`.
  unfoldable pub store :
      ℕ → List ℕ → IpAddr → ℕ → ℕ → Result IpAddr FakeDnsError × FakeDnsTable → Allocation
  unfolding insert
  store generation domain real ttl now (err error, self) = done (err error, self)
  store generation domain real ttl now (ok fake, self) = and_run (expect (plus now ttl)) (λ expires.
      done (
        ok fake,
        record self {
          mappings =
              insert fake
                (record {
                  domain = domain;
                  real_address = real;
                  fake_address = fake;
                  generation = generation;
                  expires_at = expires;
                })
                self.mappings;
          insertion_order = self.insertion_order ++ (fake ∷ []);
        },
      ))

  -- `allocate` where a new mapping is made: room is made for it first.
  unfoldable pub make : FakeDnsTable → ℕ → List ℕ → IpAddr → ℕ → ℕ → Allocation
  unfolding evict next_address store
  make self generation domain real ttl now =
      let kept = evict self.capacity self.insertion_order self.mappings in
      store generation domain real ttl now
        (next_address (record self { insertion_order = kept.0; mappings = kept.1 }) real)

  -- The rest of `allocate`, by what `find` gives.
  unfoldable pub serve :
      FakeDnsTable → ℕ → List ℕ → IpAddr → ℕ → ℕ → Option FakeDnsMapping → Allocation
  unfolding renew make
  serve live generation domain real ttl now (some existing) =
      renew live domain real existing ttl now
  serve live generation domain real ttl now none = make live generation domain real ttl now

  -- `allocate` behind the check of the generation.
  unfoldable pub allocate_domain :
      FakeDnsTable → ℕ → Result (List ℕ) FakeDnsError → IpAddr → ℕ → ℕ → Allocation
  unfolding remove_expired find serve
  allocate_domain self generation (err error) real ttl now = done (err error, self)
  allocate_domain self generation (ok domain) real ttl now =
      let live = remove_expired now self in
      serve live generation domain real ttl now (find domain real live.mappings)

  -- `FakeDnsTable::allocate`
  unfoldable pub allocate : FakeDnsTable → ℕ → List ℕ → IpAddr → ℕ → ℕ → Allocation
  unfolding allocate_domain normalize_domain
  allocate self generation text real ttl now =
      if not (generation == self.generation)
      then done (err generation_mismatch, self)
      else allocate_domain self generation (normalize_domain trim text) real ttl now

-- `FakeDnsTable::resolve`
unfoldable pub resolve :
    FakeDnsTable → ℕ → IpAddr → ℕ → Result (Option FakeDnsMapping) FakeDnsError × FakeDnsTable
unfolding remove_expired get
resolve self generation fake now =
    if not (generation == self.generation)
    then (err generation_mismatch, self)
    else (let live = remove_expired now self in (ok (get fake live.mappings), live))

-- `FakeDnsTable::replace_generation`
unfoldable pub replace_generation : FakeDnsTable → ℕ → FakeDnsTable
replace_generation self generation = record self {
  generation = generation;
  mappings = [];
  insertion_order = [];
}
