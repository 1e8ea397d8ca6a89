-- ===== src/Tun/FakeDns/Maps.antt =====
-- The map and the queue of crates/velum-adapter-tun/src/fake_dns.rs: what the operations on them
-- keep.
use velum.Prelude.{
  ℕ, ◌≡◌, refl, ap, sym, ◌∙◌, ◌≤◌, ◌<◌, Bool, true, false, none, some, List, [], ◌∷◌, ltb,
  Option-cases, Bool-cases, inl, inr, if◌then◌else◌, length, bytes_eq_iff, arith,
}
use velum.Net.{IpAddr, v4, v6, ip_eq, ip_eq_iff, is_ipv4}
use velum.Tun.FakeDns.{
  FakeDnsMapping, first_ipv4, last_ipv4, is_some, get, retain_live, retain_keys, is_for, find,
}

abbrev pub Mappings : Type 0
Mappings = List (IpAddr × FakeDnsMapping)

abbrev pub keys : Mappings → List IpAddr
keys [] = []
keys ((k, v) ∷ m) = k ∷ keys m

-- The IPv4 addresses that the table may give.
abbrev pub IsFake : IpAddr → Type 0
IsFake (v4 a) = (first_ipv4 ≤ a) × (a ≤ last_ipv4)
IsFake (v6 a) = Unit

-- A mapping stands under its fake address, which has the family of the real one.
abbrev pub IsEntry : ℕ → IpAddr × FakeDnsMapping → Type 0
IsEntry generation (k, v) =
    (v.fake_address ≡ k)
    × (v.generation ≡ generation)
    × (is_ipv4 k ≡ is_ipv4 v.real_address)
    × IsFake k

-- No two entries have one key, or one domain and real address, and each is one of the generation.
abbrev pub AreMappings : ℕ → Mappings → Type 0
AreMappings generation [] = Unit
AreMappings generation ((k, v) ∷ m) =
    (get k m ≡ none)
    × (find v.domain v.real_address m ≡ none)
    × IsEntry generation (k, v)
    × AreMappings generation m

pub ip_eq_refl : (a : IpAddr) → ip_eq a a ≡ true
ip_eq_refl a = (ip_eq_iff a a).1 refl

is_for-same :
    (v : FakeDnsMapping) (t : ℕ)
    → is_for v.domain v.real_address (record v { expires_at = t }) ≡ true
is_for-same v t = rw ((bytes_eq_iff v.domain v.domain).1 refl) (ip_eq_refl v.real_address)

-- What is absent stays absent.
pub get-retain_live-none :
    (a : IpAddr) (now : ℕ) (m : Mappings) → get a m ≡ none → get a (retain_live now m) ≡ none
unfolding get retain_live
get-retain_live-none a now [] h = refl
get-retain_live-none a now ((k, v) ∷ m) h = let ih = get-retain_live-none a now m in ground arith

pub find-retain_live-none :
    (d : List ℕ) (r : IpAddr) (now : ℕ) (m : Mappings)
    → find d r m ≡ none
    → find d r (retain_live now m) ≡ none
unfolding find retain_live
find-retain_live-none d r now [] h = refl
find-retain_live-none d r now ((k, v) ∷ m) h =
    let ih = find-retain_live-none d r now m in ground arith

-- A live entry stays.
pub get-retain_live-some :
    (a : IpAddr) (now : ℕ) (v : FakeDnsMapping) (m : Mappings)
    → get a m ≡ some v
    → now < v.expires_at
    → get a (retain_live now m) ≡ some v
unfolding get retain_live
get-retain_live-some a now v [] h l = cc
get-retain_live-some a now v ((k, w) ∷ m) h l =
    let ih = get-retain_live-some a now v m in ground arith

pub retain_live-AreMappings :
    (g now : ℕ) (m : Mappings) → AreMappings g m → AreMappings g (retain_live now m)
unfolding retain_live
retain_live-AreMappings g now [] h = tt
retain_live-AreMappings g now ((k, v) ∷ m) (a, b, e, h) = elim (Bool-cases (ltb now v.expires_at)) [
  | inl live ↦ simp live (
    get-retain_live-none k now m a,
    find-retain_live-none v.domain v.real_address now m b,
    e,
    retain_live-AreMappings g now m h,
  )
  | inr dead ↦ simp dead (retain_live-AreMappings g now m h)
]

pub length-retain_live : (now : ℕ) (m : Mappings) → length (retain_live now m) ≤ length m
unfolding retain_live
length-retain_live now [] = omega arith
length-retain_live now ((k, v) ∷ m) = ground (arith, length-retain_live now m)

pub ip_eq-false : (a b : IpAddr) → ip_eq a b ≡ false → ip_eq b a ≡ false
ip_eq-false a b h = elim (Bool-cases (ip_eq b a)) [
  | inl same ↦ let e = (ip_eq_iff b a).0 same in let f = (ip_eq_iff a b).1 (sym e) in absurd cc
  | inr differ ↦ differ
]

pub get-here : (k : IpAddr) (v : FakeDnsMapping) (m : Mappings) → get k ((k, v) ∷ m) ≡ some v
unfolding get
get-here k v m = simp (ip_eq_refl k) refl

pub get-there :
    (j k : IpAddr) (v : FakeDnsMapping) (m : Mappings)
    → ip_eq j k ≡ false
    → get k ((j, v) ∷ m) ≡ get k m
unfolding get
get-there j k v m h = simp h refl

-- An absent key is not the first one, and is absent behind it.
pub get-none-cons :
    (a k : IpAddr) (v : FakeDnsMapping) (m : Mappings)
    → get a ((k, v) ∷ m) ≡ none
    → (ip_eq k a ≡ false) × (get a m ≡ none)
unfolding get
get-none-cons a k v m h = elim (Bool-cases (ip_eq k a)) [
  | inl same ↦ absurd (ground arith)
  | inr differ ↦ (differ, ground arith)
]

if_true {ℓ} : {A : Type ℓ} (b : Bool) (x y : A) → b ≡ true → (if b then x else y) ≡ x
if_true true x y h = refl
if_true false x y h = absurd cc

if_false {ℓ} : {A : Type ℓ} (b : Bool) (x y : A) → b ≡ false → (if b then x else y) ≡ y
if_false true x y h = absurd cc
if_false false x y h = refl

retain_keys-in :
    (a : IpAddr) (v : FakeDnsMapping) (m : Mappings) (order : List IpAddr)
    → get a m ≡ some v
    → retain_keys m (a ∷ order) ≡ a ∷ retain_keys m order
unfolding retain_keys
retain_keys-in a v m order h = if_true _ _ _ (ap is_some h)

retain_keys-out :
    (a : IpAddr) (m : Mappings) (order : List IpAddr)
    → get a m ≡ none
    → retain_keys m (a ∷ order) ≡ retain_keys m order
unfolding retain_keys
retain_keys-out a m order h = if_false _ _ _ (ap is_some h)

retain_keys-extra :
    (k : IpAddr) (v : FakeDnsMapping) (x m : Mappings)
    → get k m ≡ none
    → retain_keys ((k, v) ∷ x) (keys m) ≡ retain_keys x (keys m)
unfolding retain_keys
retain_keys-extra k v x [] h = refl
retain_keys-extra k v x ((j, w) ∷ m) h =
    let (differ, rest) = get-none-cons k j w m h in
    let there = get-there k j v x (ip_eq-false j k differ) in
    let ih = retain_keys-extra k v x m rest in
    elim (Option-cases (get j x)) [
      | inl out ↦
          retain_keys-out j ((k, v) ∷ x) (keys m) (there ∙ out)
          ∙ ih
          ∙ sym (retain_keys-out j x (keys m) out)
      | inr (u, found) ↦
          retain_keys-in j u ((k, v) ∷ x) (keys m) (there ∙ found)
          ∙ ap (◌∷◌ j) ih
          ∙ sym (retain_keys-in j u x (keys m) found)
    ]

-- The keys that are left are those of the entries that are left, in their order.
pub retain_keys-retain_live :
    (g now : ℕ) (m : Mappings)
    → AreMappings g m
    → retain_keys (retain_live now m) (keys m) ≡ keys (retain_live now m)
unfolding retain_live
retain_keys-retain_live g now [] h = unfold retain_keys in refl
retain_keys-retain_live g now ((k, v) ∷ m) (a, b, e, h) =
    let live_m = retain_live now m in
    let ih = retain_keys-retain_live g now m h in
    elim (Bool-cases (ltb now v.expires_at)) [
      | inl live ↦ simp live (
          retain_keys-in k v ((k, v) ∷ live_m) (keys m) (get-here k v live_m)
          ∙ ap (◌∷◌ k) (retain_keys-extra k v live_m m a ∙ ih))
      | inr dead ↦
          simp dead (retain_keys-out k live_m (keys m) (get-retain_live-none k now m a) ∙ ih)
    ]
