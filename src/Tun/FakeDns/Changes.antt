-- ===== src/Tun/FakeDns/Changes.antt =====
-- The map of crates/velum-adapter-tun/src/fake_dns.rs when entries go and come: the eviction of the
-- oldest, and the insertion of a new one.
use velum.Prelude.{
  ℕ, ◌≡◌, refl, ap, sym, ◌∙◌, ◌<◌, false, none, some, List, [], ◌∷◌, ◌++◌, Bool-cases, inl, inr,
  length, bytes_eq, bytes_eq_iff, arith, leb,
}
use mathlib.Core.Path.{subst}
use velum.Net.{IpAddr, ip_eq, ip_eq_iff}
use velum.Tun.FakeDns.{FakeDnsMapping, get, remove, insert, is_for, find, evict}
use velum.Tun.FakeDns.Maps.{
  Mappings, keys, IsEntry, AreMappings, ip_eq_refl, ip_eq-false, get-here, get-there, get-none-cons,
}

remove-here : (k : IpAddr) (v : FakeDnsMapping) (m : Mappings) → remove k ((k, v) ∷ m) ≡ m
unfolding remove
remove-here k v m = simp (ip_eq_refl k) refl

pub insert-eq :
    (k : IpAddr) (v : FakeDnsMapping) (m : Mappings)
    → get k m ≡ none
    → insert k v m ≡ m ++ ((k, v) ∷ [])
unfolding insert
insert-eq k v [] h = refl
insert-eq k v ((j, w) ∷ m) h =
    let (differ, rest) = get-none-cons k j w m h in
    simp differ (ap (◌∷◌ (j, w)) (insert-eq k v m rest))

pub get-insert : (k : IpAddr) (v : FakeDnsMapping) (m : Mappings) → get k (insert k v m) ≡ some v
unfolding insert
get-insert k v [] = get-here k v []
get-insert k v ((j, w) ∷ m) = elim (Bool-cases (ip_eq j k)) [
  | inl same ↦
      simp same
        (subst (λ i. get k ((i, v) ∷ m) ≡ some v) (sym ((ip_eq_iff j k).0 same)) (get-here k v m))
  | inr differ ↦ simp differ (get-there j k w (insert k v m) differ ∙ get-insert k v m)
]

pub keys-append : (m n : Mappings) → keys (m ++ n) ≡ keys m ++ keys n
keys-append [] n = refl
keys-append ((k, v) ∷ m) n = ap (◌∷◌ k) (keys-append m n)

get-append-none :
    (a : IpAddr) (m n : Mappings) → get a m ≡ none → get a n ≡ none → get a (m ++ n) ≡ none
unfolding get
get-append-none a [] n h k = k
get-append-none a ((j, w) ∷ m) n h k =
    let (differ, rest) = get-none-cons a j w m h in simp differ (get-append-none a m n rest k)

pub find-none-cons :
    (d : List ℕ) (r k : IpAddr) (v : FakeDnsMapping) (m : Mappings)
    → find d r ((k, v) ∷ m) ≡ none
    → (is_for d r v ≡ false) × (find d r m ≡ none)
unfolding find
find-none-cons d r k v m h = elim (Bool-cases (is_for d r v)) [
  | inl same ↦ absurd (ground arith)
  | inr differ ↦ (differ, ground arith)
]

-- Making room drops the oldest entries until there is some.
pub evict-eq :
    (g capacity : ℕ) (m : Mappings)
    → AreMappings g m
    → 0 < capacity
    → (kept : Mappings) × (evict capacity (keys m) m ≡ (keys kept, kept))
      × AreMappings g kept
      × (length kept < capacity)
      × ((d : List ℕ) (r : IpAddr) → find d r m ≡ none → find d r kept ≡ none)
unfolding evict
evict-eq g capacity [] h c = ([], refl, tt, c, λ d r e. e)
evict-eq g capacity ((k, v) ∷ m) (a, b, e, h) c =
    elim (Bool-cases (leb capacity (length ((k, v) ∷ m)))) [
      | inl full ↦
          let (kept, same, fine, room, absent) = evict-eq g capacity m h c in
          (
            kept,
            simp full (rw (remove-here k v m) same),
            fine,
            room,
            λ d r none_there. absent d r (find-none-cons d r k v m none_there).1,
          )
      | inr room ↦
          ((k, v) ∷ m, simp room refl, (a, b, e, h), ground arith, λ d r none_there. none_there)
    ]

find-append-none :
    (d : List ℕ) (r : IpAddr) (m n : Mappings)
    → find d r m ≡ none
    → find d r n ≡ none
    → find d r (m ++ n) ≡ none
unfolding find
find-append-none d r [] n h k = k
find-append-none d r ((j, w) ∷ m) n h k =
    let (differ, rest) = find-none-cons d r j w m h in simp differ (find-append-none d r m n rest k)

bytes_eq-false : (xs ys : List ℕ) → bytes_eq xs ys ≡ false → bytes_eq ys xs ≡ false
bytes_eq-false xs ys h = elim (Bool-cases (bytes_eq ys xs)) [
  | inl same ↦ let f = (bytes_eq_iff xs ys).1 (sym ((bytes_eq_iff ys xs).0 same)) in absurd cc
  | inr differ ↦ differ
]

is_for_symm :
    (v w : FakeDnsMapping)
    → is_for v.domain v.real_address w ≡ false
    → is_for w.domain w.real_address v ≡ false
is_for_symm v w h =
    let d = bytes_eq-false w.domain v.domain in
    let r = ip_eq-false w.real_address v.real_address in ground arith

-- A new entry at the end, under a key and for a request that are not there yet.
pub append-AreMappings :
    (g : ℕ) (k : IpAddr) (v : FakeDnsMapping) (m : Mappings)
    → AreMappings g m
    → get k m ≡ none
    → find v.domain v.real_address m ≡ none
    → IsEntry g (k, v)
    → AreMappings g (m ++ ((k, v) ∷ []))
append-AreMappings g k v [] h a b e = (unfold get in refl, unfold find in refl, e, tt)
append-AreMappings g k v ((j, w) ∷ m) (p, q, f, h) a b e =
    let (differ, a') = get-none-cons k j w m a in
    let (other, b') = find-none-cons v.domain v.real_address j w m b in
    (
      get-append-none j m ((k, v) ∷ []) p
          (get-there k j v [] (ip_eq-false j k differ) ∙ unfold get in refl),
      find-append-none w.domain w.real_address m ((k, v) ∷ []) q
          (unfold find in simp (is_for_symm v w other) refl),
      f,
      append-AreMappings g k v m h a' b' e,
    )
