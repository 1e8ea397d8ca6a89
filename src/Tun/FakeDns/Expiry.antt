-- ===== src/Tun/FakeDns/Expiry.antt =====
-- A live mapping that is used again (crates/velum-adapter-tun/src/fake_dns.rs): the assignment to
-- the entry that `find` gives.
use velum.Prelude.{
  ℕ, ◌≡◌, refl, ap, sym, ◌∙◌, true, false, none, some, List, [], ◌∷◌, Bool-cases, inl, inr, length,
  bytes_eq_iff, arith,
}
use mathlib.Core.Path.{subst}
use velum.Net.{IpAddr, ip_eq, ip_eq_iff}
use velum.Tun.FakeDns.{FakeDnsMapping, get, is_for, find, set_expiry}
use velum.Tun.FakeDns.Maps.{Mappings, keys, AreMappings, get-none-cons, get-there, get-here}
use velum.Tun.FakeDns.Changes.{find-none-cons}

module _ (d : List ℕ) (r : IpAddr) (t : ℕ) where
  pub keys-set_expiry : (m : Mappings) → keys (set_expiry d r t m) ≡ keys m
  unfolding set_expiry
  keys-set_expiry [] = refl
  keys-set_expiry ((k, v) ∷ m) = elim (Bool-cases (is_for d r v)) [
    | inl hit ↦ simp hit refl
    | inr miss ↦ simp miss (ap (◌∷◌ k) (keys-set_expiry m))
  ]

  pub length-set_expiry : (m : Mappings) → length (set_expiry d r t m) ≡ length m
  unfolding set_expiry
  length-set_expiry [] = refl
  length-set_expiry ((k, v) ∷ m) = elim (Bool-cases (is_for d r v)) [
    | inl hit ↦ simp hit refl
    | inr miss ↦ simp miss (omega (arith, length-set_expiry m))
  ]

  get-set_expiry-none :
      (a : IpAddr) (m : Mappings) → get a m ≡ none → get a (set_expiry d r t m) ≡ none
  unfolding set_expiry
  get-set_expiry-none a [] h = h
  get-set_expiry-none a ((k, v) ∷ m) h =
      let (differ, rest) = get-none-cons a k v m h in
      elim (Bool-cases (is_for d r v)) [
        | inl hit ↦ simp hit (get-there k a (record v { expires_at = t }) m differ ∙ rest)
        | inr miss ↦ simp miss (get-there k a v _ differ ∙ get-set_expiry-none a m rest)
      ]

  find-set_expiry-none :
      (e : List ℕ) (s : IpAddr) (m : Mappings)
      → find e s m ≡ none
      → find e s (set_expiry d r t m) ≡ none
  unfolding set_expiry find
  find-set_expiry-none e s [] h = h
  find-set_expiry-none e s ((k, v) ∷ m) h =
      let (differ, rest) = find-none-cons e s k v m h in
      elim (Bool-cases (is_for d r v)) [
        | inl hit ↦ simp (hit, differ) rest
        | inr miss ↦ simp (miss, differ) (find-set_expiry-none e s m rest)
      ]

  pub set_expiry-AreMappings :
      (g : ℕ) (m : Mappings) → AreMappings g m → AreMappings g (set_expiry d r t m)
  unfolding set_expiry
  set_expiry-AreMappings g [] h = tt
  set_expiry-AreMappings g ((k, v) ∷ m) (a, b, e, h) = elim (Bool-cases (is_for d r v)) [
    | inl hit ↦ simp hit (a, b, e, h)
    | inr miss ↦ simp miss (
      get-set_expiry-none k m a,
      find-set_expiry-none v.domain v.real_address m b,
      e,
      set_expiry-AreMappings g m h,
    )
  ]

  find-hit :
      (k : IpAddr) (w : FakeDnsMapping) (m : Mappings) (v : FakeDnsMapping)
      → is_for d r w ≡ true
      → find d r ((k, w) ∷ m) ≡ some v
      → w ≡ v
  unfolding find
  find-hit k w m v hit e = let first : find d r ((k, w) ∷ m) ≡ some w = simp hit refl in cc

  if-miss :
      (k : IpAddr) (w v : FakeDnsMapping) (m : Mappings)
      → is_for d r w ≡ false
      → find d r ((k, w) ∷ m) ≡ some v
      → find d r m ≡ some v
  unfolding find
  if-miss k w v m miss e = ground arith

  is_for-eq : (w : FakeDnsMapping) → is_for d r w ≡ true → (w.domain ≡ d) × (w.real_address ≡ r)
  is_for-eq w h =
      ((bytes_eq_iff w.domain d).0 (ground arith), (ip_eq_iff w.real_address r).0 (ground arith))

  other-key :
      (k : IpAddr) (v : FakeDnsMapping) (m : Mappings) {u : FakeDnsMapping}
      → get k m ≡ none
      → get v.fake_address m ≡ some u
      → ip_eq k v.fake_address ≡ false
  other-key k v m h f = elim (Bool-cases (ip_eq k v.fake_address)) [
    | inl same ↦ let e = (ip_eq_iff k v.fake_address).0 same in absurd cc
    | inr differ ↦ differ
  ]

  -- The entry found is the one the assignment changes, under its fake address.
  pub get-set_expiry :
      (g : ℕ) (v : FakeDnsMapping) (m : Mappings)
      → AreMappings g m
      → find d r m ≡ some v
      → get v.fake_address (set_expiry d r t m) ≡ some (record v { expires_at = t })
  unfolding set_expiry find
  get-set_expiry g v [] h e = cc
  get-set_expiry g v ((k, w) ∷ m) h e = elim (Bool-cases (is_for d r w)) [
    | inl hit ↦
        let same = find-hit k w m v hit e in
        simp hit (
          subst
            (λ x.
              get x.fake_address ((k, record w { expires_at = t }) ∷ m)
              ≡ some (record x { expires_at = t }))
            same
            (subst
              (λ a.
                get a ((k, record w { expires_at = t }) ∷ m) ≡ some (record w { expires_at = t }))
              (sym h.2.0) (get-here k (record w { expires_at = t }) m)))
    | inr miss ↦
        let ih = get-set_expiry g v m h.3 (if-miss k w v m miss e) in
        simp miss (
          get-there k v.fake_address w _
            (other-key k v (set_expiry d r t m) (get-set_expiry-none k m h.0) ih)
          ∙ ih)
  ]

  pub find-is_for :
      (v : FakeDnsMapping) (m : Mappings)
      → find d r m ≡ some v
      → (v.domain ≡ d) × (v.real_address ≡ r)
  unfolding find
  find-is_for v [] e = cc
  find-is_for v ((k, w) ∷ m) e = elim (Bool-cases (is_for d r w)) [
    | inl hit ↦
        subst (λ x. (x.domain ≡ d) × (x.real_address ≡ r)) (find-hit k w m v hit e)
          (is_for-eq w hit)
    | inr miss ↦ find-is_for v m (if-miss k w v m miss e)
  ]

  pub find-generation :
      (g : ℕ) (v : FakeDnsMapping) (m : Mappings)
      → AreMappings g m
      → find d r m ≡ some v
      → v.generation ≡ g
  unfolding find
  find-generation g v [] h e = cc
  find-generation g v ((k, w) ∷ m) h e = elim (Bool-cases (is_for d r w)) [
    | inl hit ↦ subst (λ x. x.generation ≡ g) (find-hit k w m v hit e) h.2.1
    | inr miss ↦ find-generation g v m h.3 (if-miss k w v m miss e)
  ]
