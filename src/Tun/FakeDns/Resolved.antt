-- ===== src/Tun/FakeDns/Resolved.antt =====
-- What `resolve` gives of an address that `allocate` gave
-- (crates/velum-adapter-tun/src/fake_dns.rs).
use velum.Prelude.{
  ℕ, ◌≡◌, refl, ap, sym, ◌∙◌, ◌<◌, Option, none, some, List, Result, ok, err, true, Bool-cases, inl,
  inr, ◌==◌, ==_iff, done, panic, ◌+◌,
}
use mathlib.Core.Path.{subst}
use velum.Net.{IpAddr}
use velum.Tun.FakeDns.{
  FakeDnsMapping, FakeDnsTable, FakeDnsError, get, find, evict, remove_expired, Allocation, renew,
  store, make, serve, allocate_domain, allocate, resolve, normalize_domain, next_address,
}
use velum.Tun.FakeDns.Maps.{get-retain_live-some}
use velum.Tun.FakeDns.Changes.{get-insert}
use velum.Tun.FakeDns.Expiry.{find-is_for, find-generation, get-set_expiry}
use velum.Tun.FakeDns.Search.{search-IsSearched}
use velum.Tun.FakeDns.Valid.{IsValid, remove_expired-IsValid}

-- The mapping that a request has from `t` on backwards.
abbrev pub mapped : List ℕ → IpAddr → IpAddr → ℕ → ℕ → FakeDnsMapping
mapped d real fake g t = record {
  domain = d;
  real_address = real;
  fake_address = fake;
  generation = g;
  expires_at = t;
}

-- An allocation that gives an address leaves the mapping under it.
abbrev Holds : List ℕ → IpAddr → ℕ → ℕ → Allocation → Type 0
Holds d real g t (done (ok fake, next)) =
    (next.generation ≡ g) × (get fake next.mappings ≡ some (mapped d real fake g t))
Holds d real g t (done (err error, next)) = Unit
Holds d real g t panic = Unit

module _ (trim : List ℕ → List ℕ) (plus : ℕ → ℕ → Option ℕ) (ttl now t : ℕ)
    (deadline : plus now ttl ≡ some t) where
  store-Holds :
      (g : ℕ) (d : List ℕ) (real : IpAddr) (out : Result IpAddr FakeDnsError × FakeDnsTable)
      → out.1.generation ≡ g
      → Holds d real g t (store trim plus g d real ttl now out)
  unfolding store
  store-Holds g d real (err error, self) e = tt
  store-Holds g d real (ok fake, self) e =
      simp deadline (e, get-insert fake (mapped d real fake g t) self.mappings)

  make-Holds :
      (self : FakeDnsTable) (d : List ℕ) (real : IpAddr)
      → IsValid self
      → Holds d real self.generation t (make trim plus self self.generation d real ttl now)
  unfolding make next_address
  make-Holds self d real v =
      let kept = evict self.capacity self.insertion_order self.mappings in
      let table : FakeDnsTable = record self { insertion_order = kept.0; mappings = kept.1 } in
      store-Holds self.generation d real (next_address table real)
        (search-IsSearched (self.capacity + 1) table real v.4).0.3

  renew-Holds :
      (self : FakeDnsTable) (d : List ℕ) (real : IpAddr) (existing : FakeDnsMapping)
      → IsValid self
      → find d real self.mappings ≡ some existing
      → Holds d real self.generation t (renew trim plus self d real existing ttl now)
  unfolding renew
  renew-Holds self d real existing v found =
      let (domain_eq, real_eq) = find-is_for d real t existing self.mappings found in
      let generation_eq =
        find-generation d real t self.generation existing self.mappings v.1 found in
      let changed = get-set_expiry d real t self.generation existing self.mappings v.1 found in
      simp deadline (
        refl,
        changed
            ∙ ap
                (λ x.
                  some (mapped x existing.real_address existing.fake_address existing.generation t))
                domain_eq
            ∙ ap (λ x. some (mapped d x existing.fake_address existing.generation t)) real_eq
            ∙ ap (λ x. some (mapped d real existing.fake_address x t)) generation_eq,
      )

  serve-Holds :
      (live : FakeDnsTable) (d : List ℕ) (real : IpAddr) (found : Option FakeDnsMapping)
      → find d real live.mappings ≡ found
      → IsValid live
      → Holds d real live.generation t (serve trim plus live live.generation d real ttl now found)
  unfolding serve
  serve-Holds live d real none absent v = make-Holds live d real v
  serve-Holds live d real (some existing) found v = renew-Holds live d real existing v found

  allocate-Holds :
      (self : FakeDnsTable) (g : ℕ) (text d : List ℕ) (real : IpAddr)
      → IsValid self
      → normalize_domain trim text ≡ ok d
      → Holds d real g t (allocate trim plus self g text real ttl now)
  unfolding allocate allocate_domain remove_expired
  allocate-Holds self g text d real v named = elim (Bool-cases (g == self.generation)) [
    | inl same ↦
        let live = remove_expired now self in
        simp (same, named)
          (subst
            (λ x.
              Holds d real x t (serve trim plus live x d real ttl now (find d real live.mappings)))
            (sym ((==_iff g self.generation).0 same))
            (serve-Holds live d real (find d real live.mappings) refl
              (remove_expired-IsValid now self v)))
    | inr differ ↦ simp differ tt
  ]

resolve-held :
    (self : FakeDnsTable) (g later : ℕ) (fake : IpAddr) (v : FakeDnsMapping)
    → (self.generation ≡ g) × (get fake self.mappings ≡ some v)
    → later < v.expires_at
    → (resolve self g fake later).0 ≡ ok (some v)
unfolding resolve remove_expired
resolve-held self g later fake v (e, held) early =
    let same : (g == self.generation) ≡ true = (==_iff g self.generation).1 (sym e) in
    simp same (ap ok (get-retain_live-some fake later v self.mappings held early))

-- When `allocate` on a valid table gives a fake address, `resolve` of that address at any time
-- before `now + ttl` gives the mapping with the normalised domain, the real address, the
-- generation and that expiry, whether the mapping was new or renewed.
pub resolve-allocate :
    (trim : List ℕ → List ℕ) (plus : ℕ → ℕ → Option ℕ) (self next : FakeDnsTable)
    (g ttl now t later : ℕ) (text d : List ℕ) (real fake : IpAddr)
    → IsValid self
    → plus now ttl ≡ some t
    → normalize_domain trim text ≡ ok d
    → allocate trim plus self g text real ttl now ≡ done (ok fake, next)
    → later < t
    → (resolve next g fake later).0 ≡ ok (some (mapped d real fake g t))
resolve-allocate trim plus self next g ttl now t later text d real fake v deadline named given
      early =
    resolve-held next g later fake (mapped d real fake g t)
      (subst (Holds d real g t) given
        (allocate-Holds trim plus ttl now t deadline self g text d real v named))
      early
