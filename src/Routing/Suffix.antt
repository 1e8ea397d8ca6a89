-- ===== src/Routing/Suffix.antt =====
-- Which names a `DOMAIN-SUFFIX` rule of crates/velum-client-routing/src/lib.rs takes.
use velum.Prelude.{
  ℕ, ◌≡◌, refl, ap, sym, ◌∙◌, ◌↔◌, ◌⊎◌, inl, inr, true, false, Option, none, some, List, [], ◌∷◌,
  ◌++◌, Bool-cases, Option-cases, bytes_eq, bytes_eq_iff, append_assoc, arith, ==_iff, length,
  length-append,
}
use mathlib.Core.Path.{subst}
use velum.Routing.{RouteContext, domain_suffix, matches, strip_suffix, ends_with, front_has_dot}

-- One step of `strip_suffix`.
strip-here :
    (c : ℕ) (cs suffix : List ℕ)
    → bytes_eq (c ∷ cs) suffix ≡ true
    → strip_suffix (c ∷ cs) suffix ≡ some []
unfolding strip_suffix
strip-here c cs suffix h = simp h refl

strip-later :
    (c : ℕ) (cs suffix : List ℕ) (o : Option (List ℕ))
    → bytes_eq (c ∷ cs) suffix ≡ false
    → strip_suffix cs suffix ≡ o
    → strip_suffix (c ∷ cs) suffix ≡ elim o [ none ↦ none | some front ↦ some (c ∷ front) ]
unfolding strip_suffix
strip-later c cs suffix o h e = simp (h, e) refl

-- The prefix that `strip_suffix` gives, if it gives one.
strip_suffix-eq-some :
    (text suffix front : List ℕ) → strip_suffix text suffix ≡ some front → text ≡ front ++ suffix
unfolding strip_suffix
strip_suffix-eq-some [] [] front e = let same : [] ≡ front = cc in ap (λ f. f ++ []) same
strip_suffix-eq-some [] (s ∷ suffix) front e = cc
strip_suffix-eq-some (c ∷ cs) suffix front e = elim (Bool-cases (bytes_eq (c ∷ cs) suffix)) [
  | inl same ↦
      let nothing : [] ≡ front = let f = strip-here c cs suffix same in cc in
      subst (λ f. c ∷ cs ≡ f ++ suffix) nothing ((bytes_eq_iff (c ∷ cs) suffix).0 same)
  | inr differ ↦ elim (Option-cases (strip_suffix cs suffix)) [
    | inl missing ↦ let f = strip-later c cs suffix none differ missing in absurd cc
    | inr (rest, found) ↦
        let longer : c ∷ rest ≡ front =
          let f = strip-later c cs suffix (some rest) differ found in cc in
        subst (λ f. c ∷ cs ≡ f ++ suffix) longer
          (ap (◌∷◌ c) (strip_suffix-eq-some cs suffix rest found))
  ]
]

longer_differs : (c : ℕ) (front suffix : List ℕ) → bytes_eq (c ∷ (front ++ suffix)) suffix ≡ false
longer_differs c front suffix = elim (Bool-cases (bytes_eq (c ∷ (front ++ suffix)) suffix)) [
  | inl same ↦
      let e = ap length ((bytes_eq_iff (c ∷ (front ++ suffix)) suffix).0 same) in
      absurd (omega (arith, e, length-append front suffix))
  | inr differ ↦ differ
]

strip_suffix-append : (front suffix : List ℕ) → strip_suffix (front ++ suffix) suffix ≡ some front
unfolding strip_suffix
strip_suffix-append [] [] = refl
strip_suffix-append [] (s ∷ suffix) =
    strip-here s suffix (s ∷ suffix) ((bytes_eq_iff (s ∷ suffix) (s ∷ suffix)).1 refl)
strip_suffix-append (c ∷ front) suffix =
    strip-later c (front ++ suffix) suffix (some front) (longer_differs c front suffix)
      (strip_suffix-append front suffix)

pub ends_with-split :
    (byte : ℕ) (text : List ℕ)
    → ends_with byte text ≡ true
    → (front : List ℕ) × (text ≡ front ++ (byte ∷ []))
ends_with-split byte [] h = cc
ends_with-split byte (c ∷ []) h = ([], ap (λ x. x ∷ []) ((==_iff c byte).0 h))
ends_with-split byte (c ∷ (d ∷ ds)) h =
    let (front, e) = ends_with-split byte (d ∷ ds) h in (c ∷ front, ap (◌∷◌ c) e)

pub ends_with-append : (byte : ℕ) (front : List ℕ) → ends_with byte (front ++ (byte ∷ [])) ≡ true
ends_with-append byte [] = (==_iff byte byte).1 refl
ends_with-append byte (c ∷ []) = (==_iff byte byte).1 refl
ends_with-append byte (c ∷ (d ∷ ds)) = ends_with-append byte (d ∷ ds)

-- The front of a text, with its dot.
front_iff :
    (actual suffix : List ℕ)
    → (front_has_dot (strip_suffix actual suffix) ≡ true)
      ↔ ((front : List ℕ) × (actual ≡ front ++ (46 ∷ suffix)))
front_iff actual suffix = (
  λ h. elim (Option-cases (strip_suffix actual suffix)) [
    | inl missing ↦ let f = ap front_has_dot missing in absurd cc
    | inr (front, found) ↦
        let (labels, e) = ends_with-split 46 front (sym (ap front_has_dot found) ∙ h) in
        (
          labels,
          strip_suffix-eq-some actual suffix front found
              ∙ ap (λ f. f ++ suffix) e
              ∙ append_assoc labels (46 ∷ []) suffix,
        )
  ],
  λ (labels, e).
      ap (λ a. front_has_dot (strip_suffix a suffix))
        (e ∙ sym (append_assoc labels (46 ∷ []) suffix))
      ∙ ap front_has_dot (strip_suffix-append (labels ++ (46 ∷ [])) suffix)
      ∙ ends_with-append 46 labels,
)

-- A `DOMAIN-SUFFIX` rule matches a name exactly when the name is the suffix, or ends in a dot and
-- the suffix: never inside a label.
pub matches-domain_suffix :
    (suffix actual : List ℕ) (context : RouteContext)
    → (matches (domain_suffix suffix) context (some actual) ≡ true)
      ↔ ((actual ≡ suffix) ⊎ ((labels : List ℕ) × (actual ≡ labels ++ (46 ∷ suffix))))
unfolding matches
matches-domain_suffix suffix actual context = (
  λ h. elim (Bool-cases (bytes_eq actual suffix)) [
    | inl same ↦ inl ((bytes_eq_iff actual suffix).0 same)
    | inr differ ↦ inr ((front_iff actual suffix).0 (ground arith))
  ],
  λ h. elim h [
    | inl same ↦ let t = (bytes_eq_iff actual suffix).1 same in ground arith
    | inr parts ↦ let t = (front_iff actual suffix).1 parts in ground arith
  ],
)
