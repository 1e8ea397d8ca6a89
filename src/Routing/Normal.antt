-- ===== src/Routing/Normal.antt =====
-- What `normalize_domain` of crates/velum-client-routing/src/lib.rs makes of a text.
use velum.Prelude.{
  ℕ, ◌+◌, ◌≡◌, ◌≢◌, refl, ap, sym, ◌∙◌, ◌≤◌, ◌<◌, ◌↔◌, ◌⊎◌, inl, inr, Bool, true, false, List, [],
  ◌∷◌, ◌++◌, ok, err, ◌==◌, ==_iff, All, Bool-cases, arith, if◌then◌else◌,
}
use mathlib.Core.Path.{subst}
use velum.Net.{lower, to_ascii_lowercase, keep_front, trim_end_dots}
use velum.Routing.{normalize_domain, domain_invalid, ends_with}
use velum.Routing.Suffix.{ends_with-split, ends_with-append}
use velum.Routing.Names.{IsName, IsLowered, refused, refused-IsName, IsName-refused}

-- A byte and its ASCII small letter.
abbrev Lowers : ℕ → ℕ → Type 0
Lowers c d = ((65 ≤ c) × (c ≤ 90) × (d ≡ c + 32)) ⊎ (((c < 65) ⊎ (90 < c)) × (d ≡ c))

-- A text and the same text in small letters.
abbrev pub LowersTo : List ℕ → List ℕ → Type 0
LowersTo [] [] = Unit
LowersTo [] (d ∷ ds) = ⊥
LowersTo (c ∷ cs) [] = ⊥
LowersTo (c ∷ cs) (d ∷ ds) = Lowers c d × LowersTo cs ds

-- The name that a text stands for: without the white space around it, without the dots at its end,
-- in small letters, and a name.
abbrev pub IsNormal : (List ℕ → List ℕ) → List ℕ → List ℕ → Type 0
IsNormal trim text name =
    (stem dots : List ℕ) × (trim text ≡ stem ++ dots)
    × All (λ c. c ≡ 46) dots
    × ((front : List ℕ) → stem ≢ front ++ (46 ∷ []))
    × LowersTo stem name
    × IsName name

to_ascii_lowercase-LowersTo : (text : List ℕ) → LowersTo text (to_ascii_lowercase text)
unfolding to_ascii_lowercase
to_ascii_lowercase-LowersTo [] = tt
to_ascii_lowercase-LowersTo (c ∷ cs) =
    let here : Lowers c (lower c) = ground arith in (here, to_ascii_lowercase-LowersTo cs)

LowersTo-to_ascii_lowercase :
    (text name : List ℕ) → LowersTo text name → to_ascii_lowercase text ≡ name
unfolding to_ascii_lowercase
LowersTo-to_ascii_lowercase [] [] h = refl
LowersTo-to_ascii_lowercase [] (d ∷ ds) h = absurd h
LowersTo-to_ascii_lowercase (c ∷ cs) [] h = absurd h
LowersTo-to_ascii_lowercase (c ∷ cs) (d ∷ ds) h =
    let here : lower c ≡ d = let l = h.0 in ground arith in
    let rest = LowersTo-to_ascii_lowercase cs ds h.1 in rw (here, rest) refl

to_ascii_lowercase-IsLowered : (text : List ℕ) → All IsLowered (to_ascii_lowercase text)
unfolding to_ascii_lowercase
to_ascii_lowercase-IsLowered [] = tt
to_ascii_lowercase-IsLowered (c ∷ cs) =
    let here : IsLowered (lower c) = ground arith in (here, to_ascii_lowercase-IsLowered cs)

-- The dots that `trim_end_dots` takes away.
trim_end_dots-split :
    (text : List ℕ)
    → (dots : List ℕ) × (text ≡ trim_end_dots text ++ dots)
      × All (λ c. c ≡ 46) dots
      × (ends_with 46 (trim_end_dots text) ≡ false)
unfolding trim_end_dots
trim_end_dots-split [] = ([], refl, tt, refl)
trim_end_dots-split (c ∷ cs) =
    let (dots, parts, all, end) = trim_end_dots-split cs in
    front c cs (trim_end_dots cs) dots parts all end
  where
    front :
        (c : ℕ) (cs kept dots : List ℕ)
        → cs ≡ kept ++ dots
        → All (λ c. c ≡ 46) dots
        → ends_with 46 kept ≡ false
        → (dots : List ℕ) × (c ∷ cs ≡ keep_front c kept ++ dots)
          × All (λ c. c ≡ 46) dots
          × (ends_with 46 (keep_front c kept) ≡ false)
    front c cs [] dots parts all end = elim (Bool-cases (c == 46)) [
      | inl dot ↦ simp dot (c ∷ dots, ap (◌∷◌ c) parts, ((==_iff c 46).0 dot, all), refl)
      | inr other ↦ simp other (dots, ap (◌∷◌ c) parts, all, refl)
    ]
    front c cs (d ∷ ds) dots parts all end = (dots, ap (◌∷◌ c) parts, all, end)

trim_end_dots-dots : (dots : List ℕ) → All (λ c. c ≡ 46) dots → trim_end_dots dots ≡ []
unfolding trim_end_dots
trim_end_dots-dots [] h = refl
trim_end_dots-dots (c ∷ cs) h =
    ap (keep_front c) (trim_end_dots-dots cs h.1) ∙ simp ((==_iff c 46).1 h.0) refl

trim_end_dots-append :
    (stem dots : List ℕ)
    → All (λ c. c ≡ 46) dots
    → ends_with 46 stem ≡ false
    → trim_end_dots (stem ++ dots) ≡ stem
unfolding trim_end_dots
trim_end_dots-append [] dots h end = trim_end_dots-dots dots h
trim_end_dots-append (c ∷ []) dots h end =
    ap (keep_front c) (trim_end_dots-dots dots h) ∙ simp end refl
trim_end_dots-append (c ∷ (d ∷ ds)) dots h end =
    ap (keep_front c) (trim_end_dots-append (d ∷ ds) dots h end)

checked :
    (b : Bool) (value name : List ℕ)
    → (if b then err domain_invalid else ok value) ≡ ok name
    → (b ≡ false) × (value ≡ name)
checked true value name e = cc
checked false value name e = (refl, cc)

-- `normalize_domain` gives exactly the name that the text stands for.
pub normalize_domain_iff :
    (trim : List ℕ → List ℕ) (text name : List ℕ)
    → (normalize_domain trim text ≡ ok name) ↔ IsNormal trim text name
unfolding normalize_domain
normalize_domain_iff trim text name = (
  λ e.
      let value = to_ascii_lowercase (trim_end_dots (trim text)) in
      let (fine, same) = checked (refused value) value name e in
      let (dots, parts, all, end) = trim_end_dots-split (trim text) in
      (
        trim_end_dots (trim text),
        dots,
        parts,
        all,
        λ front e. let f = sym end ∙ ap (ends_with 46) e ∙ ends_with-append 46 front in cc,
        subst (LowersTo (trim_end_dots (trim text))) same
            (to_ascii_lowercase-LowersTo (trim_end_dots (trim text))),
        subst IsName same
            (refused-IsName value (to_ascii_lowercase-IsLowered (trim_end_dots (trim text))) fine),
      ),
  λ (stem, dots, parts, all, end, lowers, named).
      let open_end : ends_with 46 stem ≡ false = elim (Bool-cases (ends_with 46 stem)) [
        | inl dot ↦ let (front, e) = ends_with-split 46 stem dot in absurd (end front e)
        | inr other ↦ other
      ] in
      let value : to_ascii_lowercase (trim_end_dots (trim text)) ≡ name =
        ap (λ t. to_ascii_lowercase (trim_end_dots t)) parts
        ∙ ap to_ascii_lowercase (trim_end_dots-append stem dots all open_end)
        ∙ LowersTo-to_ascii_lowercase stem name lowers in
      ap (λ v. if refused v then err domain_invalid else ok v) value
      ∙ ap (λ b. if b then err domain_invalid else ok name) (IsName-refused name named),
)
