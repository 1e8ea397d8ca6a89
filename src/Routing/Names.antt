-- ===== src/Routing/Names.antt =====
-- Domain names that `normalize_domain` of crates/velum-client-routing/src/lib.rs accepts, without
-- its checks: labels that dots join, and the ASCII case.
use velum.Prelude.{
  ℕ, ◌≡◌, ◌≢◌, refl, ap, sym, ◌∙◌, ◌≤◌, ◌<◌, ◌⊎◌, inl, inr, Bool, true, false, ◌||◌, not, List, [],
  ◌∷◌, ◌++◌, ltb, ◌==◌, ==_iff, is_empty, length, All, Bool-cases, arith,
}
use velum.Routing.{split, any_bad, is_bad_label, is_label_byte, all_bytes, starts_with, ends_with}
use velum.Routing.Suffix.{ends_with-split, ends_with-append}

-- A digit, a small letter or a hyphen.
abbrev pub IsLabelByte : ℕ → Type 0
IsLabelByte c = ((48 ≤ c) × (c ≤ 57)) ⊎ ((97 ≤ c) × (c ≤ 122)) ⊎ (c ≡ 45)

-- A label of 1 to 63 bytes without a hyphen at an end.
pub record IsLabel (label : List ℕ) : Type 0 where
  pub bytes : All IsLabelByte label
  pub not_empty : label ≢ []
  pub short : length label ≤ 63
  pub first : (rest : List ℕ) → label ≢ 45 ∷ rest
  pub last : (front : List ℕ) → label ≢ front ++ (45 ∷ [])

-- Labels, with a dot between each two.
unfoldable pub dotted : List ℕ → List (List ℕ) → List ℕ
dotted label [] = label
dotted label (next ∷ labels) = label ++ (46 ∷ dotted next labels)

-- A name of at most 253 bytes that is labels joined by dots.
abbrev pub IsName : List ℕ → Type 0
IsName name =
    (length name ≤ 253)
    × (first : List ℕ) × (others : List (List ℕ)) × (name ≡ dotted first others)
    × All IsLabel (first ∷ others)

-- No capital ASCII letter.
abbrev pub IsLowered : ℕ → Type 0
IsLowered c = (c < 65) ⊎ (90 < c)

all_bytes-IsLabelByte :
    (label : List ℕ)
    → All IsLowered label
    → all_bytes is_label_byte label ≡ true
    → All IsLabelByte label
all_bytes-IsLabelByte [] low h = tt
all_bytes-IsLabelByte (c ∷ cs) low h =
    let here : IsLabelByte c = let l = low.0 in ground arith in
    (here, all_bytes-IsLabelByte cs low.1 (ground arith))

IsLabelByte-all_bytes :
    (label : List ℕ) → All IsLabelByte label → all_bytes is_label_byte label ≡ true
IsLabelByte-all_bytes [] h = refl
IsLabelByte-all_bytes (c ∷ cs) h =
    let here : is_label_byte c ≡ true = let l = h.0 in ground arith in
    let rest = IsLabelByte-all_bytes cs h.1 in simp (here, rest) refl

false_of {ℓ} : {P : Type ℓ} (b : Bool) → (b ≡ true → P) → (P → ⊥) → b ≡ false
false_of true h k = absurd (k (h refl))
false_of false h k = refl

starts_with-split :
    (byte : ℕ) (text : List ℕ)
    → starts_with byte text ≡ true
    → (rest : List ℕ) × (text ≡ byte ∷ rest)
starts_with-split byte [] h = cc
starts_with-split byte (c ∷ cs) h = (cs, ap (λ x. x ∷ cs) ((==_iff c byte).0 h))

-- The checks of a label, one by one.
checks_of :
    (a b c d e : Bool)
    → (a || b || c || d || not e) ≡ false
    → (a ≡ false) × (b ≡ false) × (c ≡ false) × (d ≡ false) × (e ≡ true)
checks_of a b c d e h = (ground arith, ground arith, ground arith, ground arith, ground arith)

is_bad_label-IsLabel :
    (label : List ℕ) → All IsLowered label → is_bad_label label ≡ false → IsLabel label
is_bad_label-IsLabel label low h =
    let (full, short, first, last, bytes) = checks_of _ _ _ _ _ h in
    record {
      bytes = all_bytes-IsLabelByte label low bytes;
      not_empty = λ e. let f = sym (ap is_empty e) ∙ full in cc;
      short = ground arith;
      first = λ rest e. let f = sym first ∙ ap (starts_with 45) e ∙ (==_iff 45 45).1 refl in cc;
      last = λ front e. let f = sym last ∙ ap (ends_with 45) e ∙ ends_with-append 45 front in cc;
    }

IsLabel-is_bad_label : (label : List ℕ) → IsLabel label → is_bad_label label ≡ false
IsLabel-is_bad_label label h =
    let full : is_empty label ≡ false = not_empty_lem label h.not_empty in
    let short : ltb 63 (length label) ≡ false = let s = h.short in ground arith in
    let first =
      false_of (starts_with 45 label) (starts_with-split 45 label) (λ (r, e). h.first r e) in
    let last = false_of (ends_with 45 label) (ends_with-split 45 label) (λ (f, e). h.last f e) in
    let bytes = IsLabelByte-all_bytes label h.bytes in simp (full, short, first, last, bytes) refl
  where
    not_empty_lem : (label : List ℕ) → label ≢ [] → is_empty label ≡ false
    not_empty_lem [] e = absurd (e refl)
    not_empty_lem (c ∷ cs) e = refl

any_bad-All :
    (labels : List (List ℕ))
    → All (All IsLowered) labels
    → any_bad labels ≡ false
    → All IsLabel labels
any_bad-All [] low h = tt
any_bad-All (label ∷ labels) low h =
    (is_bad_label-IsLabel label low.0 (ground arith), any_bad-All labels low.1 (ground arith))

All-any_bad : (labels : List (List ℕ)) → All IsLabel labels → any_bad labels ≡ false
All-any_bad [] h = refl
All-any_bad (label ∷ labels) h = simp (IsLabel-is_bad_label label h.0, All-any_bad labels h.1) refl

dotted-cons :
    (c : ℕ) (label : List ℕ) (labels : List (List ℕ))
    → c ∷ dotted label labels ≡ dotted (c ∷ label) labels
unfolding dotted
dotted-cons c label [] = refl
dotted-cons c label (next ∷ labels) = refl

-- What `split` gives joins to the text again.
dotted-split : (text : List ℕ) → text ≡ dotted (split 46 text).0 (split 46 text).1
unfolding dotted split
dotted-split [] = refl
dotted-split (c ∷ cs) = elim (Bool-cases (c == 46)) [
  | inl dot ↦ simp dot (ap (λ x. x ∷ cs) ((==_iff c 46).0 dot) ∙ ap (◌∷◌ 46) (dotted-split cs))
  | inr other ↦
      simp other (ap (◌∷◌ c) (dotted-split cs) ∙ dotted-cons c (split 46 cs).0 (split 46 cs).1)
]

split-IsLowered :
    (text : List ℕ)
    → All IsLowered text
    → All (All IsLowered) ((split 46 text).0 ∷ (split 46 text).1)
unfolding split
split-IsLowered [] low = (tt, tt)
split-IsLowered (c ∷ cs) low =
    let rest = split-IsLowered cs low.1 in
    elim (Bool-cases (c == 46)) [
      | inl dot ↦ simp dot (tt, rest)
      | inr other ↦ simp other ((low.0, rest.0), rest.1)
    ]

-- Labels without dots are found again.
split-plain : (label : List ℕ) → All IsLabelByte label → split 46 label ≡ (label, [])
unfolding split
split-plain [] h = refl
split-plain (c ∷ cs) h =
    let other : (c == 46) ≡ false = let l = h.0 in ground arith in
    let rest = split-plain cs h.1 in simp other (ap (λ r. (c ∷ r.0, r.1)) rest)

split-label :
    (label text : List ℕ)
    → All IsLabelByte label
    → split 46 (label ++ (46 ∷ text)) ≡ (label, (split 46 text).0 ∷ (split 46 text).1)
unfolding split
split-label [] text h = refl
split-label (c ∷ cs) text h =
    let other : (c == 46) ≡ false = let l = h.0 in ground arith in
    let rest = split-label cs text h.1 in simp other (ap (λ r. (c ∷ r.0, r.1)) rest)

split-dotted :
    (first : List ℕ) (others : List (List ℕ))
    → All IsLabel (first ∷ others)
    → split 46 (dotted first others) ≡ (first, others)
unfolding dotted
split-dotted first [] h = split-plain first h.0.bytes
split-dotted first (next ∷ labels) h =
    split-label first (dotted next labels) h.0.bytes
    ∙ ap (λ r. (first, r.0 ∷ r.1)) (split-dotted next labels h.1)

-- The checks of `normalize_domain` on a text.
abbrev pub refused : List ℕ → Bool
refused text =
    is_empty text || ltb 253 (length text) || any_bad ((split 46 text).0 ∷ (split 46 text).1)

pub refused-IsName : (text : List ℕ) → All IsLowered text → refused text ≡ false → IsName text
refused-IsName text low h =
    let labels =
      any_bad-All ((split 46 text).0 ∷ (split 46 text).1) (split-IsLowered text low)
        (ground arith) in
    (ground arith, (split 46 text).0, (split 46 text).1, dotted-split text, labels)

not_empty_dotted :
    (first : List ℕ) (others : List (List ℕ)) → first ≢ [] → is_empty (dotted first others) ≡ false
unfolding dotted
not_empty_dotted [] others h = absurd (h refl)
not_empty_dotted (c ∷ cs) [] h = refl
not_empty_dotted (c ∷ cs) (next ∷ labels) h = refl

pub IsName-refused : (text : List ℕ) → IsName text → refused text ≡ false
IsName-refused text (short, first, others, joined, labels) =
    let full : is_empty text ≡ false =
      rw joined (not_empty_dotted first others labels.0.not_empty) in
    let fits : ltb 253 (length text) ≡ false = ground arith in
    let fine =
      ap (λ r. any_bad (r.0 ∷ r.1)) (ap (split 46) joined ∙ split-dotted first others labels)
      ∙ All-any_bad (first ∷ others) labels in
    simp (full, fits, fine) refl
