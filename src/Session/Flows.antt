-- ===== src/Session/Flows.antt =====
-- `BTreeMap<FlowId, V>` as the tracer uses it: an association list in ascending order of keys,
-- which is the order of iteration.
pub mod Weights
use velum.Prelude.{
  ℕ, zero, suc, ◌+◌, ◌-◌, ◌≡◌, refl, ap, ◌≢◌, ◌≤◌, ◌<◌, Bool, true, false, Option, none, some, List,
  [], ◌∷◌, ltb, ◌==◌, if◌then◌else◌, length, arith,
}

module _ {ℓ} {V : Type ℓ} where
  unfoldable pub get : ℕ → List (ℕ × V) → Option V
  get k [] = none
  get k ((j, v) ∷ m) = if j == k then some v else get k m

  unfoldable pub insert : ℕ → V → List (ℕ × V) → List (ℕ × V)
  insert k v [] = (k, v) ∷ []
  insert k v ((j, w) ∷ m) =
      let later = insert k v m in
      if ltb k j then (k, v) ∷ ((j, w) ∷ m) else (if k == j then (k, v) ∷ m else (j, w) ∷ later)

  unfoldable pub remove : ℕ → List (ℕ × V) → List (ℕ × V)
  remove k [] = []
  remove k ((j, v) ∷ m) = if j == k then m else (j, v) ∷ remove k m

  -- Keys rise along the list, from `low` on, and stay below `high`.
  abbrev pub Rising : ℕ → ℕ → List (ℕ × V) → Type 0
  Rising low high [] = Unit {0}
  Rising low high ((k, v) ∷ m) = (low ≤ k) × (k < high) × Rising (suc k) high m

  pub get_below : (k low high : ℕ) (m : List (ℕ × V)) → Rising low high m → k < low → get k m ≡ none
  unfolding get
  get_below k low high [] r h = refl
  get_below k low high ((j, v) ∷ m) (a, b, r) h =
      ground (arith, get_below k (suc j) high m r (omega arith))

  pub get_above :
      (k low high : ℕ) (m : List (ℕ × V)) → Rising low high m → high ≤ k → get k m ≡ none
  unfolding get
  get_above k low high [] r h = refl
  get_above k low high ((j, v) ∷ m) (a, b, r) h =
      ground (arith, get_above k (suc j) high m r (omega arith))

  -- A key that is found lies within the bounds.
  pub get_found :
      (k low high : ℕ) (v : V) (m : List (ℕ × V))
      → Rising low high m
      → get k m ≡ some v
      → (low ≤ k) × (k < high)
  unfolding get
  get_found k low high v [] r e = cc
  get_found k low high v ((j, w) ∷ m) (a, b, r) e = ground (arith, get_found k (suc j) high v m r)

  pub Rising-mono :
      (low low' high high' : ℕ) (m : List (ℕ × V))
      → low' ≤ low
      → high ≤ high'
      → Rising low high m
      → Rising low' high' m
  Rising-mono low low' high high' [] p q r = tt
  Rising-mono low low' high high' ((k, v) ∷ m) p q (a, b, r) =
      (omega arith, omega arith, Rising-mono (suc k) (suc k) high high' m (omega arith) q r)

  pub remove-Rising :
      (k low high : ℕ) (m : List (ℕ × V)) → Rising low high m → Rising low high (remove k m)
  unfolding remove
  remove-Rising k low high [] r = tt
  remove-Rising k low high ((j, v) ∷ m) (a, b, r) = ground (
    arith,
    remove-Rising k (suc j) high m r,
    Rising-mono (suc j) low high high m (omega arith) (omega arith) r,
  )

  pub insert-Rising :
      (k low high : ℕ) (v : V) (m : List (ℕ × V))
      → low ≤ k
      → k < high
      → Rising low high m
      → Rising low high (insert k v m)
  unfolding insert
  insert-Rising k low high v [] p q r = (p, q, tt)
  insert-Rising k low high v ((j, w) ∷ m) p q (a, b, r) =
      ground (arith, insert-Rising k (suc j) high v m, Rising-mono (suc j) (suc k) high high m)

  pub get-insert :
      (k j : ℕ) (v : V) (m : List (ℕ × V))
      → get j (insert k v m) ≡ (if k == j then some v else get j m)
  unfolding get insert
  get-insert k j v [] = refl
  get-insert k j v ((i, w) ∷ m) = ground (arith, get-insert k j v m)

  pub get-remove :
      (k j low high : ℕ) (m : List (ℕ × V))
      → Rising low high m
      → get j (remove k m) ≡ (if k == j then none else get j m)
  unfolding get remove
  get-remove k j low high [] r = ground arith
  get-remove k j low high ((i, w) ∷ m) (a, b, r) =
      ground (arith, get-remove k j (suc i) high m r, get_below j (suc i) high m r)
