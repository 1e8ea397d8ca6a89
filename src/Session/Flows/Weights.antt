-- ===== src/Session/Flows/Weights.antt =====
-- Sums and predicates over the entries of a flow map, under insertion and removal.
use velum.Prelude.{ℕ, suc, ◌+◌, ◌≡◌, refl, none, some, List, [], ◌∷◌, length, arith}
use velum.Session.Flows.{get, insert, remove, Rising, get_below}

module _ {ℓ} {V : Type ℓ} (weight : V → ℕ) where
  -- The sum of a measure over all entries.
  abbrev pub weigh : List (ℕ × V) → ℕ
  weigh [] = 0
  weigh ((k, v) ∷ m) = weight v + weigh m

  pub weigh-insert_new :
      (k : ℕ) (v : V) (m : List (ℕ × V))
      → get k m ≡ none
      → weigh (insert k v m) ≡ weigh m + weight v
  unfolding get insert
  weigh-insert_new k v [] e = omega arith
  weigh-insert_new k v ((j, w) ∷ m) e = ground (arith, weigh-insert_new k v m)

  pub weigh-insert_old :
      (k low high : ℕ) (v w : V) (m : List (ℕ × V))
      → Rising low high m
      → get k m ≡ some w
      → weigh (insert k v m) + weight w ≡ weigh m + weight v
  unfolding get insert
  weigh-insert_old k low high v w [] r e = cc
  weigh-insert_old k low high v w ((j, u) ∷ m) (a, b, r) e =
      ground (arith, weigh-insert_old k (suc j) high v w m r, get_below k (suc j) high m r)

  pub weigh-remove :
      (k : ℕ) (w : V) (m : List (ℕ × V))
      → get k m ≡ some w
      → weigh (remove k m) + weight w ≡ weigh m
  unfolding get remove
  weigh-remove k w [] e = cc
  weigh-remove k w ((j, u) ∷ m) e = ground (arith, weigh-remove k w m)

module _ {ℓ} {V : Type ℓ} where
  abbrev pub one : V → ℕ
  one v = 1

  pub weigh-one : (m : List (ℕ × V)) → weigh one m ≡ length m
  weigh-one [] = refl
  weigh-one ((k, v) ∷ m) = omega (arith, weigh-one m)

module _ {ℓ κ} {V : Type ℓ} (P : V → Type κ) where
  abbrev pub AllValues : List (ℕ × V) → Type κ
  AllValues [] = Unit
  AllValues ((k, v) ∷ m) = P v × AllValues m

  pub get-AllValues : (k : ℕ) (v : V) (m : List (ℕ × V)) → AllValues m → get k m ≡ some v → P v
  unfolding get
  get-AllValues k v [] h e = cc
  get-AllValues k v ((j, w) ∷ m) h e = ground (arith, get-AllValues k v m h.1, h.0)

  pub insert-AllValues :
      (k : ℕ) (v : V) (m : List (ℕ × V)) → P v → AllValues m → AllValues (insert k v m)
  unfolding insert
  insert-AllValues k v [] p h = (p, tt)
  insert-AllValues k v ((j, w) ∷ m) p h = ground (arith, insert-AllValues k v m p h.1)

  pub remove-AllValues : (k : ℕ) (m : List (ℕ × V)) → AllValues m → AllValues (remove k m)
  unfolding remove
  remove-AllValues k [] h = tt
  remove-AllValues k ((j, w) ∷ m) h = ground (arith, remove-AllValues k m h.1)
