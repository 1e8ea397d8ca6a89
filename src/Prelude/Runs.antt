-- ===== src/Prelude/Runs.antt =====
-- A call that returns or panics, and the checked arithmetic of `u64` whose failure is a panic.
use Prim.Native.Nat.{ℕ, ◌+◌, ◌-◌}
use mathlib.Core.Path.{◌≡◌, refl}
use mathlib.Core.Option.{Option, none, some}
use native.Mathlib.Omega.{arith}
use velum.Prelude.Tests.{ltb, if◌then◌else◌}

pub data Run {ℓ} (A : Type ℓ) : Type ℓ where
  done : A → Run A
  panic : Run A

-- A call followed by a use of its result.
abbrev pub and_run {ℓ κ} : {A : Type ℓ} {B : Type κ} → Run A → (A → Run B) → Run B
and_run (done a) f = f a
and_run panic f = panic

-- `option.expect(..)`
abbrev pub expect {ℓ} : {A : Type ℓ} → Option A → Run A
expect none = panic
expect (some a) = done a

abbrev pub u64_limit : ℕ
u64_limit = 18446744073709551616

-- `a.checked_add(b)` on `u64`, and `a.checked_sub(b)`.
abbrev pub checked_add : ℕ → ℕ → Option ℕ
checked_add a b = if ltb (a + b) u64_limit then some (a + b) else none

abbrev pub checked_sub : ℕ → ℕ → Option ℕ
checked_sub a b = if ltb a b then none else some (a - b)

pub checked_sub-add : (a b : ℕ) → checked_sub (a + b) b ≡ some a
checked_sub-add a b = ground arith

pub and_run-eq-done {ℓ κ} :
    {A : Type ℓ} {B : Type κ} (m : Run A) (f : A → Run B) {b : B}
    → and_run m f ≡ done b
    → (a : A) × (m ≡ done a) × (f a ≡ done b)
and_run-eq-done (done a) f e = (a, refl, e)
and_run-eq-done panic f e = cc

pub and_run-elim {ℓ κ ν} :
    {A : Type ℓ} {B : Type κ} {C : Type ν} (m : Run A) (f : A → Run B) {b : B}
    → and_run m f ≡ done b
    → ((a : A) → m ≡ done a → f a ≡ done b → C)
    → C
and_run-elim m f e use_parts = let (a, p, q) = and_run-eq-done m f e in use_parts a p q

pub done-injective {ℓ κ} :
    {A : Type ℓ} {B : Type κ} {a c : A} {b d : B}
    → ◌≡◌ {A = Run (A × B)} (done (a, b)) (done (c, d))
    → (a ≡ c) × (b ≡ d)
done-injective e = (cc, cc)
