-- ===== src/Runtime/Control/Refines.antt =====
-- `ClientRuntime` of crates/velum-client-runtime/src/lib.rs against the authority that it stands for.
use velum.Prelude.{
  ℕ, ◌+◌, ◌*◌, ◌≡◌, refl, ◌≤◌, ◌<◌, inl, inr, List, [], ◌∷◌, ok, err, arith, Run, done, u64_limit,
  true, false, ◌==◌, Bool-cases, length,
}
use velum.Runtime.Control.{
  ClientId, ClientRuntime, Event, starts, connects, closes, stops, Reply, step, run, new_runtime,
}
use velum.Runtime.Control.Spec.{
  Connection, idle, dialing, up, down, Authority, respond, respond_all, represent, new_authority,
}

-- A call on the representation of an authority gives its answer and leaves a representation of what
-- it becomes, at most two revisions later.
abbrev pub Simulates : ℕ → Authority × Reply → Run (ClientRuntime × Reply) → Type 0
Simulates r out m =
    (r' : ℕ) × (r' ≤ r + 2) × (out.0.generation ≤ r') × (m ≡ done (represent r' out.0, out.1))

pub step_at :
    (r g : ℕ) (c : Connection) (closed : List ClientId) (aborted : List ℕ) (e : Event)
    → g ≤ r
    → r + 2 < u64_limit
    → let s : Authority = record {
      generation = g;
      connection = c;
      closed = closed;
      aborted = aborted;
    } in
      Simulates r (respond s e) (step (represent r s) e)
unfolding step respond
step_at r g idle closed aborted (starts true) low room =
    (r + 1, omega arith, ground arith, ground arith)
step_at r g idle closed aborted (starts false) low room = (r, omega arith, ground arith, refl)
step_at r g idle closed aborted stops low room = (r, omega arith, ground arith, refl)
step_at r g idle closed aborted (connects k result) low room =
    (r, omega arith, ground arith, ground arith)
step_at r g idle closed aborted (closes k failure) low room =
    (r, omega arith, ground arith, ground arith)
step_at r g (down f) closed aborted (starts true) low room =
    (r + 1, omega arith, ground arith, ground arith)
step_at r g (down f) closed aborted (starts false) low room = (r, omega arith, ground arith, refl)
step_at r g (down f) closed aborted stops low room =
    (r + 1 + 1, omega arith, ground arith, ground arith)
step_at r g (down f) closed aborted (connects k result) low room =
    (r, omega arith, ground arith, ground arith)
step_at r g (down f) closed aborted (closes k failure) low room =
    (r, omega arith, ground arith, ground arith)
step_at r g dialing closed aborted (starts true) low room = (r, omega arith, ground arith, refl)
step_at r g dialing closed aborted (starts false) low room = (r, omega arith, ground arith, refl)
step_at r g dialing closed aborted stops low room =
    (r + 1 + 1, omega arith, ground arith, ground arith)
step_at r g dialing closed aborted (closes k failure) low room =
    (r, omega arith, ground arith, ground arith)
step_at r g dialing closed aborted (connects k (ok client)) low room = elim (Bool-cases (k == g)) [
  | inl same ↦ rw same (r + 1, omega arith, ground arith, ground arith)
  | inr other ↦ rw other (r, omega arith, ground arith, refl)
]
step_at r g dialing closed aborted (connects k (err error)) low room = elim (Bool-cases (k == g)) [
  | inl same ↦ rw same (r + 1, omega arith, ground arith, ground arith)
  | inr other ↦ rw other (r, omega arith, ground arith, refl)
]
step_at r g (up c) closed aborted (starts true) low room = (r, omega arith, ground arith, refl)
step_at r g (up c) closed aborted (starts false) low room = (r, omega arith, ground arith, refl)
step_at r g (up c) closed aborted stops low room =
    (r + 1 + 1, omega arith, ground arith, ground arith)
step_at r g (up c) closed aborted (connects k result) low room =
    (r, omega arith, ground arith, ground arith)
step_at r g (up c) closed aborted (closes k failure) low room = elim (Bool-cases (k == g)) [
  | inl same ↦ rw same (r + 1, omega arith, ground arith, ground arith)
  | inr other ↦ rw other (r, omega arith, ground arith, refl)
]

pub run_at :
    (r : ℕ) (s : Authority) (events : List Event)
    → s.generation ≤ r
    → r + 2 * length events < u64_limit
    → let (after, replies) = respond_all s events in
      (r' : ℕ) × ((after.generation ≤ r') × (r' ≤ r + 2 * length events))
      × (run (represent r s) events ≡ done (represent r' after, replies))
unfolding run respond_all
run_at r s [] low room = (r, (low, omega arith), refl)
run_at r s (e ∷ events) low room =
    let (r1, near, low1, first) =
      step_at r s.generation s.connection s.closed s.aborted e low (omega arith) in
    let (r2, bound, rest) = run_at r1 (respond s e).0 events low1 (omega arith) in
    (r2, (bound.0, omega arith), rw (first, rest) refl)

-- Whatever calls and reports arrive at a new runtime, in any order, fewer than 2^63 of them: none
-- panics, and the answers and the state are those of the authority.
pub run_refines :
    (events : List Event)
    → 2 * length events < u64_limit
    → let (after, replies) = respond_all new_authority events in
      (revision : ℕ) × (run new_runtime events ≡ done (represent revision after, replies))
run_refines events room =
    let (r, _, e) = run_at 0 new_authority events (omega arith) (omega arith) in (r, e)
