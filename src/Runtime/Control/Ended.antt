-- ===== src/Runtime/Control/Ended.antt =====
-- What `stop` of crates/velum-client-runtime/src/lib.rs ends for good.
use velum.Prelude.{
  ℕ, ◌+◌, ◌*◌, ◌≡◌, refl, ap, sym, ◌∙◌, ◌≤◌, ◌<◌, ◌⊎◌, inr, List, [], ◌∷◌, ok, err, arith, done,
  done-injective, u64_limit, Bool, true, false, length,
}
use velum.Runtime.Control.{
  ClientId, ClientRuntime, Event, starts, connects, closes, stops, Reply, stopped_at, step, run,
  stop, new_runtime, is_generation_online,
}
use velum.Runtime.Control.Spec.{
  Connection, idle, dialing, up, down, Authority, respond, respond_all, represent, new_authority,
}
use velum.Runtime.Control.Refines.{step_at, run_at}

abbrev is_live : Connection → Bool
is_live dialing = true
is_live (up client) = true
is_live _ = false

-- The generation `k` is over.
abbrev Ended : ℕ → Authority → Type 0
Ended k s = (k < s.generation) ⊎ ((k ≤ s.generation) × (is_live s.connection ≡ false))

Ended-stopped :
    (k g n : ℕ) (c : Connection) (closed : List ClientId) (aborted : List ℕ)
    → let s : Authority = record {
      generation = n;
      connection = c;
      closed = closed;
      aborted = aborted;
    } in
      (respond s stops).1 ≡ stopped_at g → k ≤ g → Ended k (respond s stops).0
unfolding respond
Ended-stopped k g n idle closed aborted e low = inr (ground arith)
Ended-stopped k g n dialing closed aborted e low = inr (ground arith)
Ended-stopped k g n (up c) closed aborted e low = inr (ground arith)
Ended-stopped k g n (down f) closed aborted e low = inr (ground arith)

Ended-respond_at :
    (k n : ℕ) (c : Connection) (closed : List ClientId) (aborted : List ℕ) (e : Event)
    → let s : Authority = record {
      generation = n;
      connection = c;
      closed = closed;
      aborted = aborted;
    } in
      Ended k s → Ended k (respond s e).0
unfolding respond
Ended-respond_at k n idle closed aborted (starts true) h = ground arith
Ended-respond_at k n idle closed aborted (starts false) h = ground arith
Ended-respond_at k n idle closed aborted (connects j (ok client)) h = ground arith
Ended-respond_at k n idle closed aborted (connects j (err error)) h = ground arith
Ended-respond_at k n idle closed aborted (closes j failure) h = ground arith
Ended-respond_at k n idle closed aborted stops h = ground arith
Ended-respond_at k n dialing closed aborted (starts true) h = ground arith
Ended-respond_at k n dialing closed aborted (starts false) h = ground arith
Ended-respond_at k n dialing closed aborted (connects j (ok client)) h = ground arith
Ended-respond_at k n dialing closed aborted (connects j (err error)) h = ground arith
Ended-respond_at k n dialing closed aborted (closes j failure) h = ground arith
Ended-respond_at k n dialing closed aborted stops h = ground arith
Ended-respond_at k n (up x) closed aborted (starts true) h = ground arith
Ended-respond_at k n (up x) closed aborted (starts false) h = ground arith
Ended-respond_at k n (up x) closed aborted (connects j (ok client)) h = ground arith
Ended-respond_at k n (up x) closed aborted (connects j (err error)) h = ground arith
Ended-respond_at k n (up x) closed aborted (closes j failure) h = ground arith
Ended-respond_at k n (up x) closed aborted stops h = ground arith
Ended-respond_at k n (down f) closed aborted (starts true) h = ground arith
Ended-respond_at k n (down f) closed aborted (starts false) h = ground arith
Ended-respond_at k n (down f) closed aborted (connects j (ok client)) h = ground arith
Ended-respond_at k n (down f) closed aborted (connects j (err error)) h = ground arith
Ended-respond_at k n (down f) closed aborted (closes j failure) h = ground arith
Ended-respond_at k n (down f) closed aborted stops h = ground arith

Ended-respond_all :
    (k : ℕ) (s : Authority) (events : List Event) → Ended k s → Ended k (respond_all s events).0
unfolding respond_all
Ended-respond_all k s [] h = h
Ended-respond_all k s (e ∷ events) h =
    Ended-respond_all k (respond s e).0 events
      (Ended-respond_at k s.generation s.connection s.closed s.aborted e h)

offline_at :
    (k r n : ℕ) (c : Connection) (closed : List ClientId) (aborted : List ℕ)
    → let s : Authority = record {
      generation = n;
      connection = c;
      closed = closed;
      aborted = aborted;
    } in
      Ended k s → is_generation_online (represent r s) k ≡ false
unfolding is_generation_online
offline_at k r n idle closed aborted h = ground arith
offline_at k r n dialing closed aborted h = ground arith
offline_at k r n (up c) closed aborted h = ground arith
offline_at k r n (down f) closed aborted h = ground arith

-- Once `stop` has returned `g`, no generation up to `g` is ever online again, whatever calls are
-- made and whatever late results of earlier attempts arrive, in any order: for fewer than 2^63 calls
-- and reports in all.
pub stop-final :
    (k g : ℕ) (before after : List Event) (t t' t'' : ClientRuntime) (replies replies' : List Reply)
    → run new_runtime before ≡ done (t, replies)
    → stop t ≡ done (t', g)
    → run t' after ≡ done (t'', replies')
    → 2 * (length before + 1 + length after) < u64_limit
    → k ≤ g
    → is_generation_online t'' k ≡ false
unfolding step
stop-final k g before after t t' t'' replies replies' first halted later room low =
    let (r1, b1, e1) = run_at 0 new_authority before (omega arith) (omega arith) in
    let s1 = (respond_all new_authority before).0 in
    let at_t = (done-injective (sym e1 ∙ first)).0 in
    let (r2, near, low2, e2) =
      step_at r1 s1.generation s1.connection s1.closed s1.aborted stops b1.0 (omega arith) in
    let stepped : step t stops ≡ done (t', stopped_at g) = rw halted refl in
    let both = done-injective (sym e2 ∙ (ap (λ x. step x stops) at_t ∙ stepped)) in
    let s2 = (respond s1 stops).0 in
    let over = Ended-stopped k g s1.generation s1.connection s1.closed s1.aborted both.1 low in
    let (r3, b3, e3) = run_at r2 s2 after low2 (omega arith) in
    let s3 = (respond_all s2 after).0 in
    let at_end = (done-injective (sym e3 ∙ (ap (λ x. run x after) both.0 ∙ later))).0 in
    rw (← at_end) (
      offline_at k r3 s3.generation s3.connection s3.closed s3.aborted
        (Ended-respond_all k s2 after over))
