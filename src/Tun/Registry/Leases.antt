-- ===== src/Tun/Registry/Leases.antt =====
-- The leases of crates/velum-adapter-tun/src/lib.rs across a stop of the runtime
-- (crates/velum-client-runtime/src/lib.rs).
use velum.Prelude.{
  ℕ, ◌+◌, ◌*◌, ◌≡◌, refl, ap, sym, ◌∙◌, ◌≤◌, ◌<◌, false, List, ok, true, [], ◌∷◌, ◌++◌, length,
  u64_limit, done, done-injective, and_run-elim, length-append, arith,
}
use mathlib.Core.Path.{subst}
use velum.Runtime.Control.{
  ClientRuntime, new_runtime, Event, Reply, ClientId, starts, connects, closes, stops, stopped_at,
  run, step, stop,
}
use velum.Runtime.Control.Spec.{
  Authority, Connection, respond, idle, dialing, up, down, respond_all, new_authority,
}
use velum.Runtime.Control.Refines.{run_at, step_at}
use velum.Runtime.Control.Ended.{stop-final}
use velum.Tun.{FlowKey}
use velum.Tun.Registry.{TunFlowRegistry, admit, is_active}
use velum.Tun.Registry.Grants.{Above, admitted_active, admit-Above}

-- No event lowers the generation.
respond-generation :
    (n : ℕ) (c : Connection) (closed : List ClientId) (aborted : List ℕ) (e : Event)
    → let s : Authority = record {
      generation = n;
      connection = c;
      closed = closed;
      aborted = aborted;
    } in
      n ≤ (respond s e).0.generation
unfolding respond
respond-generation n idle closed aborted (starts true) = omega arith
respond-generation n (down f) closed aborted (starts true) = omega arith
respond-generation n dialing closed aborted (starts true) = omega arith
respond-generation n (up x) closed aborted (starts true) = omega arith
respond-generation n c closed aborted (starts false) = omega arith
respond-generation n c closed aborted (connects j result) = ground arith
respond-generation n c closed aborted (closes j failure) = ground arith
respond-generation n idle closed aborted stops = omega arith
respond-generation n dialing closed aborted stops = omega arith
respond-generation n (up x) closed aborted stops = omega arith
respond-generation n (down f) closed aborted stops = omega arith

respond_all-generation :
    (s : Authority) (events : List Event) → s.generation ≤ (respond_all s events).0.generation
unfolding respond_all
respond_all-generation s [] = omega arith
respond_all-generation s (e ∷ events) =
    let first = respond-generation s.generation s.connection s.closed s.aborted e in
    let rest = respond_all-generation (respond s e).0 events in omega (arith, first, rest)

stopped-le :
    (g n : ℕ) (c : Connection) (closed : List ClientId) (aborted : List ℕ)
    → let s : Authority = record {
      generation = n;
      connection = c;
      closed = closed;
      aborted = aborted;
    } in
      (respond s stops).1 ≡ stopped_at g → n ≤ g
unfolding respond
stopped-le g n idle closed aborted e = ground arith
stopped-le g n dialing closed aborted e = ground arith
stopped-le g n (up c) closed aborted e = ground arith
stopped-le g n (down f) closed aborted e = ground arith

-- A stop of a runtime that calls have reached gives no lower generation than the published one.
stop-generation :
    (before : List Event) (t t' : ClientRuntime) (g : ℕ) (replies : List Reply)
    → run new_runtime before ≡ done (t, replies)
    → stop t ≡ done (t', g)
    → 2 * length before + 2 < u64_limit
    → t.published.generation ≤ g
unfolding step
stop-generation before t t' g replies first halted room =
    let (r, b, e) = run_at 0 new_authority before (omega arith) (omega arith) in
    let s = (respond_all new_authority before).0 in
    let at_t = (done-injective (sym e ∙ first)).0 in
    let (r', near, low, e') =
      step_at r s.generation s.connection s.closed s.aborted stops b.0 (omega arith) in
    let stepped : step t stops ≡ done (t', stopped_at g) = rw halted refl in
    let both = done-injective (sym e' ∙ (ap (λ x. step x stops) at_t ∙ stepped)) in
    subst (λ (x : ClientRuntime). x.published.generation ≤ g) at_t
      (stopped-le g s.generation s.connection s.closed s.aborted both.1)

-- Two runs, one after the other.
run-append :
    (s s' s'' : ClientRuntime) (a b : List Event) (replies replies' : List Reply)
    → run s a ≡ done (s', replies)
    → run s' b ≡ done (s'', replies')
    → (whole : List Reply) × (run s (a ++ b) ≡ done (s'', whole))
unfolding run
run-append s s' s'' [] b replies replies' e f =
    let same = (done-injective e).0 in (replies', rw same f)
run-append s s' s'' (event ∷ a) b replies replies' e f =
    and_run-elim (step s event) _ e (λ (s1, reply) p q.
      and_run-elim (run s1 a) _ q (λ (s2, rest) p' q'.
        let same = (done-injective q').0 in
        let (whole, h) =
          run-append s1 s' s'' a b rest replies' (p' ∙ ap (λ x. done (x, rest)) same) f in
        (reply ∷ whole, rw (p, h) refl)))

-- The generation of a runtime is not lowered by what happens next.
run-generation :
    (before between : List Event) (t t' : ClientRuntime) (replies replies' : List Reply)
    → run new_runtime before ≡ done (t, replies)
    → run t between ≡ done (t', replies')
    → 2 * (length before + length between) < u64_limit
    → t.published.generation ≤ t'.published.generation
run-generation before between t t' replies replies' first then_ room =
    let (r, b, e) = run_at 0 new_authority before (omega arith) (omega arith) in
    let s = (respond_all new_authority before).0 in
    let at_t = (done-injective (sym e ∙ first)).0 in
    let (r', b', e') = run_at r s between b.0 (omega arith) in
    let at_t' = (done-injective (sym e' ∙ (ap (λ x. run x between) at_t ∙ then_))).0 in
    subst (λ (x : ClientRuntime). x.published.generation ≤ t'.published.generation) at_t
      (subst (λ (x : ClientRuntime). s.generation ≤ x.published.generation) at_t'
        (respond_all-generation s between))

-- A stop is an event of a run.
stopped_run :
    (t t' t'' : ClientRuntime) (g : ℕ) (after : List Event) (replies : List Reply)
    → stop t ≡ done (t', g)
    → run t' after ≡ done (t'', replies)
    → run t (stops ∷ after) ≡ done (t'', stopped_at g ∷ replies)
unfolding run step
stopped_run t t' t'' g after replies halted last = rw (halted, last) refl

-- A flow that is admitted with a generation, in any registry and at any time in a run of the runtime,
-- is active with it at once. After whatever calls and reports follow, a stop, and whatever calls and
-- reports follow the stop, it is not active with that generation in any registry, and wherever it is
-- admitted again it is with a greater generation: for fewer than 2^63 calls and reports in all.
pub is_active-stop :
    (before between after : List Event) (t0 t t' t'' : ClientRuntime) (g k : ℕ)
    (replies0 replies1 replies2 : List Reply) (self next later : TunFlowRegistry) (key : FlowKey)
    → run new_runtime before ≡ done (t0, replies0)
    → admit t0 self key ≡ (ok k, next)
    → run t0 between ≡ done (t, replies1)
    → stop t ≡ done (t', g)
    → run t' after ≡ done (t'', replies2)
    → 2 * (length before + length between + 1 + length after) < u64_limit
    → (is_active t0 next key k ≡ true)
      × (is_active t'' later key k ≡ false)
      × Above k (admit t'' later key).0
unfolding is_active
is_active-stop before between after t0 t t' t'' g k replies0 replies1 replies2 self next later key
      first admitted more halted last room =
    let (same, active) = admitted_active t0 self next key k admitted in
    let (whole, joined) = run-append new_runtime t0 t before between replies0 replies1 first more in
    let count = length-append before between in
    let kept = run-generation before between t0 t replies0 replies1 first more (omega arith) in
    let low =
      stop-generation (before ++ between) t t' g whole joined halted (omega (arith, count)) in
    let over =
      stop-final k g (before ++ between) after t t' t'' whole replies2 joined halted last
        (omega (arith, count)) (omega (arith, same, kept, low)) in
    let later_run = stopped_run t t' t'' g after replies2 halted last in
    let lower =
      run-generation (before ++ between) (stops ∷ after) t t'' whole (stopped_at g ∷ replies2)
        joined later_run (omega (arith, count)) in
    (active, simp over refl, admit-Above t'' later key k over (omega (arith, same, kept, lower)))
