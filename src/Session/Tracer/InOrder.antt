-- ===== src/Session/Tracer/InOrder.antt =====
-- Which segments a run of `receive` of crates/velum-session/src/lib.rs delivers.
use velum.Prelude.{
  ℕ, zero, suc, ◌+◌, ◌≡◌, refl, ap, sym, ◌∙◌, ◌⊎◌, inl, inr, Option, none, some, Option-cases,
  Result-cases, List, [], ◌∷◌, length, arith, Run, done, panic, Result, ok, err, true, false,
  Bool-cases, u64_limit, ltb, and_run, and_run-elim, done-injective, if◌then◌else◌, ◌==◌,
}
use velum.Protocol.Types.{FlowId, Sequence}
use velum.Session.Flows.{get, insert, get-insert}
use velum.Session.Tracer.{
  Segment, ReliableFlow, SessionTracer, TraceError, Answer, record_event, require_valid_epoch,
}
use velum.Session.Tracer.Receive.{
  ReceiveResult, delivered, duplicate, out_of_order, is_beyond, receive_flow, receive,
}

-- The receive cursor of a flow: what it expects next.
abbrev pub cursor : Option ReliableFlow → Option Sequence
cursor none = none
cursor (some flow) = some flow.next_receive

-- What a call to `receive` did to the flow `k`, whose cursor was `next`: a segment of this flow was
-- delivered, it was the expected one, and the cursor is one further; or nothing was delivered in
-- this flow, and the cursor stays.
abbrev pub Advances : FlowId → Segment → Sequence → Answer ReceiveResult → Type 0
Advances k s next (t', ok (delivered bytes)) =
    ((s.flow_id ≡ k)
      × (s.sequence ≡ next)
      × (bytes ≡ s.bytes)
      × (cursor (get k t'.flows) ≡ some (next + 1)))
    ⊎ ((s.flow_id ≡ k → ⊥) × (cursor (get k t'.flows) ≡ some next))
Advances k s next (t', ok duplicate) = cursor (get k t'.flows) ≡ some next
Advances k s next (t', ok out_of_order) = cursor (get k t'.flows) ≡ some next
Advances k s next (t', err error) = cursor (get k t'.flows) ≡ some next

abbrev AdvancesRun : FlowId → Segment → Sequence → Run (Answer ReceiveResult) → Type 0
AdvancesRun k s next (done answer) = Advances k s next answer
AdvancesRun k s next panic = Unit {0}

delivered_here :
    (t : SessionTracer) (s : Segment) (flow : ReliableFlow) (k next : ℕ)
    → get s.flow_id t.flows ≡ some flow
    → cursor (get k t.flows) ≡ some next
    → s.sequence ≡ flow.next_receive
    → let after = insert s.flow_id (record flow { next_receive = flow.next_receive + 1 }) t.flows in
      ((s.flow_id ≡ k)
        × (s.sequence ≡ next)
        × (s.bytes ≡ s.bytes)
        × (cursor (get k after) ≡ some (next + 1)))
      ⊎ ((s.flow_id ≡ k → ⊥) × (cursor (get k after) ≡ some next))
delivered_here t s flow k next found e expected =
    let law =
      get-insert s.flow_id k (record flow { next_receive = flow.next_receive + 1 }) t.flows in
    elim (Bool-cases (s.flow_id == k)) [
      | inl hit ↦
          let same : s.flow_id ≡ k = ground arith in
          let here : flow.next_receive ≡ next =
            cc (ap cursor (sym found ∙ ap (λ (j : ℕ). get j t.flows) same)) in
          inl (same, expected ∙ here, refl, rw (law, hit) (ap (λ (n : ℕ). some (n + 1)) here))
      | inr miss ↦ inr (λ same. ground arith, rw (law, miss) e)
    ]

receive_flow-Advances :
    (t : SessionTracer) (s : Segment) (flow : ReliableFlow) (k next : ℕ)
    → get s.flow_id t.flows ≡ some flow
    → cursor (get k t.flows) ≡ some next
    → AdvancesRun k s next (receive_flow t s flow)
unfolding receive_flow record_event
receive_flow-Advances t s flow k next found e =
    elim (Bool-cases (is_beyond flow.receive_final_next s.sequence)) [
      | inl c ↦ rw c e
      | inr c ↦ rw c (elim (Bool-cases (ltb s.sequence flow.next_receive)) [
        | inl old ↦ rw old e
        | inr old ↦ rw old (elim (Bool-cases (ltb flow.next_receive s.sequence)) [
          | inl gap ↦ rw gap e
          | inr gap ↦ rw gap (elim (Bool-cases (ltb (flow.next_receive + 1) u64_limit)) [
            | inl fits ↦ rw fits (delivered_here t s flow k next found e (ground arith))
            | inr fits ↦ rw fits tt
          ])
        ])
      ])
    ]

receive-Advances :
    (t : SessionTracer) (s : Segment) (k next : ℕ)
    → cursor (get k t.flows) ≡ some next
    → AdvancesRun k s next (receive t s)
unfolding receive
receive-Advances t s k next e = elim (Result-cases (require_valid_epoch t s.epoch)) [
  | inr (error, c) ↦ rw (c, receive) e
  | inl (_, c) ↦
      rw (c, receive)
        (elim (Option-cases (get s.flow_id t.flows)) [
          | inl missing ↦ rw missing e
          | inr (flow, found) ↦ rw found (receive_flow-Advances t s flow k next found e)
        ])
]

-- The sequence numbers that a run of arrivals delivers in the flow `k`.
abbrev pub note : FlowId → Segment → Result ReceiveResult TraceError → List Sequence → List Sequence
note k s (ok (delivered bytes)) rest = if s.flow_id == k then s.sequence ∷ rest else rest
note k s (ok duplicate) rest = rest
note k s (ok out_of_order) rest = rest
note k s (err error) rest = rest

unfoldable pub receive_all :
    FlowId → SessionTracer → List Segment → Run (SessionTracer × List Sequence)
receive_all k t [] = done (t, [])
receive_all k t (s ∷ rest) = and_run (receive t s) λ (t', result).
    and_run (receive_all k t' rest) λ (t'', sequences). done (t'', note k s result sequences)

-- `n` numbers from `first` on.
abbrev pub count_from : Sequence → ℕ → List Sequence
count_from first zero = []
count_from first (suc n) = first ∷ count_from (first + 1) n

abbrev InOrder : FlowId → Sequence → SessionTracer → List Sequence → Type 0
InOrder k next t sequences =
    (sequences ≡ count_from next (length sequences))
    × (cursor (get k t.flows) ≡ some (next + length sequences))

note-InOrder :
    (k next : ℕ) (s : Segment) (t' t : SessionTracer) (r : Result ReceiveResult TraceError)
    (sequences : List Sequence)
    → Advances k s next (t', r)
    → ((n : ℕ) → cursor (get k t'.flows) ≡ some n → InOrder k n t sequences)
    → InOrder k next t (note k s r sequences)
note-InOrder k next s t' t (ok (delivered bytes)) sequences (inl (same, expected, _, moved)) later =
    let (shape, last) = later (next + 1) moved in
    rw (hit_test same) (
      rw expected
        (ap (◌∷◌ next) shape, last ∙ ap (λ (n : ℕ). some n) (plus_one (length sequences))))
  where
    hit_test : s.flow_id ≡ k → (s.flow_id == k) ≡ true
    hit_test same = ground arith

    plus_one : (n : ℕ) → next + 1 + n ≡ next + suc n
    plus_one n = omega arith
note-InOrder k next s t' t (ok (delivered bytes)) sequences (inr (other, kept)) later =
    rw (miss_test other) (later next kept)
  where
    miss_test : (s.flow_id ≡ k → ⊥) → (s.flow_id == k) ≡ false
    miss_test other = ground arith
note-InOrder k next s t' t (ok duplicate) sequences kept later = later next kept
note-InOrder k next s t' t (ok out_of_order) sequences kept later = later next kept
note-InOrder k next s t' t (err error) sequences kept later = later next kept

-- Exactly once and in order: however segments of any flows arrive, lost, repeated or reordered, the
-- sequence numbers that a run of `receive` delivers in a flow are consecutive from the flow's
-- cursor on, and the cursor ends behind the last of them.
pub receive_all-in_order :
    (k next : ℕ) (segments : List Segment) (t t' : SessionTracer) (sequences : List Sequence)
    → cursor (get k t.flows) ≡ some next
    → receive_all k t segments ≡ done (t', sequences)
    → (sequences ≡ count_from next (length sequences))
      × (cursor (get k t'.flows) ≡ some (next + length sequences))
unfolding receive_all
receive_all-in_order k next [] t t' sequences e h =
    let (same, none_left) = done-injective h in
    rw (← none_left, ← same) (refl, e ∙ ap (λ (n : ℕ). some n) (omega arith))
receive_all-in_order k next (s ∷ rest) t t' sequences e h =
    and_run-elim (receive t s) _ h λ (mid, r) first later.
      and_run-elim (receive_all k mid rest) _ later λ (end, found) second last.
        let (same, noted) = done-injective last in
        let advanced : Advances k s next (mid, r) = rw first at (receive-Advances t s k next e) in
        rw (← same, ← noted)
          (note-InOrder k next s mid end r found advanced
            λ n at_n. receive_all-in_order k n rest mid end found at_n second)
