-- ===== src/Protocol/Frame/Triple.antt =====
-- The three integers that data, acknowledgement and finish frames of
-- crates/velum-protocol/src/frame.rs begin with.
use velum.Prelude.{
  ℕ, ◌≡◌, List, [], ◌++◌, ok, All, IsByte, IsU64, append_assoc, append-nil, ok-injective,
}
use velum.Protocol.Frame.{push_u64}
use velum.Protocol.Frame.Decode.{read_triple}
use velum.Protocol.Frame.Layout.{Reads, Reads-bind, u64-Reads}

abbrev pub IsTriple : ℕ × ℕ × ℕ → Type 0
IsTriple (f, e, s) = IsU64 f × IsU64 e × IsU64 s

abbrev pub push_triple : ℕ × ℕ × ℕ → List ℕ
push_triple (f, e, s) = push_u64 f ++ (push_u64 e ++ push_u64 s)

pub read_triple-forward :
    (f e s : ℕ) (rest : List ℕ)
    → IsU64 f × IsU64 e × IsU64 s
    → read_triple (push_u64 f ++ (push_u64 e ++ (push_u64 s ++ rest))) ≡ ok ((f, e, s), rest)
unfolding read_triple push_u64
read_triple-forward f e s rest (hf, he, hs) =
    rw (u64-Reads.forward f _ hf) (rw (u64-Reads.forward e _ he) (rw (u64-Reads.forward s _ hs)))

pub read_triple-forward_end :
    (f e s : ℕ)
    → IsU64 f × IsU64 e × IsU64 s
    → read_triple (push_u64 f ++ (push_u64 e ++ push_u64 s)) ≡ ok ((f, e, s), [])
read_triple-forward_end f e s h = rw append-nil at (read_triple-forward f e s [] h)

read_triple-backward :
    (bytes : List ℕ) (t : ℕ × ℕ × ℕ) (rest : List ℕ)
    → All IsByte bytes
    → read_triple bytes ≡ ok (t, rest)
    → (bytes ≡ push_triple t ++ rest) × IsTriple t × All IsByte rest
unfolding read_triple push_u64
read_triple-backward bytes t rest h e = Reads-bind u64-Reads bytes _ h e λ f r1 b1 p1 h1 e1.
    Reads-bind u64-Reads r1 _ h1 e1 λ epoch r2 b2 p2 h2 e2.
      Reads-bind u64-Reads r2 _ h2 e2 λ s r3 b3 p3 h3 e3.
        let (same, tail) = ok-injective e3 in
        rw (← same, ← tail) (simp append_assoc (rw (b1, b2, b3)), (p1, p2, p3), h3)

pub IsTriple-Reads : Reads read_triple push_triple IsTriple
IsTriple-Reads = record {
  forward = λ (f, e, s) rest h. simp append_assoc (read_triple-forward f e s rest h);
  backward = read_triple-backward;
}
