-- ===== src/Protocol/Frame/Fields.antt =====
-- The composite reads of the `Reader` (crates/velum-protocol/src/frame.rs): version ranges, nonces,
-- identifiers, parameters and codes.
use velum.Prelude.{
  ℕ, ◌≡◌, ◌≤◌, List, [], ◌∷◌, ◌++◌, Result, ok, err, All, IsByte, IsArray, to_be_bytes,
  append_assoc, arith, ok-injective, ◌>>=◌,
}
use velum.Protocol.Types.{
  VersionRange, new_version_range, new_nonce, new_attachment_id, find_nonzero, canonical_bytes,
}
use velum.Protocol.Types.Valid.{IsRange, IsNonce, IsParameters}
use velum.Protocol.ErrorCode.{as_u16, IsCanonical, as_u16-from_u16}
use velum.Protocol.Frame.{push_version_range, push_error}
use velum.Protocol.Frame.Reader.{
  Reader, array, nonce, attachment_id, version_range, parameters, error, checked,
}
use velum.Protocol.Frame.Layout.{Reads, Reads-bind, array-Reads, u16-Reads, u64-Reads}

find_nonzero_same : (bytes xs : List ℕ) {v : List ℕ} → find_nonzero bytes xs ≡ ok v → v ≡ bytes
unfolding find_nonzero
find_nonzero_same bytes [] e = cc
find_nonzero_same bytes (x ∷ xs) {v} e = ground (arith, find_nonzero_same bytes xs {v = v})

pub new_nonce_same : (bytes : List ℕ) {v : List ℕ} → new_nonce bytes ≡ ok v → v ≡ bytes
unfolding new_nonce
new_nonce_same bytes e = find_nonzero_same bytes bytes e

checked-eq-ok {ℓ κ} :
    {A : Type ℓ} {E : Type κ} (m : Result A E) (rest : List ℕ) {a : A} {r : List ℕ}
    → checked m rest ≡ ok (a, r)
    → (m ≡ ok a) × (rest ≡ r)
checked-eq-ok (ok a) rest e = (cc, cc)
checked-eq-ok (err x) rest e = cc

-- A sixteen-byte array behind a check for a byte that is not 0.
abbrev nonzero_array : Reader (List ℕ)
nonzero_array bytes = do (value, rest) ← array 16 bytes; checked (find_nonzero value value) rest

nonzero_array-backward :
    (bytes a rest : List ℕ)
    → All IsByte bytes
    → nonzero_array bytes ≡ ok (a, rest)
    → (bytes ≡ a ++ rest) × (IsArray 16 a × (find_nonzero a a ≡ ok a)) × All IsByte rest
nonzero_array-backward bytes a rest h e =
    Reads-bind (array-Reads 16) bytes _ h e λ value r printed valid left found.
      let (hit, tail) = checked-eq-ok (find_nonzero value value) r found in
      let same = find_nonzero_same value value hit in
      (rw (same, ← tail) printed, (rw same valid, rw same (rw same at hit)), rw (← tail) left)

pub nonce-Reads : Reads nonce (λ a. a) IsNonce
unfolding nonce new_nonce
nonce-Reads = record {
  forward = λ a rest h. rw ((array-Reads 16).forward a rest h.0) (rw h.1);
  backward = nonzero_array-backward;
}

pub attachment_id-Reads : Reads attachment_id (λ a. a) IsNonce
unfolding attachment_id new_nonce new_attachment_id
attachment_id-Reads = record {
  forward = λ a rest h. rw ((array-Reads 16).forward a rest h.0) (rw h.1);
  backward = nonzero_array-backward;
}

new_version_range_lem :
    (low high : ℕ) (r : VersionRange)
    → new_version_range low high ≡ ok r
    → (r ≡ record { minimum = low; maximum = high }) × (low ≤ high)
unfolding new_version_range
new_version_range_lem low high r e = ground arith

pub new_version_range-IsRange :
    (r : VersionRange) → r.minimum ≤ r.maximum → new_version_range r.minimum r.maximum ≡ ok r
unfolding new_version_range
new_version_range-IsRange r h = ground arith

pub version_range-Reads : Reads version_range push_version_range IsRange
unfolding version_range push_version_range
version_range-Reads = record {
  forward = λ r rest h.
      rw
        (append_assoc, u16-Reads.forward r.minimum (to_be_bytes 2 r.maximum ++ rest) h.minimum_fits)
        (rw (u16-Reads.forward r.maximum rest h.maximum_fits)
          (rw (new_version_range-IsRange r h.ordered)));
  backward = λ bytes r rest h e. Reads-bind u16-Reads bytes _ h e λ low r1 b1 p1 h1 e1.
      Reads-bind u16-Reads r1 _ h1 e1 λ high r2 b2 p2 h2 e2.
        let (made, tail) = checked-eq-ok (new_version_range low high) r2 e2 in
        let (same, ordered) = new_version_range_lem low high r made in
        (
          rw (same, append_assoc, ← tail, ← b2) b1,
          rw same (record { minimum_fits = p1; maximum_fits = p2; ordered = ordered }),
          rw (← tail) h2,
        );
}

pub error-Reads : Reads error push_error IsCanonical
unfolding error push_error
error-Reads = record {
  forward = λ c rest h. rw (u16-Reads.forward (as_u16 c) rest h.0) (rw h.1);
  backward = λ bytes c rest h e. Reads-bind u16-Reads bytes _ h e λ value r1 b1 p1 h1 e1.
      let (code, tail) = ok-injective e1 in
      (
        rw (← code, as_u16-from_u16 value, ← tail) b1,
        (rw (← code, as_u16-from_u16 value) p1, rw (← code, as_u16-from_u16 value)),
        rw (← tail) h1,
      );
}

pub parameters-Reads : Reads parameters canonical_bytes IsParameters
unfolding parameters canonical_bytes
parameters-Reads = record {
  forward = λ p rest h. simp append_assoc (
      rw (u16-Reads.forward p.version _ h.version_fits) (
        rw (u64-Reads.forward p.capabilities _ h.capabilities_fit) (
          rw (nonce-Reads.forward p.client_nonce _ h.client_ok)
            (rw (nonce-Reads.forward p.server_nonce rest h.server_ok)))));
  backward = λ bytes p rest h e. Reads-bind u16-Reads bytes _ h e λ v r1 b1 p1 h1 e1.
      Reads-bind u64-Reads r1 _ h1 e1 λ c r2 b2 p2 h2 e2.
        Reads-bind nonce-Reads r2 _ h2 e2 λ n r3 b3 p3 h3 e3.
          Reads-bind nonce-Reads r3 _ h3 e3 λ m r4 b4 p4 h4 e4.
            let (same, tail) = ok-injective e4 in
            (
              rw (← same) (simp append_assoc (rw (← tail, ← b4, ← b3, ← b2) b1)),
              rw (← same) (record {
                version_fits = p1;
                capabilities_fit = p2;
                client_ok = p3;
                server_ok = p4;
              }),
              rw (← tail) h4,
            );
}
