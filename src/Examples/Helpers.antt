-- ===== src/Examples/Helpers.antt =====
-- Streams of crates/velum-helper-protocol/src/lib.rs. The codec of bodies writes requests for the
-- status.
use velum.Prelude.{ℕ, ◌≡◌, refl, Option, none, some, List, [], ◌∷◌, ◌++◌, ok, to_be_bytes, arith}
use mathlib.Core.Path.{subst}
use velum.Helper.{Capability, Command, hello, status, stop, recover, start, Request, encode}
use velum.Helper.Decoder.{cleared, yields, push}
use velum.Helper.Decoder.Feed.{feed_all}
use velum.Helper.Decoder.Equivalence.{push-feed_all}
use velum.Helper.Decoder.Valid.{IsSafe, push-IsSafe}
use velum.Helper.Decoder.Stream.{push_all}
use velum.Helper.Decoder.Frames.{push_all-encode}

abbrev status_request : ℕ → ℕ → ℕ → Request
status_request version id generation = record {
  version = version;
  request_id = id;
  profile_generation = generation;
  capabilities = [];
  command = status;
}

abbrev from_slice : List ℕ → Option Request
from_slice (v ∷ (i ∷ (g ∷ []))) = some (status_request v i g)
from_slice _ = none

abbrev write : ℕ → ℕ → ℕ → List Capability → Command → Option (List ℕ)
write v i g [] status = some (v ∷ (i ∷ (g ∷ [])))
write v i g _ _ = none

abbrev to_vec : Request → Option (List ℕ)
to_vec r = write r.version r.request_id r.profile_generation r.capabilities r.command

written :
    (v i g : ℕ) (capabilities : List Capability) (command : Command) (body : List ℕ)
    → write v i g capabilities command ≡ some body
    → from_slice body
      ≡ some (record {
        version = v;
        request_id = i;
        profile_generation = g;
        capabilities = capabilities;
        command = command;
      })
written v i g [] status body e =
    let same : v ∷ (i ∷ (g ∷ [])) ≡ body = cc in
    subst (λ b. from_slice b ≡ some (status_request v i g)) same refl
written v i g [] hello body e = cc
written v i g [] stop body e = cc
written v i g [] recover body e = cc
written v i g [] (start parameters) body e = cc
written v i g (c ∷ capabilities) hello body e = cc
written v i g (c ∷ capabilities) status body e = cc
written v i g (c ∷ capabilities) stop body e = cc
written v i g (c ∷ capabilities) recover body e = cc
written v i g (c ∷ capabilities) (start parameters) body e = cc

from_slice-to_vec : (r : Request) (body : List ℕ) → to_vec r ≡ some body → from_slice body ≡ some r
from_slice-to_vec r body e =
    written r.version r.request_id r.profile_generation r.capabilities r.command body e

abbrev frame : ℕ → List ℕ
frame id = 0 ∷ (0 ∷ (0 ∷ (3 ∷ (1 ∷ (id ∷ (7 ∷ []))))))

encode_status : encode to_vec (status_request 1 4 7) ≡ ok (frame 4)
unfolding encode to_be_bytes
encode_status = refl

encode_status_again : encode to_vec (status_request 1 5 7) ≡ ok (frame 5)
unfolding encode to_be_bytes
encode_status_again = refl

-- Two frames in three chunks.
push_all-encode_example :
    push_all from_slice cleared (
      (0 ∷ (0 ∷ []))
      ∷ ((0 ∷ (3 ∷ (1 ∷ (4 ∷ (7 ∷ (0 ∷ [])))))) ∷ ((0 ∷ (0 ∷ (3 ∷ (1 ∷ (5 ∷ (7 ∷ [])))))) ∷ [])))
    ≡ yields (status_request 1 4 7 ∷ (status_request 1 5 7 ∷ [])) cleared
push_all-encode_example =
    push_all-encode to_vec from_slice from_slice-to_vec
      (status_request 1 4 7 ∷ (status_request 1 5 7 ∷ [])) (frame 4 ∷ (frame 5 ∷ [])) _
      (encode_status, refl, (encode_status_again, refl, tt)) refl

push-feed_all_example :
    push from_slice cleared (frame 4 ++ (0 ∷ []))
    ≡ feed_all from_slice cleared (frame 4 ++ (0 ∷ [])) []
push-feed_all_example = push-feed_all from_slice cleared (frame 4 ++ (0 ∷ [])) (omega arith)

push-IsSafe_example : IsSafe (push from_slice cleared (frame 4 ++ (0 ∷ (9 ∷ (0 ∷ (0 ∷ []))))))
push-IsSafe_example =
    push-IsSafe from_slice cleared (frame 4 ++ (0 ∷ (9 ∷ (0 ∷ (0 ∷ []))))) (omega arith, tt)
