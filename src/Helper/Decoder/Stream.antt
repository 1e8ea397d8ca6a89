-- ===== src/Helper/Decoder/Stream.antt =====
-- A stream of bytes that reaches `RequestDecoder::push` (crates/velum-helper-protocol/src/lib.rs)
-- in chunks, as a socket cuts it, and the frames of `encode` in it.
use velum.Prelude.{
  ℕ, ◌≡◌, refl, ap, sym, ◌∙◌, Option, List, [], ◌∷◌, ◌++◌, append_assoc, append-nil,
}
use velum.Helper.{Request}
use velum.Helper.Decoder.{
  RequestDecoder, cleared, Outcome, yields, fails, crashes, out_of_fuel, push,
}
use velum.Helper.Decoder.Feed.{Fed, waits, emits, refuses, feed_all}
use velum.Helper.Decoder.Filling.{resume}
use velum.Helper.Decoder.Equivalence.{push-feed_all}
use velum.Helper.Decoder.Valid.{IsValid, IsSafe, feed_all-cons, feed_all-IsSafe}

abbrev pub concat : List (List ℕ) → List ℕ
concat [] = []
concat (chunk ∷ chunks) = chunk ++ concat chunks

-- A call's requests behind those of the calls before it.
abbrev pub after : List Request → Outcome → Outcome
after before (yields requests self) = yields (before ++ requests) self
after before (fails error self) = fails error self
after before crashes = crashes
after before out_of_fuel = out_of_fuel

after-after :
    (xs ys : List Request) (out : Outcome) → after (xs ++ ys) out ≡ after xs (after ys out)
after-after xs ys (yields requests self) = ap (λ rs. yields rs self) (append_assoc xs ys requests)
after-after xs ys (fails error self) = refl
after-after xs ys crashes = refl
after-after xs ys out_of_fuel = refl

after-nil : (out : Outcome) → after [] out ≡ out
after-nil (yields requests self) = refl
after-nil (fails error self) = refl
after-nil crashes = refl
after-nil out_of_fuel = refl

-- What follows a call, when it does not fail.
abbrev pub carry_on : Outcome → (RequestDecoder → Outcome) → Outcome
carry_on (yields requests next) rest = after requests (rest next)
carry_on (fails error next) rest = fails error next
carry_on crashes rest = crashes
carry_on out_of_fuel rest = out_of_fuel

carry_on-eq :
    (out : Outcome) (f g : RequestDecoder → Outcome)
    → IsSafe out
    → ((next : RequestDecoder) → IsValid next → f next ≡ g next)
    → carry_on out f ≡ carry_on out g
carry_on-eq (yields requests next) f g h e = ap (after requests) (e next h.0)
carry_on-eq (fails error next) f g h e = refl
carry_on-eq crashes f g h e = refl
carry_on-eq out_of_fuel f g h e = refl

module _ (from_slice : List ℕ → Option Request) where
  -- A caller that pushes each chunk as it arrives, and stops at an error.
  unfoldable pub push_all : RequestDecoder → List (List ℕ) → Outcome
  push_all self [] = yields [] self
  push_all self (chunk ∷ chunks) =
      carry_on (push from_slice self chunk) (λ next. push_all next chunks)

  resume-after :
      (f : Fed) (bytes : List ℕ) (xs ys : List Request)
      → ((self : RequestDecoder) (zs : List Request)
          → feed_all from_slice self bytes (xs ++ zs)
            ≡ after xs (feed_all from_slice self bytes zs))
      → resume from_slice f bytes (xs ++ ys) ≡ after xs (resume from_slice f bytes ys)
  resume-after (waits next) bytes xs ys ih = ih next ys
  resume-after (emits request) bytes xs ys ih =
      rw (append_assoc xs ys (request ∷ [])) (ih cleared (ys ++ (request ∷ [])))
  resume-after (refuses error) bytes xs ys ih = refl

  feed_all-after :
      (bytes : List ℕ) (self : RequestDecoder) (xs ys : List Request)
      → feed_all from_slice self bytes (xs ++ ys) ≡ after xs (feed_all from_slice self bytes ys)
  unfolding feed_all
  feed_all-after [] self xs ys = refl
  feed_all-after (byte ∷ bytes) self xs ys =
      rw
        (
          feed_all-cons from_slice self byte bytes (xs ++ ys) _ refl,
          feed_all-cons from_slice self byte bytes ys _ refl,
        )
        (resume-after _ bytes xs ys (λ next zs. feed_all-after bytes next xs zs))

  resume-append :
      (f : Fed) (xs ys : List ℕ) (requests : List Request)
      → ((self : RequestDecoder) (more : List Request)
          → feed_all from_slice self (xs ++ ys) more
            ≡ carry_on (feed_all from_slice self xs more) (λ next. feed_all from_slice next ys []))
      → resume from_slice f (xs ++ ys) requests
        ≡ carry_on (resume from_slice f xs requests) (λ next. feed_all from_slice next ys [])
  resume-append (waits next) xs ys requests ih = ih next requests
  resume-append (emits request) xs ys requests ih = ih cleared (requests ++ (request ∷ []))
  resume-append (refuses error) xs ys requests ih = refl

  feed_all-append :
      (xs ys : List ℕ) (self : RequestDecoder) (requests : List Request)
      → feed_all from_slice self (xs ++ ys) requests
        ≡ carry_on (feed_all from_slice self xs requests) (λ next. feed_all from_slice next ys [])
  unfolding feed_all
  feed_all-append [] ys self requests =
      sym (ap (feed_all from_slice self ys) (append-nil requests))
      ∙ feed_all-after ys self requests []
  feed_all-append (byte ∷ xs) ys self requests =
      rw
        (
          feed_all-cons from_slice self byte (xs ++ ys) requests _ refl,
          feed_all-cons from_slice self byte xs requests _ refl,
        )
        (resume-append _ xs ys requests (feed_all-append xs ys))

  pub push_all-feed_all :
      (chunks : List (List ℕ)) (self : RequestDecoder)
      → IsValid self
      → push_all self chunks ≡ feed_all from_slice self (concat chunks) []
  unfolding push_all feed_all
  push_all-feed_all [] self h = refl
  push_all-feed_all (chunk ∷ chunks) self h =
      rw (push-feed_all from_slice self chunk h.0, feed_all-append chunk (concat chunks) self [])
        (carry_on-eq (feed_all from_slice self chunk []) _ _
          (feed_all-IsSafe from_slice chunk self [] h) (push_all-feed_all chunks))

-- However a stream is cut into chunks, pushing the chunks one after another gives what one push
-- of the whole stream gives: the same requests in the same order and the same decoder, or the
-- same error.
pub push_all-concat :
    (from_slice : List ℕ → Option Request) (self : RequestDecoder) (chunks : List (List ℕ))
    → IsValid self
    → push_all from_slice self chunks ≡ push from_slice self (concat chunks)
push_all-concat from_slice self chunks h =
    push_all-feed_all from_slice chunks self h
    ∙ sym (push-feed_all from_slice self (concat chunks) h.0)
