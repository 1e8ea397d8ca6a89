-- ===== src/Tun/Registry/Grants.antt =====
-- What an admission of crates/velum-adapter-tun/src/lib.rs gives: a lease of the current generation.
use velum.Prelude.{
  ℕ, ◌≡◌, ◌≢◌, refl, ap, sym, ◌∙◌, ◌≤◌, ◌<◌, false, Option, none, some, List, Result, ok, err, ◌==◌,
  leb, ==_iff, true, [], ◌∷◌, Bool-cases, inl, inr, arith,
}
use mathlib.Core.Path.{subst}
use velum.Runtime.Control.{ClientRuntime, is_generation_online}
use velum.Net.{ip_eq_iff}
use velum.Tun.{FlowKey, FlowProtocol, tcp, udp, SocketAddr}
use velum.Tun.Registry.{
  TunFlowRegistry, FlowAdmissionError, admit, admit_at, admit_new, current_generation, is_active,
  lease_of, without, used, limit_of, with_lease, not_online, key_eq, same_protocol, socket_eq,
}

same_protocol_refl : (p : FlowProtocol) → same_protocol p p ≡ true
same_protocol_refl tcp = refl
same_protocol_refl udp = refl

socket_eq_refl : (a : SocketAddr) → socket_eq a a ≡ true
socket_eq_refl a =
    simp
      (
        (ip_eq_iff a.ip a.ip).1 refl,
        (==_iff a.port a.port).1 refl,
        (==_iff a.flow_info a.flow_info).1 refl,
        (==_iff a.scope_id a.scope_id).1 refl,
      )
      refl

key_eq_refl : (key : FlowKey) → key_eq key key ≡ true
key_eq_refl key =
    let source = socket_eq_refl key.source in
    let destination = socket_eq_refl key.destination in
    simp (same_protocol_refl key.protocol, source, destination) refl

lease_of-with_lease :
    (key : FlowKey) (g : ℕ) (flows : List (FlowKey × ℕ))
    → lease_of key (with_lease key g flows) ≡ some g
unfolding lease_of with_lease
lease_of-with_lease key g [] = simp (key_eq_refl key) refl
lease_of-with_lease key g ((k, lease) ∷ flows) = elim (Bool-cases (key_eq k key)) [
  | inl same ↦ simp (same, same) refl
  | inr other ↦ simp (other, other) (lease_of-with_lease key g flows)
]

-- An answer that is the generation asked for, with a lease of it, or an error.
abbrev Grants : FlowKey → ℕ → Result ℕ FlowAdmissionError × TunFlowRegistry → Type 0
Grants key g (ok k, next) = (k ≡ g) × (lease_of key next.flows ≡ some k)
Grants key g (err error, next) = Unit

admit_new-Grants :
    (self : TunFlowRegistry) (key : FlowKey) (g : ℕ) → Grants key g (admit_new self key g)
unfolding admit_new
admit_new-Grants self key g =
    elim (Bool-cases (leb (limit_of key.protocol self.limits) (used key.protocol self.flows))) [
      | inl full ↦ simp full tt
      | inr room ↦ simp room (refl, lease_of-with_lease key g self.flows)
    ]

admit_at-Grants :
    (self : TunFlowRegistry) (key : FlowKey) (g : ℕ) (lease : Option ℕ)
    → lease_of key self.flows ≡ lease
    → Grants key g (admit_at self key g lease)
unfolding admit_at
admit_at-Grants self key g none found = admit_new-Grants self key g
admit_at-Grants self key g (some lease) found = elim (Bool-cases (lease == g)) [
  | inl same ↦ simp same (refl, found ∙ ap some ((==_iff lease g).0 same))
  | inr other ↦ simp other (admit_new-Grants (record self { flows = without key self.flows }) key g)
]

admit-Grants :
    (runtime : ClientRuntime) (self : TunFlowRegistry) (key : FlowKey)
    → Grants key runtime.published.generation (admit runtime self key)
unfolding admit current_generation
admit-Grants runtime self key =
    elim (Bool-cases (is_generation_online runtime runtime.published.generation)) [
      | inl on ↦
          simp on
            (admit_at-Grants self key runtime.published.generation (lease_of key self.flows) refl)
      | inr off ↦ simp off tt
    ]

-- Only a runtime that is online admits.
admitted_online :
    (runtime : ClientRuntime) (self next : TunFlowRegistry) (key : FlowKey) (k : ℕ)
    → admit runtime self key ≡ (ok k, next)
    → is_generation_online runtime runtime.published.generation ≡ true
unfolding admit current_generation
admitted_online runtime self next key k e =
    elim (Bool-cases (is_generation_online runtime runtime.published.generation)) [
      | inl on ↦ on
      | inr off ↦
          let refused : admit runtime self key ≡ (err not_online, self) = simp off refl in absurd cc
    ]

pub admitted_active :
    (runtime : ClientRuntime) (self next : TunFlowRegistry) (key : FlowKey) (k : ℕ)
    → admit runtime self key ≡ (ok k, next)
    → (k ≡ runtime.published.generation) × (is_active runtime next key k ≡ true)
unfolding is_active
admitted_active runtime self next key k e =
    let (same, held) =
      subst (Grants key runtime.published.generation) e (admit-Grants runtime self key) in
    let on : is_generation_online runtime k ≡ true =
      rw same (admitted_online runtime self next key k e) in
    (same, simp (on, held, (==_iff k k).1 refl) refl)

-- An admission, if there is one, in a generation above `k`.
abbrev pub Above : ℕ → Result ℕ FlowAdmissionError → Type 0
Above k (ok k') = k < k'
Above k (err error) = Unit

Grants-Above :
    (key : FlowKey) (k g : ℕ) (answer : Result ℕ FlowAdmissionError × TunFlowRegistry)
    → Grants key g answer
    → k < g
    → Above k answer.0
Grants-Above key k g (ok k', next) granted low = omega (arith, granted.0)
Grants-Above key k g (err error, next) granted low = tt

pub admit-Above :
    (runtime : ClientRuntime) (self : TunFlowRegistry) (key : FlowKey) (k : ℕ)
    → is_generation_online runtime k ≡ false
    → k ≤ runtime.published.generation
    → Above k (admit runtime self key).0
admit-Above runtime self key k over low =
    let now = runtime.published.generation in
    elim (Bool-cases (is_generation_online runtime now)) [
      | inl on ↦
          let other : k ≢ now =
            λ same. let f = sym (ap (is_generation_online runtime) same) ∙ over in cc in
          Grants-Above key k now (admit runtime self key) (admit-Grants runtime self key)
            (omega (arith, other))
      | inr off ↦
          let refused : admit runtime self key ≡ (err not_online, self) =
            unfold admit current_generation in simp off refl in
          rw refused tt
    ]
