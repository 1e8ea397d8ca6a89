-- ===== src/Routing/Decide.antt =====
-- Which rule of a policy decides (crates/velum-client-routing/src/lib.rs).
use velum.Prelude.{
  ℕ, ◌≡◌, ◌≤◌, refl, ap, sym, ◌∙◌, ◌⊎◌, ◌↔◌, inl, inr, true, false, Option, none, some, List, [],
  ◌∷◌, ◌++◌, Bool-cases, Option-cases, All, Result, ok, err, bytes_eq_iff, arith,
}
use velum.Routing.{
  RuleMatcher, domain, domain_suffix, ip_cidr, destination_port, match_all, RoutingRule,
  RoutingPolicy, RouteContext, RoutingAction, proxy, matches, first_action, decide, normalized,
  normalize_domain, to_option,
}
use velum.Routing.Cidr.{IsIpAddr, Agree, mask_iff, contains-made}
use velum.Routing.Suffix.{matches-domain_suffix}
use velum.Routing.Normal.{IsNormal, normalize_domain_iff}
use velum.Routing.Parsed.{IsMatcher, IsRule}

-- The context has a domain, which stands for the name.
abbrev pub IsNamed : (List ℕ → List ℕ) → RouteContext → List ℕ → Type 0
IsNamed trim context name = (text : List ℕ) × (context.domain ≡ some text) × IsNormal trim text name

-- What a rule asks of a context: its name is the one of the rule, or has the suffix of the rule behind
-- a dot or is that suffix; its address agrees with the network on the bits of the prefix; its port is
-- in the range; or nothing.
abbrev pub Applies : (List ℕ → List ℕ) → RouteContext → RuleMatcher → Type 0
Applies trim context (domain name) = IsNamed trim context name
Applies trim context (domain_suffix suffix) =
    (name : List ℕ) × IsNamed trim context name
    × ((name ≡ suffix) ⊎ ((labels : List ℕ) × (name ≡ labels ++ (46 ∷ suffix))))
Applies trim context (ip_cidr cidr) = Agree cidr.prefix_length context.destination cidr.network
Applies trim context (destination_port range) =
    (range.start ≤ context.destination_port) × (context.destination_port ≤ range.end)
Applies trim context match_all = Unit

to_option_iff {ℓ κ} :
    {A : Type ℓ} {E : Type κ} (r : Result A E) (a : A) → (to_option r ≡ some a) ↔ (r ≡ ok a)
to_option_iff (ok b) a = (λ e. cc, λ e. cc)
to_option_iff (err b) a = (λ e. cc, λ e. cc)

normalized_iff :
    (trim : List ℕ → List ℕ) (context : RouteContext) (name : List ℕ)
    → (normalized trim context.domain ≡ some name) ↔ IsNamed trim context name
normalized_iff trim context name = (
  λ e. elim (Option-cases context.domain) [
    | inl missing ↦ let f = sym (ap (normalized trim) missing) ∙ e in cc
    | inr (text, found) ↦
        let made =
          (to_option_iff (normalize_domain trim text) name).0
            (sym (ap (normalized trim) found) ∙ e) in
        (text, found, (normalize_domain_iff trim text name).0 made)
  ],
  λ (text, found, normal).
      ap (normalized trim) found ∙ ap to_option ((normalize_domain_iff trim text name).1 normal),
)

-- The name that a test asks for.
named-by :
    (m : RuleMatcher) (context : RouteContext) (name : Option (List ℕ))
    → (matches m context none ≡ false)
    → matches m context name ≡ true
    → (actual : List ℕ) × (name ≡ some actual) × (matches m context (some actual) ≡ true)
named-by m context none never h = let f = sym never ∙ h in cc
named-by m context (some actual) never h = (actual, refl, h)

matches_iff :
    (trim : List ℕ → List ℕ) (context : RouteContext) (m : RuleMatcher)
    → IsMatcher m
    → IsIpAddr context.destination
    → (matches m context (normalized trim context.domain) ≡ true) ↔ Applies trim context m
unfolding matches
matches_iff trim context (domain expected) v a =
    let name = normalized trim context.domain in
    (
      λ h.
          let (actual, found, same) = named-by (domain expected) context name refl h in
          (normalized_iff trim context expected).0
            (found ∙ ap some ((bytes_eq_iff actual expected).0 same)),
      λ n.
          ap (matches (domain expected) context) ((normalized_iff trim context expected).1 n)
          ∙ (bytes_eq_iff expected expected).1 refl,
    )
matches_iff trim context (domain_suffix suffix) v a =
    let name = normalized trim context.domain in
    (
      λ h.
          let (actual, found, same) = named-by (domain_suffix suffix) context name refl h in
          (
            actual,
            (normalized_iff trim context actual).0 found,
            (matches-domain_suffix suffix actual context).0 same,
          ),
      λ (actual, n, parts).
          ap (matches (domain_suffix suffix) context) ((normalized_iff trim context actual).1 n)
          ∙ (matches-domain_suffix suffix actual context).1 parts,
    )
matches_iff trim context (ip_cidr cidr) (address, fits, clean) a =
    contains-made cidr.network context.destination cidr.prefix_length fits
      ((mask_iff cidr.network cidr.prefix_length fits address).1 clean) address a
matches_iff trim context (destination_port range) v a =
    (λ h. (ground arith, ground arith), λ h. ground arith)
matches_iff trim context match_all v a = (λ h. tt, λ h. refl)

-- A rule that asks what the context does not have.
abbrev pub Misses : (List ℕ → List ℕ) → RouteContext → RoutingRule → Type 0
Misses trim context rule = Applies trim context rule.matcher → ⊥

-- The rules before the one that decides do not apply, and it does.
abbrev pub Decides : (List ℕ → List ℕ) → RouteContext → List RoutingRule → RoutingAction → Type 0
Decides trim context rules action =
    (before after : List RoutingRule) × (rule : RoutingRule) × (rules ≡ before ++ (rule ∷ after))
    × All (Misses trim context) before
    × Applies trim context rule.matcher
    × (action ≡ rule.action)

first_action-Decides :
    (trim : List ℕ → List ℕ) (rules : List RoutingRule) (context : RouteContext)
    → All IsRule rules
    → IsIpAddr context.destination
    → let action = first_action rules context (normalized trim context.domain) in
      Decides trim context rules action ⊎ (All (Misses trim context) rules × (action ≡ proxy))
unfolding first_action
first_action-Decides trim [] context v a = inr (tt, refl)
first_action-Decides trim (rule ∷ rules) context v a =
    let meaning = matches_iff trim context rule.matcher v.0 a in
    elim (Bool-cases (matches rule.matcher context (normalized trim context.domain))) [
      | inl hit ↦ inl ([], rules, rule, refl, tt, meaning.0 hit, simp hit refl)
      | inr miss ↦
          let skip : Misses trim context rule = λ h. let f = sym miss ∙ meaning.1 h in cc in
          elim (first_action-Decides trim rules context v.1 a) [
            | inl (before, after, chosen, parts, skipped, hit, action) ↦ inl (
              rule ∷ before,
              after,
              chosen,
              ap (◌∷◌ rule) parts,
              (skip, skipped),
              hit,
              simp miss action,
            )
            | inr (skipped, action) ↦ inr ((skip, skipped), simp miss action)
          ]
    ]

-- On a policy of well-formed rules, as `parse_policy` makes them, and a destination that fits its
-- family: `decide` gives the action of the first rule that applies, and `Proxy` when none does. A rule
-- of a domain applies when the context has one and it stands, without white space around it, dots at
-- its end and capitals, for a name that is the rule's, or that is its suffix or ends in a dot and it; a
-- rule of a network when the leading bits agree; one of ports when the port lies in the range.
pub decide-first :
    (trim : List ℕ → List ℕ) (self : RoutingPolicy) (context : RouteContext)
    → All IsRule self.rules
    → IsIpAddr context.destination
    → Decides trim context self.rules (decide trim self context)
      ⊎ (All (Misses trim context) self.rules × (decide trim self context ≡ proxy))
unfolding decide
decide-first trim self context v a = first_action-Decides trim self.rules context v a
