-- ===== src/Routing/Parsed.antt =====
-- What a policy that was read from text holds (crates/velum-client-routing/src/lib.rs).
use velum.Prelude.{
  ℕ, suc, ◌≡◌, ◌≢◌, ap, ◌∙◌, refl, sym, ◌≤◌, ◌<◌, Bool, true, false, ◌||◌, not, Option, some, List,
  [], ◌∷◌, Result, ok, err, ltb, ◌==◌, if◌then◌else◌, is_empty, bytes_eq, ◌>>=◌, map_err, ok_or,
  map, >>=-elim, map_err-eq-ok, ok_or-eq-ok, arith, All, Bool-cases, inl, inr,
}
use mathlib.Core.Path.{subst}
use velum.Net.{IpAddr}
use velum.Routing.{
  RoutingError, port_range_invalid, match_not_final, port_invalid, cidr_shape, cidr_address_invalid,
  cidr_prefix_invalid, RuleMatcher, domain, domain_suffix, ip_cidr, destination_port, match_all,
  RoutingRule, RoutingPolicy, PortRange, IpCidr, new_port_range, new_cidr, mask, width_of,
  new_policy, match_is_final, is_match_all, normalize_domain, split,
}
use velum.Routing.Cidr.{IsIpAddr, IsNetwork, mask_iff, new_cidr-eq-ok}
use velum.Routing.Names.{IsName}
use velum.Routing.Normal.{normalize_domain_iff}
use velum.Routing.Text.{
  domain_word, domain_suffix_word, ip_cidr_word, dst_port_word, match_word, split_once,
  parse_unsigned, parse_port_range, both_or, parse_cidr, parse_matcher, parse_action, with_action,
  parse_fields, any_empty, parse_rule, lines, parse_lines, parse_policy,
}

-- Names are names, a network has a prefix of its family and no bit behind it, and a range of ports
-- starts above 0 and not behind its end.
abbrev pub IsMatcher : RuleMatcher → Type 0
IsMatcher (domain name) = IsName name
IsMatcher (domain_suffix name) = IsName name
IsMatcher (ip_cidr cidr) =
    IsIpAddr cidr.network
    × (cidr.prefix_length ≤ width_of cidr.network)
    × IsNetwork cidr.prefix_length cidr.network
IsMatcher (destination_port range) = (0 < range.start) × (range.start ≤ range.end)
IsMatcher match_all = Unit

abbrev pub IsRule : RoutingRule → Type 0
IsRule rule = IsMatcher rule.matcher

-- A check that passed.
passed {ℓ} :
    {A : Type ℓ} {E : Type 0} (refused : Bool) (error : E) (value out : A)
    → (if refused then err error else ok value) ≡ ok out
    → (refused ≡ false) × (value ≡ out)
passed true error value out e = cc
passed false error value out e = (refl, cc)

normalize_domain-IsName :
    (trim : List ℕ → List ℕ) (text name : List ℕ)
    → normalize_domain trim text ≡ ok name
    → IsName name
normalize_domain-IsName trim text name e =
    let (stem, dots, parts, all, end, lowers, named) = (normalize_domain_iff trim text name).0 e in
    named

new_port_range-bounds :
    (start end : ℕ) (range : PortRange)
    → new_port_range start end ≡ ok range
    → (0 < range.start) × (range.start ≤ range.end)
unfolding new_port_range
new_port_range-bounds start end range e =
    let made : PortRange = record { start = start; end = end } in
    let (fine, same) = passed (start == 0 || ltb end start) port_range_invalid made range e in
    subst (λ (r : PortRange). (0 < r.start) × (r.start ≤ r.end)) same (ground arith, ground arith)

new_cidr-IsMatcher :
    (network : IpAddr) (prefix : ℕ) (cidr : IpCidr)
    → IsIpAddr network
    → new_cidr network prefix ≡ ok cidr
    → IsMatcher (ip_cidr cidr)
new_cidr-IsMatcher network prefix cidr h e =
    let (made, fits, clean) = new_cidr-eq-ok network prefix cidr e in
    subst (λ (c : IpCidr). IsMatcher (ip_cidr c)) (sym made)
      (
        h,
        fits,
        (mask_iff network prefix fits h).0 (subst (λ c. mask c network ≡ network) made clean),
      )

module _ (trim : List ℕ → List ℕ) (parse_ip : List ℕ → Option IpAddr)
    (addresses : (text : List ℕ) (a : IpAddr) → parse_ip text ≡ some a → IsIpAddr a) where
  -- A result that satisfies `P` if it is one.
  abbrev Ensures {ℓ} : {A : Type ℓ} → (A → Type 0) → Result A RoutingError → Type ℓ
  Ensures {A = A} P r = (a : A) → r ≡ ok a → P a

  bind-Ensures {ℓ κ} :
      {A : Type ℓ} {B : Type κ} (P : B → Type 0) (m : Result A RoutingError)
      (f : A → Result B RoutingError)
      → ((a : A) → m ≡ ok a → Ensures P (f a))
      → Ensures P (m >>= f)
  bind-Ensures P m f h b e = >>=-elim m f e (λ a p q. h a p b q)

  if-Ensures {ℓ} :
      {A : Type ℓ} (P : A → Type 0) (test : Bool) (x y : Result A RoutingError)
      → Ensures P x
      → Ensures P y
      → Ensures P (if test then x else y)
  if-Ensures P true x y h k = h
  if-Ensures P false x y h k = k

  parse_port_range-bounds :
      (text : List ℕ)
      → Ensures (λ (r : PortRange). (0 < r.start) × (r.start ≤ r.end)) (parse_port_range trim text)
  unfolding parse_port_range
  parse_port_range-bounds text =
      let parts = both_or (trim text) (split_once 45 (trim text)) in
      bind-Ensures _ (ok_or (parse_unsigned 65536 parts.0) port_invalid) _ (λ start p.
        bind-Ensures _ (ok_or (parse_unsigned 65536 parts.1) port_invalid) _
          (λ end q. new_port_range-bounds start end))

  parse_cidr-IsMatcher :
      (text : List ℕ) → Ensures (λ c. IsMatcher (ip_cidr c)) (parse_cidr trim parse_ip text)
  unfolding parse_cidr
  parse_cidr-IsMatcher text =
      bind-Ensures _ (ok_or (split_once 47 (trim text)) cidr_shape) _ (λ parts p.
        bind-Ensures _ (ok_or (parse_ip parts.0) cidr_address_invalid) _ (λ network q.
          bind-Ensures _ (ok_or (parse_unsigned 256 parts.1) cidr_prefix_invalid) _
            (λ prefix r cidr.
              new_cidr-IsMatcher network prefix cidr (
                addresses parts.0 network
                  (ok_or-eq-ok (parse_ip parts.0) cidr_address_invalid q)))))

  -- A value that a constructor wraps.
  wrapped :
      {A : Type 0} (m : Result A RoutingError) (wrap : A → RuleMatcher)
      → Ensures (λ a. IsMatcher (wrap a)) m
      → Ensures IsMatcher (m >>= λ a. ok (wrap a))
  wrapped (ok a) wrap h out e = let same : wrap a ≡ out = cc in subst IsMatcher same (h a refl)
  wrapped (err f) wrap h out e = cc

  parse_matcher-IsMatcher :
      (kind value : List ℕ) → Ensures IsMatcher (parse_matcher trim parse_ip kind value)
  unfolding parse_matcher
  parse_matcher-IsMatcher kind value =
      if-Ensures IsMatcher (bytes_eq kind domain_word) _ _
        (wrapped (normalize_domain trim value) domain (normalize_domain-IsName trim value))
        (if-Ensures IsMatcher (bytes_eq kind domain_suffix_word) _ _
          (wrapped (normalize_domain trim value) domain_suffix (normalize_domain-IsName trim value))
          (if-Ensures IsMatcher (bytes_eq kind ip_cidr_word) _ _
            (wrapped (parse_cidr trim parse_ip value) ip_cidr (parse_cidr-IsMatcher value))
            (if-Ensures IsMatcher (bytes_eq kind dst_port_word) _ _
              (wrapped (parse_port_range trim value) destination_port
                (parse_port_range-bounds value))
              (λ out e. cc))))

  with_action-IsRule :
      (m : Result RuleMatcher RoutingError) (action : List ℕ)
      → Ensures IsMatcher m
      → Ensures IsRule (with_action m action)
  with_action-IsRule m action h = bind-Ensures IsRule m _ (λ matcher p.
      bind-Ensures IsRule (parse_action action) _ (λ a q rule e.
        let made : RoutingRule = record { matcher = matcher; action = a } in
        let same : made ≡ rule = cc in subst IsRule same (h matcher p)))

  parse_fields-IsRule :
      (fields : List (List ℕ)) → Ensures IsRule (parse_fields trim parse_ip fields)
  unfolding parse_fields
  parse_fields-IsRule [] = λ rule e. cc
  parse_fields-IsRule (kind ∷ []) = λ rule e. cc
  parse_fields-IsRule (kind ∷ (action ∷ [])) =
      if-Ensures IsRule (bytes_eq kind match_word) _ _
        (with_action-IsRule (ok match_all) action
          (λ m e. let same : match_all ≡ m = cc in subst IsMatcher same tt))
        (λ rule e. cc)
  parse_fields-IsRule (kind ∷ (value ∷ (action ∷ []))) =
      with_action-IsRule (parse_matcher trim parse_ip kind value) action
        (parse_matcher-IsMatcher kind value)
  parse_fields-IsRule (kind ∷ (value ∷ (action ∷ (more ∷ fields)))) = λ rule e. cc

  parse_rule-IsRule : (source : List ℕ) → Ensures IsRule (parse_rule trim parse_ip source)
  unfolding parse_rule
  parse_rule-IsRule source =
      let fields = map trim ((split 44 source).0 ∷ (split 44 source).1) in
      if-Ensures IsRule (any_empty fields) _ _ (λ rule e. cc) (parse_fields-IsRule fields)

  parse_lines-IsRule :
      (number : ℕ) (source : List (List ℕ))
      → Ensures (All IsRule) (parse_lines trim parse_ip number source)
  unfolding parse_lines
  parse_lines-IsRule number [] = λ rules e. let same : [] ≡ rules = cc in subst (All IsRule) same tt
  parse_lines-IsRule number (line ∷ rest) =
      if-Ensures (All IsRule) (is_empty (trim line)) _ _ (parse_lines-IsRule (suc number) rest) (
        bind-Ensures (All IsRule)
          (map_err (RoutingError.invalid_on_line number) (parse_rule trim parse_ip (trim line))) _
          (λ rule p.
            bind-Ensures (All IsRule) (parse_lines trim parse_ip (suc number) rest) _
              (λ later q rules e.
                let same : rule ∷ later ≡ rules = cc in
                subst (All IsRule) same (
                  parse_rule-IsRule (trim line) rule
                      (map_err-eq-ok (RoutingError.invalid_on_line number) _ p),
                  parse_lines-IsRule (suc number) rest later q,
                ))))

-- No rule but the last is a `MATCH`.
abbrev pub MatchIsLast : List RoutingRule → Type 0
MatchIsLast [] = Unit
MatchIsLast (rule ∷ []) = Unit
MatchIsLast (rule ∷ (next ∷ rules)) = (rule.matcher ≢ match_all) × MatchIsLast (next ∷ rules)

match_is_final-MatchIsLast :
    (rules : List RoutingRule) → match_is_final rules ≡ true → MatchIsLast rules
unfolding match_is_final
match_is_final-MatchIsLast [] h = tt
match_is_final-MatchIsLast (rule ∷ []) h = tt
match_is_final-MatchIsLast (rule ∷ (next ∷ rules)) h =
    elim (Bool-cases (is_match_all rule.matcher)) [
      | inl hit ↦ absurd (ground arith)
      | inr miss ↦ (
        λ e. let f = sym miss ∙ ap is_match_all e in cc,
        match_is_final-MatchIsLast (next ∷ rules) (ground arith),
      )
    ]

-- Where the parser of addresses gives addresses that fit the words of their family, a policy that is
-- read from text is well formed: every name in it is labels joined by dots, at most 253 bytes, each
-- label of 1 to 63 digits, small letters and hyphens with none at its ends; every network has a prefix
-- of at most its width and only zeros behind it; every port range starts above 0 and not behind its
-- end; and no rule but the last is a `MATCH`.
pub parse_policy-IsRule :
    (trim : List ℕ → List ℕ) (parse_ip : List ℕ → Option IpAddr) (source : List ℕ)
    (policy : RoutingPolicy)
    → ((text : List ℕ) (a : IpAddr) → parse_ip text ≡ some a → IsIpAddr a)
    → parse_policy trim parse_ip source ≡ ok policy
    → All IsRule policy.rules × MatchIsLast policy.rules
unfolding parse_policy new_policy
parse_policy-IsRule trim parse_ip source policy addresses e =
    let pieces = split 10 source in
    >>=-elim (parse_lines trim parse_ip 1 (lines pieces.0 pieces.1)) _ e (λ rules p q.
      let made : RoutingPolicy = record { rules = rules } in
      let (final, same) = passed (not (match_is_final rules)) match_not_final made policy q in
      subst (λ (x : RoutingPolicy). All IsRule x.rules × MatchIsLast x.rules) same
        (
          parse_lines-IsRule trim parse_ip addresses 1 _ rules p,
          match_is_final-MatchIsLast rules (ground arith),
        ))
