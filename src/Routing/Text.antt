-- ===== src/Routing/Text.antt =====
-- The text of rules and policies (crates/velum-client-routing/src/lib.rs): the `FromStr` of rules,
-- policies, port ranges and networks. Text is bytes.
use velum.Prelude.{
  ℕ, suc, ◌+◌, ◌-◌, ◌*◌, Bool, true, false, ◌&&◌, Option, none, some, List, [], ◌∷◌, Result, ok,
  err, ltb, leb, ◌==◌, if◌then◌else◌, is_empty, bytes_eq, ◌>>=◌, map_err, ok_or, map,
}
use velum.Net.{IpAddr}
use velum.Routing.{
  RoutingAction, direct, reject, proxy, node, RoutingError, RuleMatcher, RoutingRule, RoutingPolicy,
  PortRange, IpCidr, new_port_range, new_cidr, new_policy, normalize_domain, split, strip_suffix,
}

-- `DIRECT`, `PROXY`, `REJECT` and `NODE:`
abbrev pub direct_word : List ℕ
direct_word = 68 ∷ (73 ∷ (82 ∷ (69 ∷ (67 ∷ (84 ∷ [])))))

abbrev pub proxy_word : List ℕ
proxy_word = 80 ∷ (82 ∷ (79 ∷ (88 ∷ (89 ∷ []))))

abbrev pub reject_word : List ℕ
reject_word = 82 ∷ (69 ∷ (74 ∷ (69 ∷ (67 ∷ (84 ∷ [])))))

abbrev pub node_word : List ℕ
node_word = 78 ∷ (79 ∷ (68 ∷ (69 ∷ (58 ∷ []))))

-- `DOMAIN`, `DOMAIN-SUFFIX`, `IP-CIDR`, `DST-PORT` and `MATCH`
abbrev pub domain_word : List ℕ
domain_word = 68 ∷ (79 ∷ (77 ∷ (65 ∷ (73 ∷ (78 ∷ [])))))

abbrev pub domain_suffix_word : List ℕ
domain_suffix_word =
    68 ∷ (79 ∷ (77 ∷ (65 ∷ (73 ∷ (78 ∷ (45 ∷ (83 ∷ (85 ∷ (70 ∷ (70 ∷ (73 ∷ (88 ∷ []))))))))))))

abbrev pub ip_cidr_word : List ℕ
ip_cidr_word = 73 ∷ (80 ∷ (45 ∷ (67 ∷ (73 ∷ (68 ∷ (82 ∷ []))))))

abbrev pub dst_port_word : List ℕ
dst_port_word = 68 ∷ (83 ∷ (84 ∷ (45 ∷ (80 ∷ (79 ∷ (82 ∷ (84 ∷ [])))))))

abbrev pub match_word : List ℕ
match_word = 77 ∷ (65 ∷ (84 ∷ (67 ∷ (72 ∷ []))))

-- `text.strip_prefix(prefix)`
unfoldable pub strip_prefix : List ℕ → List ℕ → Option (List ℕ)
strip_prefix text [] = some text
strip_prefix [] (p ∷ ps) = none
strip_prefix (c ∷ cs) (p ∷ ps) = let later = strip_prefix cs ps in if c == p then later else none

-- `text.split_once(byte)`
unfoldable pub split_once : ℕ → List ℕ → Option (List ℕ × List ℕ)
split_once byte [] = none
split_once byte (c ∷ cs) =
    let later = split_once byte cs in
    if c == byte
    then some ([], cs)
    else elim later [ none ↦ none | some (front, rest) ↦ some (c ∷ front, rest) ]

-- `text.parse()` for an unsigned integer: digits with at most one plus before them.
unfoldable pub digits : ℕ → ℕ → List ℕ → Option ℕ
digits limit value [] = some value
digits limit value (c ∷ cs) =
    let later = digits limit (value * 10 + (c - 48)) cs in
    if leb 48 c && leb c 57 && ltb (value * 10 + (c - 48)) limit then later else none

unfoldable pub parse_unsigned : ℕ → List ℕ → Option ℕ
unfolding digits
parse_unsigned limit [] = none
parse_unsigned limit (c ∷ cs) =
    if c == 43 then (if is_empty cs then none else digits limit 0 cs) else digits limit 0 (c ∷ cs)

-- `filter(|id| !id.is_empty())`
abbrev pub nonempty : Option (List ℕ) → Option (List ℕ)
nonempty none = none
nonempty (some id) = if is_empty id then none else some id

abbrev pub node_action : Option (List ℕ) → Result RoutingAction RoutingError
node_action none = err RoutingError.unknown_action
node_action (some id) = ok (node id)

-- `parse_action`
unfoldable pub parse_action : List ℕ → Result RoutingAction RoutingError
unfolding strip_prefix
parse_action value =
    if bytes_eq value direct_word
    then ok direct
    else (if bytes_eq value proxy_word
        then ok proxy
        else (if bytes_eq value reject_word
            then ok reject
            else node_action (nonempty (strip_prefix value node_word))))

-- `unwrap_or((source, source))`
abbrev pub both_or : List ℕ → Option (List ℕ × List ℕ) → List ℕ × List ℕ
both_or source none = (source, source)
both_or source (some parts) = parts

-- `PortRange::from_str`
unfoldable pub parse_port_range : (List ℕ → List ℕ) → List ℕ → Result PortRange RoutingError
unfolding split_once parse_unsigned new_port_range
parse_port_range trim text =
    let source = trim text in
    let parts = both_or source (split_once 45 source) in
    ok_or (parse_unsigned 65536 parts.0) RoutingError.port_invalid >>= λ start.
    ok_or (parse_unsigned 65536 parts.1) RoutingError.port_invalid >>= λ end.
    new_port_range start end

-- The end of a rule: its action is read behind its matcher.
abbrev pub with_action : Result RuleMatcher RoutingError → List ℕ → Result RoutingRule RoutingError
with_action matcher action =
    matcher >>= λ m. parse_action action >>= λ a. ok (record { matcher = m; action = a })

-- `any(|field| field.is_empty())`
abbrev pub any_empty : List (List ℕ) → Bool
any_empty [] = false
any_empty (field ∷ fields) = if is_empty field then true else any_empty fields

-- `line.strip_suffix('\r')` or the line.
abbrev pub strip_cr : List ℕ → List ℕ
strip_cr line = elim (strip_suffix line (13 ∷ [])) [ none ↦ line | some front ↦ front ]

-- `text.lines()`, from the pieces between the line feeds.
abbrev pub lines : List ℕ → List (List ℕ) → List (List ℕ)
lines last [] = if is_empty last then [] else last ∷ []
lines line (next ∷ pieces) = strip_cr line ∷ lines next pieces

module _ (trim : List ℕ → List ℕ) (parse_ip : List ℕ → Option IpAddr) where
  -- `IpCidr::from_str`
  unfoldable pub parse_cidr : List ℕ → Result IpCidr RoutingError
  unfolding split_once parse_unsigned new_cidr
  parse_cidr text = ok_or (split_once 47 (trim text)) RoutingError.cidr_shape >>= λ parts.
      ok_or (parse_ip parts.0) RoutingError.cidr_address_invalid >>= λ network.
      ok_or (parse_unsigned 256 parts.1) RoutingError.cidr_prefix_invalid >>= λ prefix.
      new_cidr network prefix

  -- The matcher of a rule with a value, by its word; `none` is no such word.
  unfoldable pub parse_matcher : List ℕ → List ℕ → Result RuleMatcher RoutingError
  unfolding normalize_domain parse_cidr parse_port_range
  parse_matcher kind value =
      if bytes_eq kind domain_word
      then (normalize_domain trim value >>= λ name. ok (RuleMatcher.domain name))
      else (if bytes_eq kind domain_suffix_word
          then (normalize_domain trim value >>= λ name. ok (RuleMatcher.domain_suffix name))
          else (if bytes_eq kind ip_cidr_word
              then (parse_cidr value >>= λ cidr. ok (RuleMatcher.ip_cidr cidr))
              else (if bytes_eq kind dst_port_word
                  then (parse_port_range trim value >>= λ range.
                      ok (RuleMatcher.destination_port range))
                  else err RoutingError.invalid_rule)))

  -- The `match` on the fields.
  unfoldable pub parse_fields : List (List ℕ) → Result RoutingRule RoutingError
  unfolding parse_matcher parse_action
  parse_fields [] = err RoutingError.invalid_rule
  parse_fields (kind ∷ []) = err RoutingError.invalid_rule
  parse_fields (kind ∷ (action ∷ [])) =
      if bytes_eq kind match_word
      then with_action (ok RuleMatcher.match_all) action
      else err RoutingError.invalid_rule
  parse_fields (kind ∷ (value ∷ (action ∷ []))) = with_action (parse_matcher kind value) action
  parse_fields (kind ∷ (value ∷ (action ∷ (more ∷ fields)))) = err RoutingError.invalid_rule

  -- `RoutingRule::from_str`
  unfoldable pub parse_rule : List ℕ → Result RoutingRule RoutingError
  unfolding split parse_fields
  parse_rule source =
      let parts = split 44 source in
      let fields = map trim (parts.0 ∷ parts.1) in
      if any_empty fields then err RoutingError.field_empty else parse_fields fields

  -- The chain of `RoutingPolicy::from_str`, from the number of the first line on.
  unfoldable pub parse_lines : ℕ → List (List ℕ) → Result (List RoutingRule) RoutingError
  unfolding parse_rule
  parse_lines number [] = ok []
  parse_lines number (line ∷ rest) =
      let later = parse_lines (suc number) rest in
      let text = trim line in
      if is_empty text
      then later
      else (map_err (RoutingError.invalid_on_line number) (parse_rule text) >>= λ rule.
          later >>= λ rules. ok (rule ∷ rules))

  -- `RoutingPolicy::from_str`
  unfoldable pub parse_policy : List ℕ → Result RoutingPolicy RoutingError
  unfolding split parse_lines new_policy
  parse_policy source =
      let pieces = split 10 source in
      parse_lines 1 (lines pieces.0 pieces.1) >>= λ rules. new_policy rules
