-- ===== src/Routing.antt =====
-- crates/velum-client-routing/src/lib.rs: the routing policy of a client, its rules and their text.
-- An error is named for its message. `str::trim` and `IpAddr`'s `parse` are parameters.
pub mod Cidr
pub mod Decide
pub mod Suffix
pub mod Text
pub mod Names
pub mod Normal
pub mod Parsed
use velum.Prelude.{
  ℕ, zero, suc, ◌+◌, ◌-◌, ◌*◌, ◌/◌, ◌%◌, ◌^◌, Bool, true, false, ◌&&◌, ◌||◌, not, Option, none,
  some, List, [], ◌∷◌, ◌++◌, Result, ok, err, ◌==◌, ltb, leb, if◌then◌else◌, length, is_empty,
  bytes_eq, bit_and, ◌>>=◌,
}
use velum.Net.{IpAddr, v4, v6, ip_eq, to_ascii_lowercase, trim_end_dots}

pub data RoutingAction : Type 0 where
  direct reject proxy : RoutingAction
  node : List ℕ → RoutingAction

pub record RouteContext : Type 0 where
  pub domain : Option (List ℕ)
  pub destination : IpAddr
  pub destination_port : ℕ

pub data RoutingError : Type 0 where
  match_not_final field_empty invalid_rule unknown_action : RoutingError
  port_range_invalid port_invalid : RoutingError
  prefix_out_of_range host_bits_set cidr_shape cidr_address_invalid cidr_prefix_invalid :
      RoutingError
  domain_invalid : RoutingError
  invalid_on_line : ℕ → RoutingError → RoutingError

pub record PortRange : Type 0 where
  pub start : ℕ
  pub end : ℕ

pub record IpCidr : Type 0 where
  pub network : IpAddr
  pub prefix_length : ℕ

pub data RuleMatcher : Type 0 where
  domain domain_suffix : List ℕ → RuleMatcher
  ip_cidr : IpCidr → RuleMatcher
  destination_port : PortRange → RuleMatcher
  match_all : RuleMatcher

pub record RoutingRule : Type 0 where
  pub matcher : RuleMatcher
  pub action : RoutingAction

pub record RoutingPolicy : Type 0 where
  pub rules : List RoutingRule

-- `PortRange::new` and `PortRange::contains`
unfoldable pub new_port_range : ℕ → ℕ → Result PortRange RoutingError
new_port_range start end =
    if start == 0 || ltb end start
    then err port_range_invalid
    else ok (record { start = start; end = end })

abbrev pub port_in_range : PortRange → ℕ → Bool
port_in_range self port = leb self.start port && leb port self.end

abbrev pub min_of : ℕ → ℕ → ℕ
min_of a b = if ltb b a then b else a

-- `MAX.checked_shl(width - prefix.min(width)).unwrap_or(0)` on an unsigned type of the width.
unfoldable pub mask_bits : ℕ → ℕ → ℕ
mask_bits width prefix =
    let shift = width - min_of prefix width in
    if ltb shift width then (2 ^ width - 1) * 2 ^ shift % 2 ^ width else 0

-- `IpCidr::mask`
unfoldable pub mask : IpCidr → IpAddr → IpAddr
unfolding mask_bits
mask self (v4 address) = v4 (bit_and address (mask_bits 32 self.prefix_length))
mask self (v6 address) = v6 (bit_and address (mask_bits 128 self.prefix_length))

-- The length of an address in bits, the bound on a prefix.
abbrev pub width_of : IpAddr → ℕ
width_of (v4 address) = 32
width_of (v6 address) = 128

-- `IpCidr::new`
unfoldable pub new_cidr : IpAddr → ℕ → Result IpCidr RoutingError
unfolding mask
new_cidr network prefix_length =
    let cidr : IpCidr = record { network = network; prefix_length = prefix_length } in
    if not (leb prefix_length (width_of network))
    then err prefix_out_of_range
    else (if not (ip_eq (mask cidr network) network) then err host_bits_set else ok cidr)

abbrev pub same_family : IpAddr → IpAddr → Bool
same_family (v4 a) (v4 b) = true
same_family (v4 a) (v6 b) = false
same_family (v6 a) (v4 b) = false
same_family (v6 a) (v6 b) = true

-- `IpCidr::contains`
unfoldable pub contains : IpCidr → IpAddr → Bool
unfolding mask
contains self address = same_family self.network address && ip_eq (mask self address) self.network

-- `text.strip_suffix(suffix)`, where the text is as long as the rest says.
unfoldable pub strip_suffix : List ℕ → List ℕ → Option (List ℕ)
strip_suffix [] suffix = if is_empty suffix then some [] else none
strip_suffix (c ∷ cs) suffix =
    let later = strip_suffix cs suffix in
    if bytes_eq (c ∷ cs) suffix
    then some []
    else elim later [ none ↦ none | some front ↦ some (c ∷ front) ]

-- `text.ends_with(byte)` and `text.starts_with(byte)`
abbrev pub ends_with : ℕ → List ℕ → Bool
ends_with byte [] = false
ends_with byte (c ∷ []) = c == byte
ends_with byte (c ∷ (d ∷ ds)) = ends_with byte (d ∷ ds)

abbrev pub starts_with : ℕ → List ℕ → Bool
starts_with byte [] = false
starts_with byte (c ∷ cs) = c == byte

-- The dot in front of the suffix.
abbrev pub front_has_dot : Option (List ℕ) → Bool
front_has_dot none = false
front_has_dot (some front) = ends_with 46 front

-- `is_some_and`
abbrev pub is_some_and {ℓ} : {A : Type ℓ} → Option A → (A → Bool) → Bool
is_some_and none test = false
is_some_and (some a) test = test a

-- `RuleMatcher::matches`
unfoldable pub matches : RuleMatcher → RouteContext → Option (List ℕ) → Bool
unfolding contains strip_suffix
matches (domain expected) context name = is_some_and name (λ actual. bytes_eq actual expected)
matches (domain_suffix suffix) context name =
    is_some_and name
      (λ actual. bytes_eq actual suffix || front_has_dot (strip_suffix actual suffix))
matches (ip_cidr cidr) context name = contains cidr context.destination
matches (destination_port range) context name = port_in_range range context.destination_port
matches match_all context name = true

abbrev pub is_match_all : RuleMatcher → Bool
is_match_all (domain name) = false
is_match_all (domain_suffix name) = false
is_match_all (ip_cidr cidr) = false
is_match_all (destination_port range) = false
is_match_all match_all = true

-- Whether the first `MATCH`, if any, is the last rule.
unfoldable pub match_is_final : List RoutingRule → Bool
match_is_final [] = true
match_is_final (rule ∷ rules) =
    let later = match_is_final rules in if is_match_all rule.matcher then is_empty rules else later

-- `RoutingPolicy::new`
unfoldable pub new_policy : List RoutingRule → Result RoutingPolicy RoutingError
unfolding match_is_final
new_policy rules =
    if not (match_is_final rules) then err match_not_final else ok (record { rules = rules })

-- `RoutingPolicy::proxy_all`, the default.
abbrev pub proxy_all : RoutingPolicy
proxy_all = record { rules = record { matcher = match_all; action = proxy } ∷ [] }

-- `text.split(byte)`: the first part, and the parts behind it.
unfoldable pub split : ℕ → List ℕ → List ℕ × List (List ℕ)
split byte [] = ([], [])
split byte (c ∷ cs) =
    let later = split byte cs in
    if c == byte then ([], later.0 ∷ later.1) else (c ∷ later.0, later.1)

-- `is_ascii_alphanumeric`, or a hyphen.
abbrev pub is_label_byte : ℕ → Bool
is_label_byte c =
    (leb 48 c && leb c 57) || (leb 65 c && leb c 90) || (leb 97 c && leb c 122) || c == 45

abbrev pub all_bytes : (ℕ → Bool) → List ℕ → Bool
all_bytes test [] = true
all_bytes test (c ∷ cs) = test c && all_bytes test cs

-- What the check of a label refuses.
abbrev pub is_bad_label : List ℕ → Bool
is_bad_label label =
    is_empty label
    || ltb 63 (length label)
    || starts_with 45 label
    || ends_with 45 label
    || not (all_bytes is_label_byte label)

abbrev pub any_bad : List (List ℕ) → Bool
any_bad [] = false
any_bad (label ∷ labels) = is_bad_label label || any_bad labels

-- `normalize_domain`
unfoldable pub normalize_domain : (List ℕ → List ℕ) → List ℕ → Result (List ℕ) RoutingError
unfolding split to_ascii_lowercase trim_end_dots
normalize_domain trim text =
    let value = to_ascii_lowercase (trim_end_dots (trim text)) in
    let labels = split 46 value in
    if is_empty value || ltb 253 (length value) || any_bad (labels.0 ∷ labels.1)
    then err domain_invalid
    else ok value

-- `ok()` of a result.
abbrev pub to_option {ℓ κ} : {A : Type ℓ} {E : Type κ} → Result A E → Option A
to_option (ok a) = some a
to_option (err e) = none

abbrev pub normalized : (List ℕ → List ℕ) → Option (List ℕ) → Option (List ℕ)
normalized trim none = none
normalized trim (some name) = to_option (normalize_domain trim name)

-- `find(..)` and `map_or(Proxy, ..)`
unfoldable pub first_action : List RoutingRule → RouteContext → Option (List ℕ) → RoutingAction
unfolding matches
first_action [] context name = proxy
first_action (rule ∷ rules) context name =
    let later = first_action rules context name in
    if matches rule.matcher context name then rule.action else later

-- `RoutingPolicy::decide`
unfoldable pub decide : (List ℕ → List ℕ) → RoutingPolicy → RouteContext → RoutingAction
unfolding first_action normalize_domain
decide trim self context = first_action self.rules context (normalized trim context.domain)
