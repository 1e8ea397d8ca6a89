-- ===== src/Examples/Routes.antt =====
-- Rules of crates/velum-client-routing/src/lib.rs.
use velum.Prelude.{
  ℕ, ◌≡◌, refl, ◌↔◌, ◌⊎◌, Option, none, some, true, List, [], ◌∷◌, ◌++◌, ok, All, arith,
  if◌then◌else◌, bytes_eq, Bool-cases, inl, inr,
}
use mathlib.Core.Path.{subst}
use velum.Net.{IpAddr, v4}
use velum.Routing.{
  RouteContext, RoutingPolicy, IpCidr, direct, reject, proxy, domain_suffix, ip_cidr, match_all,
  new_cidr, contains, matches, decide, destination_port, strip_suffix,
}
use velum.Routing.Cidr.{IsIpAddr, Agree, contains-new_cidr}
use velum.Routing.Decide.{Misses, Decides, decide-first}
use velum.Routing.Suffix.{matches-domain_suffix}
use velum.Routing.Text.{
  parse_policy, match_word, direct_word, proxy_word, reject_word, dst_port_word, ip_cidr_word,
  domain_suffix_word,
}
use velum.Routing.Parsed.{IsRule, MatchIsLast, parse_policy-IsRule}

abbrev trim : List ℕ → List ℕ
trim text = text

-- 192.0.2.0/24
abbrev documentation : IpCidr
documentation = record { network = v4 3221225984; prefix_length = 24 }

new_documentation : new_cidr (v4 3221225984) 24 ≡ ok documentation
unfolding new_cidr
new_documentation = refl

contains-new_cidr_example :
    (contains documentation (v4 3221225993) ≡ true) ↔ Agree 24 (v4 3221225993) (v4 3221225984)
contains-new_cidr_example =
    contains-new_cidr (v4 3221225984) (v4 3221225993) 24 documentation new_documentation
      (omega arith) (omega arith)

-- `a.b` and `x.a.b`
abbrev suffix : List ℕ
suffix = 97 ∷ (46 ∷ (98 ∷ []))

abbrev name : List ℕ
name = 120 ∷ (46 ∷ suffix)

-- Asked for as `X.a.B.`
abbrev context : RouteContext
context = record {
  domain = some (88 ∷ (46 ∷ (97 ∷ (46 ∷ (66 ∷ (46 ∷ []))))));
  destination = v4 3221225993;
  destination_port = 443;
}

matches-domain_suffix_example :
    (matches (domain_suffix suffix) context (some name) ≡ true)
    ↔ ((name ≡ suffix) ⊎ ((labels : List ℕ) × (name ≡ labels ++ (46 ∷ suffix))))
matches-domain_suffix_example = matches-domain_suffix suffix name context

-- `net`, for 192.0.2.0.
abbrev net : List ℕ
net = 110 ∷ (101 ∷ (116 ∷ []))

abbrev parse_ip : List ℕ → Option IpAddr
parse_ip text = if bytes_eq text net then some (v4 3221225984) else none

parse_ip-IsIpAddr : (text : List ℕ) (a : IpAddr) → parse_ip text ≡ some a → IsIpAddr a
parse_ip-IsIpAddr text a e = elim (Bool-cases (bytes_eq text net)) [
  | inl same ↦
      let found : parse_ip text ≡ some (v4 3221225984) = simp same refl in
      let address : v4 3221225984 ≡ a = cc in subst IsIpAddr address (omega arith)
  | inr other ↦ let missing : parse_ip text ≡ none = simp other refl in absurd cc
]

-- `,A.b.,` and a line feed behind `REJECT`; `,net/24,`; `,80-443,`.
abbrev first_line : List ℕ
first_line =
    domain_suffix_word ++ (44 ∷ (65 ∷ (46 ∷ (98 ∷ (46 ∷ (44 ∷ []))))) ++ (reject_word ++ (10 ∷ [])))

abbrev second_line : List ℕ
second_line =
    ip_cidr_word
    ++ (44 ∷ (110 ∷ (101 ∷ (116 ∷ (47 ∷ (50 ∷ (52 ∷ (44 ∷ []))))))) ++ (direct_word ++ (10 ∷ [])))

abbrev third_line : List ℕ
third_line =
    dst_port_word
    ++ (44 ∷ (56 ∷ (48 ∷ (45 ∷ (52 ∷ (52 ∷ (51 ∷ (44 ∷ []))))))) ++ (proxy_word ++ (10 ∷ [])))

abbrev source : List ℕ
source = first_line ++ (second_line ++ (third_line ++ (match_word ++ (44 ∷ proxy_word))))

abbrev policy : RoutingPolicy
policy = record {
  rules =
      record { matcher = domain_suffix suffix; action = reject }
      ∷ (record { matcher = ip_cidr documentation; action = direct }
          ∷ (record {
            matcher = destination_port (record { start = 80; end = 443 });
            action = proxy;
          }
              ∷ (record { matcher = match_all; action = proxy } ∷ [])));
}

parsed : parse_policy trim parse_ip source ≡ ok policy
unfolding parse_policy strip_suffix
parsed = refl

parse_policy-IsRule_example : All IsRule policy.rules × MatchIsLast policy.rules
parse_policy-IsRule_example =
    parse_policy-IsRule trim parse_ip source policy parse_ip-IsIpAddr parsed

decide-first_example :
    Decides trim context policy.rules (decide trim policy context)
    ⊎ (All (Misses trim context) policy.rules × (decide trim policy context ≡ proxy))
decide-first_example =
    decide-first trim policy context
      (parse_policy-IsRule trim parse_ip source policy parse_ip-IsIpAddr parsed).0 (omega arith)
