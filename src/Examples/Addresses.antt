-- ===== src/Examples/Addresses.antt =====
-- Fake addresses of crates/velum-adapter-tun/src/fake_dns.rs.
use velum.Prelude.{ℕ, ◌+◌, ◌≡◌, refl, Option, some, List, [], ◌∷◌, none, ok, err, done, arith}
use velum.Net.{v4, to_ascii_lowercase, trim_end_dots}
use velum.Tun.FakeDns.{
  FakeDnsTable, generation_mismatch, first_ipv4, first_ipv6, new, get, allocate, resolve,
  normalize_domain,
}
use velum.Tun.FakeDns.Valid.{IsValid, Reached, created, allocated, Reached-IsValid}
use velum.Routing.{RoutingPolicy, proxy_all, match_all, reject}
use velum.Tun.{FlowKey, tcp, new_socket}
use velum.Tun.Engine.{
  TunPolicyEngine, allocate_dns, decide_flow, replace_engine, routed, decide_flow-allocate_dns,
}
use velum.Tun.FakeDns.Room.{Gives, allocate-Gives}
use velum.Tun.FakeDns.Resolved.{mapped, resolve-allocate}

abbrev trim : List ℕ → List ℕ
trim text = text

abbrev plus : ℕ → ℕ → Option ℕ
plus now ttl = some (now + ttl)

-- `A.b.` and `a.b`
abbrev asked : List ℕ
asked = 65 ∷ (46 ∷ (98 ∷ (46 ∷ [])))

abbrev name : List ℕ
name = 97 ∷ (46 ∷ (98 ∷ []))

abbrev empty_table : FakeDnsTable
empty_table = record {
  generation = 7;
  capacity = 2;
  mappings = [];
  insertion_order = [];
  next_ipv4 = first_ipv4;
  next_ipv6 = first_ipv6;
}

abbrev table : FakeDnsTable
table = record {
  generation = 7;
  capacity = 2;
  mappings = (v4 first_ipv4, mapped name (v4 5) (v4 first_ipv4) 7 130) ∷ [];
  insertion_order = v4 first_ipv4 ∷ [];
  next_ipv4 = first_ipv4 + 1;
  next_ipv6 = first_ipv6;
}

new_table : new 7 2 ≡ ok empty_table
unfolding new
new_table = refl

name_normalized : normalize_domain trim asked ≡ ok name
unfolding normalize_domain to_ascii_lowercase trim_end_dots
name_normalized = refl

allocate_name :
    allocate trim plus empty_table 7 asked (v4 5) 30 100 ≡ done (ok (v4 first_ipv4), table)
unfolding allocate to_ascii_lowercase trim_end_dots get
allocate_name = refl

reached : Reached trim plus empty_table
reached = created 7 2 empty_table new_table

Reached-IsValid_example : IsValid table
Reached-IsValid_example =
    Reached-IsValid trim plus table
      (allocated empty_table table 7 asked (v4 5) 30 100 (ok (v4 first_ipv4)) reached allocate_name)

resolve-allocate_example :
    (resolve table 7 (v4 first_ipv4) 129).0 ≡ ok (some (mapped name (v4 5) (v4 first_ipv4) 7 130))
resolve-allocate_example =
    resolve-allocate trim plus empty_table table 7 30 100 130 129 asked name (v4 5) (v4 first_ipv4)
      (Reached-IsValid trim plus empty_table reached) refl name_normalized allocate_name
      (omega arith)

empty_table-IsValid : IsValid empty_table
empty_table-IsValid = Reached-IsValid trim plus empty_table reached

allocate-Gives_example : Gives (allocate trim plus empty_table 7 asked (v4 5) 30 100)
allocate-Gives_example =
    allocate-Gives trim plus empty_table asked name 5 30 100 130 empty_table-IsValid (omega arith)
      refl name_normalized

abbrev engine : TunPolicyEngine
engine = record { policy = proxy_all; dns = empty_table }

abbrev captured : FlowKey
captured = record {
  protocol = tcp;
  source = new_socket (v4 9) 40000;
  destination = new_socket (v4 first_ipv4) 443;
}

allocate_dns_name :
    allocate_dns trim plus engine 7 asked (v4 5) 30 100
    ≡ done (ok (v4 first_ipv4), record engine { dns = table })
unfolding allocate_dns to_ascii_lowercase trim_end_dots get
allocate_dns_name = refl

abbrev reject_all : RoutingPolicy
reject_all = record { rules = record { matcher = match_all; action = reject } ∷ [] }

decide_flow-allocate_dns_example :
    let before : TunPolicyEngine = record engine { dns = table } in
    let after = replace_engine before 8 reject_all in
    ((decide_flow trim before 7 captured 129).0
      ≡ ok (routed trim proxy_all (new_socket (v4 5) 443) (some name)))
    × ((decide_flow trim after 7 captured 129).0 ≡ err generation_mismatch)
    × ((decide_flow trim after 8 captured 129).0
        ≡ ok (routed trim reject_all (new_socket (v4 first_ipv4) 443) none))
decide_flow-allocate_dns_example =
    decide_flow-allocate_dns trim plus engine table 7 8 30 100 130 129 asked name (v4 5)
      (v4 first_ipv4) captured reject_all empty_table-IsValid refl name_normalized allocate_dns_name
      (omega arith) refl (omega arith)
