-- ===== src/Tun/Engine.antt =====
-- `TunPolicyEngine` of crates/velum-adapter-tun/src/lib.rs: the table of fake addresses and the routing
-- policy that every TUN host shares.
use velum.Prelude.{
  ℕ, ◌≡◌, ap, ◌∙◌, ◌<◌, Option, none, some, List, Result, ok, ◌>>=◌, done, panic, and_run,
  done-injective, Run, err, refl, ◌≢◌, ◌==◌, ==_iff, false, arith,
}
use velum.Net.{IpAddr}
use velum.Routing
use velum.Routing.{RouteContext, RoutingAction, RoutingPolicy}
use velum.Tun.{SocketAddr, new_socket, FlowKey}
use velum.Tun.FakeDns
use velum.Tun.FakeDns.{
  FakeDnsMapping, FakeDnsTable, FakeDnsError, generation_mismatch, allocate, resolve,
}
use velum.Tun.FakeDns.Valid.{IsValid}
use velum.Tun.FakeDns.Resolved.{resolve-allocate}

pub record TunPolicyEngine : Type 0 where
  pub policy : RoutingPolicy
  pub dns : FakeDnsTable

pub record TunRouteDecision : Type 0 where
  pub action : RoutingAction
  pub destination : SocketAddr
  pub domain : Option (List ℕ)

-- `TunPolicyEngine::new`
unfoldable pub new_engine : ℕ → RoutingPolicy → ℕ → Result TunPolicyEngine FakeDnsError
unfolding FakeDns.new
new_engine generation policy dns_capacity =
    FakeDns.new generation dns_capacity >>= λ dns. ok (record { policy = policy; dns = dns })

abbrev with_dns :
    TunPolicyEngine
    → Result IpAddr FakeDnsError × FakeDnsTable
    → Result IpAddr FakeDnsError × TunPolicyEngine
with_dns self out = (out.0, record self { dns = out.1 })

-- `TunPolicyEngine::allocate_dns`
unfoldable pub allocate_dns :
    (List ℕ → List ℕ)
    → (ℕ → ℕ → Option ℕ)
    → TunPolicyEngine
    → ℕ
    → List ℕ
    → IpAddr
    → ℕ
    → ℕ
    → Run (Result IpAddr FakeDnsError × TunPolicyEngine)
unfolding allocate
allocate_dns trim plus self generation domain real ttl now =
    and_run (allocate trim plus self.dns generation domain real ttl now)
      (λ out. done (with_dns self out))

-- The destination and the domain of a flow, by the mapping of its address.
abbrev pub restored : FlowKey → Option FakeDnsMapping → SocketAddr × Option (List ℕ)
restored flow none = (flow.destination, none)
restored flow (some mapping) =
    (new_socket mapping.real_address flow.destination.port, some mapping.domain)

-- The decision on what was restored.
unfoldable pub decision_on :
    (List ℕ → List ℕ) → RoutingPolicy → SocketAddr × Option (List ℕ) → TunRouteDecision
unfolding Routing.decide
decision_on trim policy target = record {
  action =
      Routing.decide trim policy
        (record { domain = target.1; destination = target.0.ip; destination_port = target.0.port });
  destination = target.0;
  domain = target.1;
}

-- `TunPolicyEngine::decide`
unfoldable pub decide_flow :
    (List ℕ → List ℕ)
    → TunPolicyEngine
    → ℕ
    → FlowKey
    → ℕ
    → Result TunRouteDecision FakeDnsError × TunPolicyEngine
unfolding resolve decision_on
decide_flow trim self generation flow now =
    let out = resolve self.dns generation flow.destination.ip now in
    (
      out.0 >>= λ mapping. ok (decision_on trim self.policy (restored flow mapping)),
      record self { dns = out.1 },
    )

-- `TunPolicyEngine::replace_generation`
unfoldable pub replace_engine : TunPolicyEngine → ℕ → RoutingPolicy → TunPolicyEngine
unfolding FakeDns.replace_generation
replace_engine self generation policy = record {
  policy = policy;
  dns = FakeDns.replace_generation self.dns generation;
}

given_back :
    (self : TunPolicyEngine) (fake : IpAddr) (dns : FakeDnsTable)
    (m : Run (Result IpAddr FakeDnsError × FakeDnsTable))
    → and_run m (λ out. done (with_dns self out)) ≡ done (ok fake, record self { dns = dns })
    → m ≡ done (ok fake, dns)
given_back self fake dns (done (r, x)) e =
    let (same, table) = done-injective e in
    ap (λ q. done (q, x)) same ∙ ap (λ (y : TunPolicyEngine). done (ok fake, y.dns)) table
given_back self fake dns panic e = cc

-- The decision that the policy makes for a destination and a name.
abbrev pub routed :
    (List ℕ → List ℕ) → RoutingPolicy → SocketAddr → Option (List ℕ) → TunRouteDecision
routed trim policy destination name = record {
  action =
      Routing.decide trim policy (record {
        domain = name;
        destination = destination.ip;
        destination_port = destination.port;
      });
  destination = destination;
  domain = name;
}

restored-decided :
    (trim : List ℕ → List ℕ) (plus : ℕ → ℕ → Option ℕ) (self : TunPolicyEngine) (dns : FakeDnsTable)
    (g ttl now t later : ℕ) (text d : List ℕ) (real fake : IpAddr) (flow : FlowKey)
    → IsValid self.dns
    → plus now ttl ≡ some t
    → FakeDns.normalize_domain trim text ≡ ok d
    → allocate_dns trim plus self g text real ttl now ≡ done (ok fake, record self { dns = dns })
    → later < t
    → flow.destination.ip ≡ fake
    → (decide_flow trim (record self { dns = dns }) g flow later).0
      ≡ ok (routed trim self.policy (new_socket real flow.destination.port) (some d))
unfolding decide_flow allocate_dns decision_on
restored-decided trim plus self dns g ttl now t later text d real fake flow v deadline named given
      early at =
    let allocated =
      given_back self fake dns (allocate trim plus self.dns g text real ttl now) given in
    let resolved =
      resolve-allocate trim plus self.dns dns g ttl now t later text d real fake v deadline named
        allocated early in
    ap
      (λ (m : Result (Option FakeDnsMapping) FakeDnsError).
        m >>= λ mapping. ok (decision_on trim self.policy (restored flow mapping)))
      (ap (λ a. (resolve dns g a later).0) at ∙ resolved)

-- A flow that arrives in the new generation, when nothing has been allocated in it.
replaced-decided :
    (trim : List ℕ → List ℕ) (self : TunPolicyEngine) (g : ℕ) (policy : RoutingPolicy)
    (flow : FlowKey) (later : ℕ)
    → (decide_flow trim (replace_engine self g policy) g flow later).0
      ≡ ok (routed trim policy flow.destination none)
unfolding decide_flow replace_engine resolve FakeDns.replace_generation FakeDns.remove_expired
    FakeDns.retain_live FakeDns.get decision_on
replaced-decided trim self g policy flow later = simp ((==_iff g g).1 refl) refl

replaced-refused :
    (trim : List ℕ → List ℕ) (self : TunPolicyEngine) (g g' : ℕ) (policy : RoutingPolicy)
    (flow : FlowKey) (later : ℕ)
    → g ≢ g'
    → (decide_flow trim (replace_engine self g' policy) g flow later).0 ≡ err generation_mismatch
unfolding decide_flow replace_engine resolve FakeDns.replace_generation
replaced-refused trim self g g' policy flow later differ =
    let other : (g == g') ≡ false = ground arith in simp other refl

-- On a valid table, a flow to a fake address that `allocate_dns` gave is decided on, before
-- `now + ttl`, by the policy of the engine for the real address, the port of the flow and the
-- normalised domain, and the decision has these as its destination and domain. After
-- `replace_generation` to another generation the same flow is refused in the old generation, and in
-- the new one it is decided on by the new policy for its own destination, without a domain.
pub decide_flow-allocate_dns :
    (trim : List ℕ → List ℕ) (plus : ℕ → ℕ → Option ℕ) (self : TunPolicyEngine) (dns : FakeDnsTable)
    (g g' ttl now t later : ℕ) (text d : List ℕ) (real fake : IpAddr) (flow : FlowKey)
    (policy : RoutingPolicy)
    → IsValid self.dns
    → plus now ttl ≡ some t
    → FakeDns.normalize_domain trim text ≡ ok d
    → allocate_dns trim plus self g text real ttl now ≡ done (ok fake, record self { dns = dns })
    → later < t
    → flow.destination.ip ≡ fake
    → g ≢ g'
    → let before : TunPolicyEngine = record self { dns = dns } in
      let after = replace_engine before g' policy in
      ((decide_flow trim before g flow later).0
        ≡ ok (routed trim self.policy (new_socket real flow.destination.port) (some d)))
      × ((decide_flow trim after g flow later).0 ≡ err generation_mismatch)
      × ((decide_flow trim after g' flow later).0 ≡ ok (routed trim policy flow.destination none))
decide_flow-allocate_dns trim plus self dns g g' ttl now t later text d real fake flow policy v
      deadline named given early at differ =
    let before : TunPolicyEngine = record self { dns = dns } in
    (
      restored-decided trim plus self dns g ttl now t later text d real fake flow v deadline named
          given early at,
      replaced-refused trim before g g' policy flow later differ,
      replaced-decided trim before g' policy flow later,
    )
