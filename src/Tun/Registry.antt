-- ===== src/Tun/Registry.antt =====
-- `TunFlowRegistry` of crates/velum-adapter-tun/src/lib.rs: which captured flows may exchange bytes.
-- The map is a list of pairs, and the runtime that is shared an argument: the reads of its snapshot in
-- one call see one state. The relay that `open_tcp`
-- gives and the calls that send and receive are I/O.
pub mod Grants
pub mod Leases
use velum.Prelude.{
  ℕ, zero, suc, ◌+◌, Bool, true, false, not, ◌&&◌, Option, none, some, List, [], ◌∷◌, Result, ok,
  err, ◌==◌, leb, if◌then◌else◌, ◌>>=◌,
}
use velum.Net.{ip_eq}
use velum.Runtime.Control.{ClientRuntime, is_generation_online}
use velum.Tun.{FlowProtocol, tcp, udp, SocketAddr, FlowKey}

pub record TunAdapterLimits : Type 0 where
  pub max_tcp_flows : ℕ
  pub max_udp_associations : ℕ

pub data TunAdapterConfigError : Type 0 where
  tcp_flow_limit udp_association_limit frame_queue ipv4_prefix : TunAdapterConfigError

pub data FlowAdmissionError : Type 0 where
  not_online tcp_flow_limit udp_association_limit : FlowAdmissionError

-- The flows, each with the generation of its lease.
pub record TunFlowRegistry : Type 0 where
  pub limits : TunAdapterLimits
  pub flows : List (FlowKey × ℕ)

-- `TunAdapterLimits::validate` and its default.
unfoldable pub validate_limits : TunAdapterLimits → Result TunAdapterLimits TunAdapterConfigError
validate_limits self =
    if self.max_tcp_flows == 0
    then err TunAdapterConfigError.tcp_flow_limit
    else (if self.max_udp_associations == 0
        then err TunAdapterConfigError.udp_association_limit
        else ok self)

abbrev pub default_limits : TunAdapterLimits
default_limits = record { max_tcp_flows = 256; max_udp_associations = 256 }

-- `TunFlowRegistry::new`
unfoldable pub new_registry : TunAdapterLimits → Result TunFlowRegistry TunAdapterConfigError
unfolding validate_limits
new_registry limits = validate_limits limits >>= λ valid. ok (record { limits = valid; flows = [] })

abbrev pub same_protocol : FlowProtocol → FlowProtocol → Bool
same_protocol tcp tcp = true
same_protocol tcp udp = false
same_protocol udp tcp = false
same_protocol udp udp = true

abbrev pub socket_eq : SocketAddr → SocketAddr → Bool
socket_eq a b =
    ip_eq a.ip b.ip && a.port == b.port && a.flow_info == b.flow_info && a.scope_id == b.scope_id

abbrev pub key_eq : FlowKey → FlowKey → Bool
key_eq a b =
    same_protocol a.protocol b.protocol
    && socket_eq a.source b.source
    && socket_eq a.destination b.destination

-- `flows.get(&key)`, `flows.remove(&key)` and `flows.insert(key, lease)`
unfoldable pub lease_of : FlowKey → List (FlowKey × ℕ) → Option ℕ
lease_of key [] = none
lease_of key ((k, lease) ∷ flows) = if key_eq k key then some lease else lease_of key flows

unfoldable pub without : FlowKey → List (FlowKey × ℕ) → List (FlowKey × ℕ)
without key [] = []
without key ((k, lease) ∷ flows) =
    let later = without key flows in if key_eq k key then flows else (k, lease) ∷ later

unfoldable pub with_lease : FlowKey → ℕ → List (FlowKey × ℕ) → List (FlowKey × ℕ)
with_lease key generation [] = (key, generation) ∷ []
with_lease key generation ((k, lease) ∷ flows) =
    let later = with_lease key generation flows in
    if key_eq k key then (k, generation) ∷ flows else (k, lease) ∷ later

-- The flows of a protocol, and its limit.
unfoldable pub used : FlowProtocol → List (FlowKey × ℕ) → ℕ
used protocol [] = 0
used protocol ((k, lease) ∷ flows) =
    let later = used protocol flows in
    if same_protocol k.protocol protocol then suc later else later

abbrev pub limit_of : FlowProtocol → TunAdapterLimits → ℕ
limit_of tcp limits = limits.max_tcp_flows
limit_of udp limits = limits.max_udp_associations

abbrev pub over_limit : FlowProtocol → FlowAdmissionError
over_limit tcp = FlowAdmissionError.tcp_flow_limit
over_limit udp = FlowAdmissionError.udp_association_limit

-- `admit_new`
unfoldable pub admit_new :
    TunFlowRegistry → FlowKey → ℕ → Result ℕ FlowAdmissionError × TunFlowRegistry
unfolding used with_lease
admit_new self key generation =
    if leb (limit_of key.protocol self.limits) (used key.protocol self.flows)
    then (err (over_limit key.protocol), self)
    else (ok generation, record self { flows = with_lease key generation self.flows })

-- `current_generation`
unfoldable pub current_generation : ClientRuntime → Result ℕ FlowAdmissionError
unfolding is_generation_online
current_generation runtime =
    if is_generation_online runtime runtime.published.generation
    then ok runtime.published.generation
    else err not_online

-- `admit` behind the generation, by the lease that is there.
unfoldable pub admit_at :
    TunFlowRegistry → FlowKey → ℕ → Option ℕ → Result ℕ FlowAdmissionError × TunFlowRegistry
unfolding without admit_new
admit_at self key generation none = admit_new self key generation
admit_at self key generation (some lease) =
    if lease == generation
    then (ok generation, self)
    else admit_new (record self { flows = without key self.flows }) key generation

abbrev pub admit_in :
    TunFlowRegistry
    → FlowKey
    → Result ℕ FlowAdmissionError
    → Result ℕ FlowAdmissionError × TunFlowRegistry
admit_in self key (err error) = (err error, self)
admit_in self key (ok generation) = admit_at self key generation (lease_of key self.flows)

-- `TunFlowRegistry::admit`
unfoldable pub admit :
    ClientRuntime → TunFlowRegistry → FlowKey → Result ℕ FlowAdmissionError × TunFlowRegistry
unfolding current_generation lease_of admit_at
admit runtime self key = admit_in self key (current_generation runtime)

abbrev pub is_lease : ℕ → Option ℕ → Bool
is_lease generation none = false
is_lease generation (some lease) = lease == generation

-- `TunFlowRegistry::is_active`
unfoldable pub is_active : ClientRuntime → TunFlowRegistry → FlowKey → ℕ → Bool
unfolding is_generation_online lease_of
is_active runtime self key generation =
    is_generation_online runtime generation && is_lease generation (lease_of key self.flows)

-- `release` and `clear`
abbrev pub is_held : Option ℕ → Bool
is_held none = false
is_held (some lease) = true

unfoldable pub release_flow : TunFlowRegistry → FlowKey → Bool × TunFlowRegistry
unfolding lease_of without
release_flow self key =
    (is_held (lease_of key self.flows), record self { flows = without key self.flows })

abbrev pub cleared_registry : TunFlowRegistry → TunFlowRegistry
cleared_registry self = record self { flows = [] }
