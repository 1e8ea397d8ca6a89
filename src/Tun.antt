-- ===== src/Tun.antt =====
-- crates/velum-adapter-tun/src/lib.rs: the flows that a TUN device captures.
pub mod FakeDns
pub mod Engine
pub mod Registry
use velum.Prelude.{ℕ}
use velum.Net.{IpAddr}

pub data FlowProtocol : Type 0 where
  tcp udp : FlowProtocol

-- `SocketAddr` of the standard library. Its last two fields are 0 for IPv4.
pub record SocketAddr : Type 0 where
  pub ip : IpAddr
  pub port : ℕ
  pub flow_info : ℕ
  pub scope_id : ℕ

-- `SocketAddr::new`
abbrev pub new_socket : IpAddr → ℕ → SocketAddr
new_socket ip port = record { ip = ip; port = port; flow_info = 0; scope_id = 0 }

pub record FlowKey : Type 0 where
  pub protocol : FlowProtocol
  pub source : SocketAddr
  pub destination : SocketAddr
