-- ===== src/Net.antt =====
-- Socket addresses, as `std::net` has them: two are equal when all their parts are.
use miuturn.Common.{ℕ, List, ◌^◌, ◌<◌, IsByte, ℕ_discrete}

-- The octets of an address.
pub data IpAddr : Type 0 where
  ip_v4 : ℕ → ℕ → ℕ → ℕ → IpAddr
  ip_v6 : List ℕ → IpAddr

-- An IPv4 address with its port; an IPv6 address with its port, flow information and scope.
pub data SocketAddr : Type 0 where
  v4 : ℕ → ℕ → ℕ → ℕ → ℕ → SocketAddr
  v6 : List ℕ → ℕ → ℕ → ℕ → SocketAddr

abbrev pub ip : SocketAddr → IpAddr
ip (v4 a b c d p) = ip_v4 a b c d
ip (v6 octets p flowinfo scope_id) = ip_v6 octets

abbrev pub port : SocketAddr → ℕ
port (v4 a b c d p) = p
port (v6 octets p flowinfo scope_id) = p

-- `SocketAddr::new`: a fresh IPv6 address has no flow information and no scope.
abbrev pub socket_addr : IpAddr → ℕ → SocketAddr
socket_addr (ip_v4 a b c d) p = v4 a b c d p
socket_addr (ip_v6 octets) p = v6 octets p 0 0

unfoldable pub IpAddr-discrete : Discrete IpAddr
IpAddr-discrete = hlevel ℕ_discrete

unfoldable pub SocketAddr-discrete : Discrete SocketAddr
SocketAddr-discrete = hlevel ℕ_discrete

-- The four octets are bytes and the port is a `u16`.
abbrev pub IsV4 : ℕ → ℕ → ℕ → ℕ → ℕ → Type 0
IsV4 a b c d p = IsByte a × IsByte b × IsByte c × IsByte d × (p < 2 ^ 16)
