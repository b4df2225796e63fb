-- ===== src/Wireguard.antt =====
-- src/wireguard/connection_config.rs: the parsed configuration, and what its parser takes from other
-- code. `src/wireguard/config.rs`: the bound on the MTU.
--
-- A key is its 32 bytes. `std::net` addresses are their numbers. The text forms of addresses (std
-- and ipnet), base64, SHA-256 and the resolver are not code of this repository: they are the
-- operations of a `Platform`.
pub mod Parser
pub mod Fingerprint
use tunmux.Error.{Result, err, ok, ok_or, wireguard, ◌>>=◌, ◌>>◌}
use tunmux.Prelude.{List, Option, if◌then◌else◌, ltb, ℕ}
use tunmux.Text.{Str, parse_unsigned}

pub data IpAddr : Type 0 where
  v4 v6 : ℕ → IpAddr

pub record IpNet : Type 0 where
  pub addr : IpAddr
  pub prefix_len : ℕ

pub record SocketAddr : Type 0 where
  pub ip : IpAddr
  pub port : ℕ

pub record ConnectionPeer : Type 0 where
  pub public_key : List ℕ
  pub preshared_key : Option (List ℕ)
  pub allowed_ips : List IpNet
  pub endpoint : Option SocketAddr
  pub endpoint_literal : Option Str
  pub persistent_keepalive : Option ℕ

pub record ConnectionConfig : Type 0 where
  pub private_key : List ℕ
  pub addresses : List IpNet
  pub dns_servers : List IpAddr
  pub mtu : Option ℕ
  pub pre_up : List Str
  pub post_up : List Str
  pub pre_down : List Str
  pub post_down : List Str
  pub peers : List ConnectionPeer

-- What the program calls and does not implement, and that answers alike at every call.
pub record Platform : Type 0 where
  pub parse_ip : Str → Option IpAddr
  pub show_ip : IpAddr → Str
  pub parse_net : Str → Option IpNet
  pub show_net : IpNet → Str
  pub parse_socket_addr : Str → Option SocketAddr
  pub show_socket_addr : SocketAddr → Str
  pub base64_encode : List ℕ → Str
  pub base64_decode : Str → Option (List ℕ)
  pub sha256 : List ℕ → List ℕ

-- A host name and a port, resolved by the system at the time of one call.
abbrev pub Resolver : Type 0
Resolver = Str → ℕ → Result SocketAddr

abbrev pub min_mtu : ℕ
min_mtu = 576

unfoldable pub validate_mtu : ℕ → Result (Unit {0})
validate_mtu mtu = if ltb mtu min_mtu then err wireguard else ok tt

unfoldable pub parse_mtu : Str → Result ℕ
unfolding validate_mtu parse_unsigned
parse_mtu value = do mtu ← ok_or wireguard (parse_unsigned 65535 value); validate_mtu mtu; ok mtu
