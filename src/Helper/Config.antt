-- ===== src/Helper/Config.antt =====
-- src/userspace_helper.rs: the helper's configuration, which is the part of a parsed one that drives one
-- peer.
use tunmux.Error.{AppError, Result, err, ok, ◌>>=◌}
use tunmux.Prelude.{List, Option, [], map, none, some, ℕ, ◌∷◌}
use tunmux.Text.{Str}
use tunmux.Wireguard.{ConnectionConfig, ConnectionPeer, Platform, Resolver, SocketAddr, parse_mtu}
use tunmux.Wireguard.Parser.{parse_connection_config}

pub record ParsedUserspaceConfig : Type 0 where
  pub private_key : List ℕ
  pub addresses : List Str
  pub dns_servers : List Str
  pub mtu : Option ℕ
  pub peer_public_key : List ℕ
  pub peer_preshared_key : Option (List ℕ)
  pub allowed_ips : List Str
  pub endpoint : SocketAddr

abbrev pub narrowed :
    Platform → ConnectionConfig → ConnectionPeer → Option SocketAddr → Result ParsedUserspaceConfig
narrowed p parsed peer none = err AppError.other
narrowed p parsed peer (some endpoint) = ok (record {
  private_key = parsed.private_key;
  addresses = map p.show_net parsed.addresses;
  dns_servers = map p.show_ip parsed.dns_servers;
  mtu = parsed.mtu;
  peer_public_key = peer.public_key;
  peer_preshared_key = peer.preshared_key;
  allowed_ips = map p.show_net peer.allowed_ips;
  endpoint = endpoint;
})

-- exactly one peer, with an endpoint
abbrev pub narrow : Platform → ConnectionConfig → List ConnectionPeer → Result ParsedUserspaceConfig
narrow p parsed (peer ∷ []) = narrowed p parsed peer peer.endpoint
narrow p parsed _ = err AppError.other

unfoldable pub parse_wg_quick_config : Platform → Resolver → Str → Result ParsedUserspaceConfig
unfolding parse_connection_config
parse_wg_quick_config p resolver config = do
  parsed ← parse_connection_config p resolver config
  narrow p parsed parsed.peers

unfoldable pub apply_mtu_override : ParsedUserspaceConfig → Str → Result ParsedUserspaceConfig
unfolding parse_mtu
apply_mtu_override config value = do mtu ← parse_mtu value; ok (record config { mtu = some mtu })
