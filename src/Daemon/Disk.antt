-- ===== src/Daemon/Disk.antt =====
-- The wire format of a stored record (src/privileged/connection_store.rs). The JSON text between a
-- `StoredConnectionDisk` and the bytes of a file is serde_json's, and not modelled.
pub mod RoundTrip
use mathlib.Core.Option
use tunmux.Daemon.{ConnectionConfigDisk, ConnectionPeerDisk, StoredConnection, StoredConnectionDisk}
use tunmux.Error.{Result, ok, ok_or, try_map, wireguard, ◌>>=◌, ◌>>◌}
use tunmux.Prelude.{Option, map, none, some}
use tunmux.Text.{Str}
use tunmux.Wireguard.{ConnectionConfig, ConnectionPeer, IpAddr, IpNet, Platform, SocketAddr}
use tunmux.Wireguard.Fingerprint.{fingerprint}
use tunmux.Wireguard.Parser.{decode_key32}

module _ (p : Platform) where
  unfoldable pub parse_ipnet_field : Str → Result IpNet
  parse_ipnet_field s = ok_or wireguard (p.parse_net s)

  unfoldable pub parse_ip_field : Str → Result IpAddr
  parse_ip_field s = ok_or wireguard (p.parse_ip s)

  unfoldable pub parse_endpoint_field : Str → Result SocketAddr
  parse_endpoint_field s = ok_or wireguard (p.parse_socket_addr s)

  -- `.map(f).transpose()?`
  abbrev pub transpose {ℓ} : {A : Type ℓ} → (Str → Result A) → Option Str → Result (Option A)
  transpose f none = ok none
  transpose f (some s) = do a ← f s; ok (some a)

  unfoldable pub peer_to_disk : ConnectionPeer → ConnectionPeerDisk
  peer_to_disk q = record {
    public_key_b64 = p.base64_encode q.public_key;
    preshared_key_b64 = Option.map p.base64_encode q.preshared_key;
    allowed_ips = map p.show_net q.allowed_ips;
    endpoint = Option.map p.show_socket_addr q.endpoint;
    endpoint_literal = q.endpoint_literal;
    persistent_keepalive = q.persistent_keepalive;
  }

  unfoldable pub config_to_disk : ConnectionConfig → ConnectionConfigDisk
  unfolding peer_to_disk
  config_to_disk c = record {
    private_key_b64 = p.base64_encode c.private_key;
    addresses = map p.show_net c.addresses;
    dns_servers = map p.show_ip c.dns_servers;
    mtu = c.mtu;
    pre_up = c.pre_up;
    post_up = c.post_up;
    pre_down = c.pre_down;
    post_down = c.post_down;
    peers = map peer_to_disk c.peers;
  }

  unfoldable pub peer_from_disk : ConnectionPeerDisk → Result ConnectionPeer
  unfolding parse_ipnet_field parse_endpoint_field
  peer_from_disk d = do
    key ← decode_key32 p d.public_key_b64
    psk ← transpose (decode_key32 p) d.preshared_key_b64
    ips ← try_map parse_ipnet_field d.allowed_ips
    endpoint ← transpose parse_endpoint_field d.endpoint
    ok (record {
      public_key = key;
      preshared_key = psk;
      allowed_ips = ips;
      endpoint = endpoint;
      endpoint_literal = d.endpoint_literal;
      persistent_keepalive = d.persistent_keepalive;
    })

  unfoldable pub config_from_disk : ConnectionConfigDisk → Result ConnectionConfig
  unfolding parse_ipnet_field parse_ip_field peer_from_disk
  config_from_disk d = do
    key ← decode_key32 p d.private_key_b64
    nets ← try_map parse_ipnet_field d.addresses
    dns ← try_map parse_ip_field d.dns_servers
    peers ← try_map peer_from_disk d.peers
    ok (record {
      private_key = key;
      addresses = nets;
      dns_servers = dns;
      mtu = d.mtu;
      pre_up = d.pre_up;
      post_up = d.post_up;
      pre_down = d.pre_down;
      post_down = d.post_down;
      peers = peers;
    })

  unfoldable pub to_disk : StoredConnection → StoredConnectionDisk
  unfolding config_to_disk
  to_disk c = record {
    id = c.id;
    fingerprint = c.fingerprint;
    global = c.global;
    owner_uid = c.owner_uid;
    start_mode = c.start_mode;
    name = c.name;
    config = config_to_disk c.config;
    raw_conf = c.raw_conf;
    interface = c.interface;
    created_at = c.created_at;
    updated_at = c.updated_at;
    user_disconnected = c.user_disconnected;
  }

  unfoldable pub from_disk : StoredConnectionDisk → Result StoredConnection
  unfolding config_from_disk
  from_disk d = do
    config ← config_from_disk d.config
    ok (record {
      id = d.id;
      fingerprint = d.fingerprint;
      global = d.global;
      owner_uid = d.owner_uid;
      start_mode = d.start_mode;
      name = d.name;
      config = config;
      raw_conf = d.raw_conf;
      interface = d.interface;
      created_at = d.created_at;
      updated_at = d.updated_at;
      user_disconnected = d.user_disconnected;
    })
