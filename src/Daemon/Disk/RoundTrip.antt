-- ===== src/Daemon/Disk/RoundTrip.antt =====
-- A stored record and its wire format, there and back (src/privileged/connection_store.rs).
use mathlib.Core.Option
use mathlib.Core.Path.{subst}
use tunmux.Daemon.{ConnectionConfigDisk, ConnectionPeerDisk, StoredConnection, StoredConnectionDisk}
use tunmux.Daemon.Disk.{
  config_from_disk, config_to_disk, from_disk, parse_endpoint_field, parse_ip_field,
  parse_ipnet_field, peer_from_disk, peer_to_disk, to_disk, transpose,
}
use tunmux.Error.{>>=-ok, ok, try_map}
use tunmux.Prelude.{
  All, List, Option, [], arith, length, map, nat_eq_iff, none, refl, some, sym, ℕ, ◌∙◌, ◌∷◌, ◌≡◌,
}
use tunmux.Text.{Str}
use tunmux.Wireguard.{
  ConnectionConfig, ConnectionPeer, IpAddr, IpNet, Platform, Resolver, SocketAddr,
}
use tunmux.Wireguard.Parser.{decode_key32, parse_connection_config}
use tunmux.Wireguard.Parser.Accepted.{
  HasKey, HasKeys, IsAccepted-HasKeys, IsKey, PeerHasKeys, decode_key32-IsKey,
  parse_connection_config-IsAccepted,
}

-- What the text forms of std, ipnet and base64 promise: what was printed is read back.
pub record Codecs (p : Platform) : Type 0 where
  pub ip : (a : IpAddr) → p.parse_ip (p.show_ip a) ≡ some a
  pub net : (n : IpNet) → p.parse_net (p.show_net n) ≡ some n
  pub socket_addr : (s : SocketAddr) → p.parse_socket_addr (p.show_socket_addr s) ≡ some s
  pub base64 : (bytes : List ℕ) → p.base64_decode (p.base64_encode bytes) ≡ some bytes

module _ (p : Platform) where
  psk-HasKey :
      (s : Option Str) (k : Option (List ℕ)) → transpose p (decode_key32 p) s ≡ ok k → HasKey k
  psk-HasKey none k h = let same : none ≡ k = cc in subst HasKey same tt
  psk-HasKey (some s) k h =
      let (a, decoded, rest) = >>=-ok (decode_key32 p s) (λ a. ok (some a)) h in
      let same : some a ≡ k = cc in subst HasKey same (decode_key32-IsKey p s a decoded)

  module _ (laws : Codecs p) where
    decode_key32-encode : (k : List ℕ) → IsKey k → decode_key32 p (p.base64_encode k) ≡ ok k
    unfolding decode_key32
    decode_key32-encode k h = rw (laws.base64 k) (ground (arith, nat_eq_iff (length k) 32))

    psk-round :
        (k : Option (List ℕ))
        → HasKey k
        → transpose p (decode_key32 p) (Option.map p.base64_encode k) ≡ ok k
    psk-round none h = refl
    psk-round (some k) h = rw (decode_key32-encode k h) refl

    endpoint-round :
        (s : Option SocketAddr)
        → transpose p (parse_endpoint_field p) (Option.map p.show_socket_addr s) ≡ ok s
    unfolding parse_endpoint_field
    endpoint-round none = refl
    endpoint-round (some s) = rw (laws.socket_addr s) refl

    nets-round : (ns : List IpNet) → try_map (parse_ipnet_field p) (map p.show_net ns) ≡ ok ns
    unfolding parse_ipnet_field
    nets-round [] = refl
    nets-round (n ∷ ns) = rw (laws.net n, nets-round ns) refl

    ips-round : (xs : List IpAddr) → try_map (parse_ip_field p) (map p.show_ip xs) ≡ ok xs
    unfolding parse_ip_field
    ips-round [] = refl
    ips-round (a ∷ xs) = rw (laws.ip a, ips-round xs) refl

    peer-round : (q : ConnectionPeer) → PeerHasKeys q → peer_from_disk p (peer_to_disk p q) ≡ ok q
    unfolding peer_from_disk peer_to_disk
    peer-round q (own, psk) =
        rw
          (
            decode_key32-encode q.public_key own,
            psk-round q.preshared_key psk,
            nets-round q.allowed_ips,
            endpoint-round q.endpoint,
          )
          refl

    peers-round :
        (qs : List ConnectionPeer)
        → All PeerHasKeys qs
        → try_map (peer_from_disk p) (map (peer_to_disk p) qs) ≡ ok qs
    peers-round [] h = refl
    peers-round (q ∷ qs) (h, hs) = rw (peer-round q h, peers-round qs hs) refl

    config-round :
        (c : ConnectionConfig) → HasKeys c → config_from_disk p (config_to_disk p c) ≡ ok c
    unfolding config_from_disk config_to_disk
    config-round c h =
        rw
          (
            decode_key32-encode c.private_key h.own,
            nets-round c.addresses,
            ips-round c.dns_servers,
            peers-round c.peers h.peers,
          )
          refl

-- A stored record whose keys have 32 bytes is read back from its wire format as it was, if what is
-- printed of an address and of a key is read back.
pub from_disk-to_disk :
    (p : Platform)
    → Codecs p
    → (c : StoredConnection) → HasKeys c.config
    → from_disk p (to_disk p c) ≡ ok c
unfolding from_disk to_disk
from_disk-to_disk p laws c h = rw (config-round p laws c.config h) refl

peer-HasKeys :
    (p : Platform) (d : ConnectionPeerDisk) (q : ConnectionPeer)
    → peer_from_disk p d ≡ ok q
    → PeerHasKeys q
unfolding peer_from_disk
peer-HasKeys p d q h =
    let (key, k, h1) = >>=-ok (decode_key32 p d.public_key_b64) _ h in
    let (psk, s, h2) = >>=-ok (transpose p (decode_key32 p) d.preshared_key_b64) _ h1 in
    let (ips, _, h3) = >>=-ok (try_map (parse_ipnet_field p) d.allowed_ips) _ h2 in
    let (endpoint, _, h4) = >>=-ok (transpose p (parse_endpoint_field p) d.endpoint) _ h3 in
    let own : key ≡ q.public_key = ground arith in
    let shared : psk ≡ q.preshared_key = ground arith in
    (
      subst IsKey own (decode_key32-IsKey p d.public_key_b64 key k),
      subst HasKey shared (psk-HasKey p d.preshared_key_b64 psk s),
    )

peers-HasKeys :
    (p : Platform) (ds : List ConnectionPeerDisk) (qs : List ConnectionPeer)
    → try_map (peer_from_disk p) ds ≡ ok qs
    → All PeerHasKeys qs
peers-HasKeys p [] qs h = let same : [] ≡ qs = cc in subst (All PeerHasKeys) same tt
peers-HasKeys p (d ∷ ds) qs h =
    let (q, one, rest) = >>=-ok (peer_from_disk p d) _ h in
    let (more, others, last) = >>=-ok (try_map (peer_from_disk p) ds) (λ ys. ok (q ∷ ys)) rest in
    let same : q ∷ more ≡ qs = cc in
    subst (All PeerHasKeys) same (peer-HasKeys p d q one, peers-HasKeys p ds more others)

-- What was read from the wire format has keys of 32 bytes.
config_from_disk-HasKeys :
    (p : Platform) (d : ConnectionConfigDisk) (config : ConnectionConfig)
    → config_from_disk p d ≡ ok config
    → HasKeys config
unfolding config_from_disk
config_from_disk-HasKeys p d config g =
    let (key, k, h1) = >>=-ok (decode_key32 p d.private_key_b64) _ g in
    let (nets, _, h2) = >>=-ok (try_map (parse_ipnet_field p) d.addresses) _ h1 in
    let (ips, _, h3) = >>=-ok (try_map (parse_ip_field p) d.dns_servers) _ h2 in
    let (peers, qs, h4) = >>=-ok (try_map (peer_from_disk p) d.peers) _ h3 in
    let own : key ≡ config.private_key = ground arith in
    let all : peers ≡ config.peers = ground arith in
    record {
      own = subst IsKey own (decode_key32-IsKey p d.private_key_b64 key k);
      peers = subst (All PeerHasKeys) all (peers-HasKeys p d.peers peers qs);
    }

pub from_disk-HasKeys :
    (p : Platform) (d : StoredConnectionDisk) (c : StoredConnection)
    → from_disk p d ≡ ok c
    → HasKeys c.config
unfolding from_disk
from_disk-HasKeys p d c h =
    let (config, g, last) = >>=-ok (config_from_disk p d.config) _ h in
    let same : config ≡ c.config = ground arith in
    subst HasKeys same (config_from_disk-HasKeys p d.config config g)

-- A configuration that was read is, once written, read as it was.
pub config_from_disk-again :
    (p : Platform)
    → Codecs p
    → (d : ConnectionConfigDisk) (c : ConnectionConfig) → config_from_disk p d ≡ ok c
    → config_from_disk p (config_to_disk p c) ≡ config_from_disk p d
config_from_disk-again p laws d c h =
    config-round p laws c (config_from_disk-HasKeys p d c h) ∙ sym h

-- The record that is stored of a configuration that the parser accepted is read back from its wire
-- format as it was, if what is printed of an address and of a key is read back.
pub from_disk-parsed :
    (p : Platform)
    → Codecs p
    → (resolve : Resolver) (c : StoredConnection)
    → parse_connection_config p resolve c.raw_conf ≡ ok c.config
    → from_disk p (to_disk p c) ≡ ok c
from_disk-parsed p laws resolve c h = from_disk-to_disk p laws c (
    IsAccepted-HasKeys c.config
      (parse_connection_config-IsAccepted p resolve c.raw_conf c.config h))
