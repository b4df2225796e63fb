-- ===== src/Wireguard/Parser.antt =====
-- `parse_connection_config` and its helpers (src/wireguard/connection_config.rs). The locals of the
-- parser are the fields of `Parse`; the loop over the lines is `parse_lines`.
pub mod Accepted
use mathlib.Core.Option
use mathlib.Core.List.{reverse}
use tunmux.Error.{Result, err, ok, ok_or, try_map, wireguard, ◌>>=◌}
use tunmux.Prelude.{
  List, List_eq, Option, Option_eq, [], contains, if◌then◌else◌, is_empty, length, map, none, not,
  retain, some, ℕ, ℕ_eq, ◌++◌, ◌==◌, ◌||◌, ◌∷◌,
}
use tunmux.Text.{
  Str, before, codes, is_whitespace, lines, parse_unsigned, rsplit_once, split, split_once,
  starts_with, strip_prefix, strip_suffix, to_ascii_lowercase, trim,
}
use tunmux.Wireguard.{
  ConnectionConfig, ConnectionPeer, IpAddr, IpNet, Platform, Resolver, SocketAddr, parse_mtu,
}

pub data Section : Type 0 where
  outside interface peer : Section

pub record Parse : Type 0 where
  pub section : Section
  pub private_key : Option (List ℕ)
  pub addresses : List IpNet
  pub dns_servers : List IpAddr
  pub mtu : Option ℕ
  pub pre_up : List Str
  pub post_up : List Str
  pub pre_down : List Str
  pub post_down : List Str
  pub peers : List ConnectionPeer
  pub peer_public_key : Option (List ℕ)
  pub peer_preshared_key : Option (List ℕ)
  pub peer_allowed_ips : List IpNet
  pub peer_endpoint : Option SocketAddr
  pub peer_endpoint_literal : Option Str
  pub peer_keepalive : Option ℕ

abbrev pub start : Parse
start = record {
  section = outside;
  private_key = none;
  addresses = [];
  dns_servers = [];
  mtu = none;
  pre_up = [];
  post_up = [];
  pre_down = [];
  post_down = [];
  peers = [];
  peer_public_key = none;
  peer_preshared_key = none;
  peer_allowed_ips = [];
  peer_endpoint = none;
  peer_endpoint_literal = none;
  peer_keepalive = none;
}

-- `flush_peer`: `take` leaves the accumulators empty
unfoldable pub flush_peer : Parse → Result Parse
flush_peer s = do
  key ← ok_or wireguard s.peer_public_key
  if is_empty s.peer_allowed_ips
      then err wireguard
      else ok (record s {
        peers =
            s.peers
            ++ record {
              public_key = key;
              preshared_key = s.peer_preshared_key;
              allowed_ips = s.peer_allowed_ips;
              endpoint = s.peer_endpoint;
              endpoint_literal = s.peer_endpoint_literal;
              persistent_keepalive = s.peer_keepalive;
            }
              ∷ [];
        peer_public_key = none;
        peer_preshared_key = none;
        peer_allowed_ips = [];
        peer_endpoint = none;
        peer_endpoint_literal = none;
        peer_keepalive = none;
      })

-- `if section == Section::Peer { flush_peer(..)? }`
unfoldable pub flush_open_peer : Parse → Result Parse
unfolding flush_peer
flush_open_peer s = elim s.section [ peer ↦ flush_peer s | _ ↦ ok s ]

unfoldable pub split_csv : Str → List Str
unfolding split trim
split_csv value = retain (λ entry. not (is_empty entry)) (map trim (split b',' value))

-- the header's name: whitespace out, brackets off, lower case
unfoldable pub header_name : Str → Option Str
unfolding is_whitespace strip_prefix strip_suffix to_ascii_lowercase
header_name line =
    let stripped = retain (λ c. not (is_whitespace c)) line in
    elim (strip_prefix (b'[' ∷ []) stripped) [
      | none ↦ none
      | some s ↦ Option.map to_ascii_lowercase (strip_suffix (b']' ∷ []) s)
    ]

unfoldable pub open_section : Parse → Str → Result Parse
unfolding flush_open_peer header_name
open_section s line =
    if header_name line == some (codes "interface")
    then (do t ← flush_open_peer s; ok (record t { section = interface }))
    else if header_name line == some (codes "peer")
    then (do t ← flush_open_peer s; ok (record t { section = peer }))
    else err wireguard

-- `host.trim_matches(['[', ']'])`
unfoldable pub drop_brackets : Str → Str
drop_brackets [] = []
drop_brackets (c ∷ s) = let rest = drop_brackets s in if c == b'[' || c == b']' then rest else c ∷ s

unfoldable pub trim_brackets : Str → Str
unfolding drop_brackets
trim_brackets s = reverse (drop_brackets (reverse (drop_brackets s)))

-- recognised in [Interface] and without effect
abbrev pub ignored_keys : List Str
ignored_keys = codes "listenport" ∷ codes "fwmark" ∷ codes "table" ∷ codes "saveconfig" ∷ []

module _ (p : Platform) where
  unfoldable pub decode_key32 : Str → Result (List ℕ)
  decode_key32 value = do
    decoded ← ok_or wireguard (p.base64_decode value)
    if length decoded == 32 then ok decoded else err wireguard

  unfoldable pub parse_ipnet : Str → Result IpNet
  parse_ipnet value = ok_or wireguard (p.parse_net value)

  unfoldable pub parse_dns : Str → Result IpAddr
  parse_dns entry = ok_or wireguard (p.parse_ip entry)

module _ (p : Platform) (resolve : Resolver) where
  -- a bracketed or plain address with a port, or a host name for the resolver
  unfoldable pub parse_host : Str → Str → Result SocketAddr
  unfolding parse_unsigned
  parse_host host port = do
    n ← ok_or wireguard (parse_unsigned 65535 port)
    let bare = trim_brackets host
    elim (p.parse_ip bare) [ some a ↦ ok (record { ip = a; port = n }) | none ↦ resolve bare n ]

  unfoldable pub parse_endpoint : Str → Result SocketAddr
  unfolding parse_host rsplit_once
  parse_endpoint value = elim (p.parse_socket_addr value) [
    | some a ↦ ok a
    | none ↦ elim (rsplit_once b':' value) [
      | none ↦ err wireguard
      | some (host, port) ↦ parse_host host port
    ]
  ]

  unfoldable pub interface_directive : Parse → Str → Str → Result Parse
  unfolding decode_key32 parse_ipnet parse_dns split_csv parse_mtu
  interface_directive s key value =
      if key == codes "privatekey"
      then (do k ← decode_key32 p value; ok (record s { private_key = some k }))
      else if key == codes "address"
      then (do
        nets ← try_map (parse_ipnet p) (split_csv value)
        ok (record s { addresses = s.addresses ++ nets }))
      else if key == codes "dns"
      then (do
        ips ← try_map (parse_dns p) (split_csv value)
        ok (record s { dns_servers = s.dns_servers ++ ips }))
      else if key == codes "mtu"
      then (do m ← parse_mtu value; ok (record s { mtu = some m }))
      else if key == codes "preup"
      then ok (record s { pre_up = s.pre_up ++ value ∷ [] })
      else if key == codes "postup"
      then ok (record s { post_up = s.post_up ++ value ∷ [] })
      else if key == codes "predown"
      then ok (record s { pre_down = s.pre_down ++ value ∷ [] })
      else if key == codes "postdown"
      then ok (record s { post_down = s.post_down ++ value ∷ [] })
      else if contains ignored_keys key
      then ok s
      else err wireguard

  unfoldable pub peer_directive : Parse → Str → Str → Result Parse
  unfolding decode_key32 parse_ipnet split_csv parse_endpoint parse_unsigned
  peer_directive s key value =
      if key == codes "publickey"
      then (do k ← decode_key32 p value; ok (record s { peer_public_key = some k }))
      else if key == codes "presharedkey"
      then (do k ← decode_key32 p value; ok (record s { peer_preshared_key = some k }))
      else if key == codes "allowedips"
      then (do
        nets ← try_map (parse_ipnet p) (split_csv value)
        ok (record s { peer_allowed_ips = s.peer_allowed_ips ++ nets }))
      else if key == codes "endpoint"
      then (do
        a ← parse_endpoint value
        ok (record s { peer_endpoint = some a; peer_endpoint_literal = some value }))
      else if key == codes "persistentkeepalive"
      then (do
        n ← ok_or wireguard (parse_unsigned 65535 value)
        ok (record s { peer_keepalive = some n }))
      else err wireguard

  unfoldable pub directive : Parse → Str → Str → Result Parse
  unfolding interface_directive peer_directive
  directive s key value = elim s.section [
    | interface ↦ interface_directive s key value
    | peer ↦ peer_directive s key value
    | outside ↦ err wireguard
  ]

  -- a line that is no header: an empty value is skipped before the key is looked at
  unfoldable pub key_value : Parse → Str → Result Parse
  unfolding split_once trim to_ascii_lowercase directive
  key_value s line = elim (split_once b'=' line) [
    | none ↦ err wireguard
    | some (k, v) ↦
        let key = to_ascii_lowercase (trim k) in
        let value = trim v in if is_empty value then ok s else directive s key value
  ]

  unfoldable pub parse_line : Parse → Str → Result Parse
  unfolding before trim starts_with open_section key_value
  parse_line s raw_line =
      let line = trim (before b'#' raw_line) in
      if is_empty line
      then ok s
      else if starts_with (b'[' ∷ []) line
      then open_section s line
      else key_value s line

  unfoldable pub parse_lines : Parse → List Str → Result Parse
  unfolding parse_line
  parse_lines s [] = ok s
  parse_lines s (line ∷ rest) = parse_line s line >>= λ t. parse_lines t rest

  unfoldable pub finish : Parse → Result ConnectionConfig
  unfolding flush_open_peer
  finish s = do
    t ← flush_open_peer s
    key ← ok_or wireguard t.private_key
    if is_empty t.addresses
        then err wireguard
        else if is_empty t.peers
        then err wireguard
        else ok (record {
          private_key = key;
          addresses = t.addresses;
          dns_servers = t.dns_servers;
          mtu = t.mtu;
          pre_up = t.pre_up;
          post_up = t.post_up;
          pre_down = t.pre_down;
          post_down = t.post_down;
          peers = t.peers;
        })

  unfoldable pub parse_connection_config : Str → Result ConnectionConfig
  unfolding parse_lines lines finish
  parse_connection_config input = parse_lines start (lines input) >>= finish
