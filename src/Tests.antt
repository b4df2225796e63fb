-- ===== src/Tests.antt =====
-- A small installation of the daemon: one caller's connection, one global connection, and a caller's
-- requests on them. Text is simplified: an address is one character and its family, a key is its
-- own base64 text.
pub mod Witnesses
pub mod Sockets
pub mod Tunnels
pub mod Agents
use mathlib.Core.Option
use tunmux.Api.{ConnectionId, Uuids, automatic, interface_name, manual, network_overview, wg_show}
use tunmux.Daemon.{Env, Metadata, StoredConnection, World, readable, record_file}
use tunmux.Daemon.Control.{new_control_state}
use tunmux.Daemon.Disk.{to_disk}
use tunmux.Daemon.Disk.RoundTrip.{Codecs}
use tunmux.Daemon.Dispatch.Handlers.{Daemon}
use tunmux.Daemon.Ops.{gotatun_down, gotatun_up}
use tunmux.Error.{Result, err, io, not_found, ok, wireguard}
use tunmux.Prelude.{
  Bool, List_eq, Option, [], all, false, if◌then◌else◌, none, refl, some, true, ℕ, ℕ_eq, ◌++◌, ◌+◌,
  ◌==◌, ◌∷◌, ◌≡◌,
}
use tunmux.Text.{Str, codes}
use tunmux.Wireguard.{ConnectionConfig, IpAddr, IpNet, Platform, Resolver, SocketAddr, v4, v6}
use tunmux.Wireguard.Fingerprint.{fingerprint}
use tunmux.Wireguard.Parser.{parse_connection_config}

abbrev show_ip : IpAddr → Str
show_ip (v4 n) = n ∷ b'4' ∷ []
show_ip (v6 n) = n ∷ b'6' ∷ []

abbrev parse_ip : Str → Option IpAddr
parse_ip (n ∷ k ∷ []) = if k == b'4' then some (v4 n) else if k == b'6' then some (v6 n) else none
parse_ip _ = none

abbrev show_net : IpNet → Str
show_net n = n.prefix_len ∷ show_ip n.addr

abbrev parse_net : Str → Option IpNet
parse_net [] = none
parse_net (k ∷ s) = Option.map (λ a. record { addr = a; prefix_len = k }) (parse_ip s)

abbrev show_socket_addr : SocketAddr → Str
show_socket_addr s = s.port ∷ show_ip s.ip

abbrev parse_socket_addr : Str → Option SocketAddr
parse_socket_addr [] = none
parse_socket_addr (k ∷ s) = Option.map (λ a. record { ip = a; port = k }) (parse_ip s)

abbrev pub platform : Platform
platform = record {
  parse_ip = parse_ip;
  show_ip = show_ip;
  parse_net = parse_net;
  show_net = show_net;
  parse_socket_addr = parse_socket_addr;
  show_socket_addr = show_socket_addr;
  base64_encode = λ bytes. bytes;
  base64_decode = some;
  sha256 = λ bytes. bytes;
}

show_ip-round : (a : IpAddr) → parse_ip (show_ip a) ≡ some a
show_ip-round (v4 n) = refl
show_ip-round (v6 n) = refl

pub platform-Codecs : Codecs platform
platform-Codecs = record {
  ip = show_ip-round;
  net = λ n. rw (show_ip-round n.addr) refl;
  socket_addr = λ s. rw (show_ip-round s.ip) refl;
  base64 = λ bytes. refl;
}

abbrev pub no_resolver : Resolver
no_resolver host port = err wireguard

abbrev pub uuids : Uuids
uuids = record { parse_str = λ s. none; simple = λ id. id ∷ [] }

abbrev key : Str
key = codes "0123456789abcdef0123456789abcdef"

abbrev newline : Str
newline = 10 ∷ []

abbrev pub conf_text : Str
conf_text =
    codes "[Interface]"
    ++ newline
    ++ codes "PrivateKey = "
    ++ key
    ++ newline
    ++ codes "Address = x14"
    ++ newline
    ++ codes "PreUp = touch /tmp/%i"
    ++ newline
    ++ codes "[Peer]"
    ++ newline
    ++ codes "PublicKey = "
    ++ key
    ++ newline
    ++ codes "AllowedIPs = x24"
    ++ newline

abbrev empty_config : ConnectionConfig
empty_config = record {
  private_key = [];
  addresses = [];
  dns_servers = [];
  mtu = none;
  pre_up = [];
  post_up = [];
  pre_down = [];
  post_down = [];
  peers = [];
}

abbrev or_empty : Result ConnectionConfig → ConnectionConfig
or_empty (ok g) = g
or_empty (err _) = empty_config

unfoldable pub parsed : ConnectionConfig
unfolding parse_connection_config
parsed = or_empty (parse_connection_config platform no_resolver conf_text)

unfoldable pub stored : ConnectionId → Bool → Option ℕ → StoredConnection
unfolding parsed fingerprint interface_name
stored id global owner = record {
  id = id;
  fingerprint = fingerprint platform parsed;
  global = global;
  owner_uid = owner;
  start_mode = manual;
  name = none;
  config = parsed;
  raw_conf = conf_text;
  interface = interface_name uuids id;
  created_at = 1;
  updated_at = 1;
  user_disconnected = false;
}

-- the connection 7 of the user 501, and the global connection 8
unfoldable pub world : World
unfolding stored to_disk
world = record {
  records =
      record {
        name = record_file 7;
        content = readable (to_disk platform (stored 7 false (some 501)));
      }
      ∷ record { name = record_file 8; content = readable (to_disk platform (stored 8 true none)) }
      ∷ [];
  active = [];
  marker = none;
  sockets = λ path. err (io not_found);
  trace = [];
}

abbrev metadata : Metadata
metadata = record { dev = 1; ino = 2; ctime = 3; ctime_nsec = 4 }

-- every lock is free and every write succeeds; the authorization is granted to a form of ones
abbrev pub env : Env
env = record {
  platform = platform;
  uuids = uuids;
  resolve = no_resolver;
  now = 5;
  sudo_uid = none;
  index_lock = none;
  connection_lock = λ id. none;
  network_lock = λ phase. none;
  read_dir = none;
  write_record = λ id. none;
  delete_record = λ id. none;
  write_active = λ id. none;
  delete_active = λ id. none;
  write_marker = none;
  new_id = λ n. 20 + n;
  grants = all (λ b. b == 1);
  boot_id = some (codes "boot");
  wg_show = λ i. ok [];
  network_overview = λ i. ok none;
  run_shell = λ line s. (ok tt, s);
  pid_is_alive = λ pid. pid == 42;
  gotatun_up = λ i conf debug s. (ok tt, λ path. ok metadata);
  gotatun_down = λ i s. (ok tt, s);
}

abbrev pub daemon : Daemon
daemon = record { control = new_control_state true; world = world }

-- a global connection that runs at boot
unfoldable pub boot_world : World
unfolding world stored to_disk
boot_world = record world {
  records =
      record {
        name = record_file 8;
        content =
            readable (to_disk platform (record (stored 8 true none) { start_mode = automatic }));
      }
      ∷ [];
}
