-- ===== src/Wireguard/Fingerprint.antt =====
-- `fingerprint` and its encoding (src/wireguard/connection_config.rs). A byte is a number below 256;
-- `as u32` and the byte splits keep their wrap-around.

use mathlib.Core.Option
use tunmux.Prelude.{
  List, Option, [], if◌then◌else◌, length, ltb, none, some, suc, zero, ℕ, ◌%◌, ◌++◌, ◌+◌, ◌-◌, ◌/◌,
  ◌^◌, ◌∷◌,
}
use tunmux.Text.{Str, as_bytes, codes}
use tunmux.Wireguard.{ConnectionConfig, ConnectionPeer, IpAddr, IpNet, Platform, v4, v6}

-- `to_le_bytes` of a u32 and of a u16
unfoldable pub u32_le : ℕ → List ℕ
u32_le n = n % 256 ∷ n / 256 % 256 ∷ n / 65536 % 256 ∷ n / 16777216 % 256 ∷ []

unfoldable pub u16_le : ℕ → List ℕ
u16_le n = n % 256 ∷ n / 256 % 256 ∷ []

-- `as u32`
abbrev pub u32_mod : ℕ
u32_mod = 2 ^ 32

-- Each function appends to the buffer in the source; here it returns the bytes appended.
unfoldable pub push_u32 : ℕ → List ℕ
unfolding u32_le
push_u32 n = u32_le (n % u32_mod)

unfoldable pub push_option_u16 : Option ℕ → List ℕ
unfolding u16_le
push_option_u16 none = 0 ∷ []
push_option_u16 (some v) = 1 ∷ u16_le v

unfoldable pub push_bytes : List ℕ → List ℕ
unfolding push_u32
push_bytes bytes = push_u32 (length bytes) ++ bytes

-- the octets of an address, most significant first
unfoldable pub be_bytes : ℕ → ℕ → List ℕ
be_bytes zero n = []
be_bytes (suc k) n = be_bytes k (n / 256) ++ n % 256 ∷ []

unfoldable pub push_ip : IpAddr → List ℕ
unfolding be_bytes
push_ip (v4 a) = 4 ∷ be_bytes 4 a
push_ip (v6 a) = 6 ∷ be_bytes 16 a

unfoldable pub push_net : IpNet → List ℕ
unfolding push_ip
push_net net = push_ip net.addr ++ net.prefix_len ∷ []

-- a count, and the items one after the other
unfoldable pub push_all {ℓ} : {A : Type ℓ} → (A → List ℕ) → List A → List ℕ
push_all f [] = []
push_all f (x ∷ xs) = f x ++ push_all f xs

unfoldable pub push_list {ℓ} : {A : Type ℓ} → (A → List ℕ) → List A → List ℕ
unfolding push_u32 push_all
push_list f xs = push_u32 (length xs) ++ push_all f xs

unfoldable pub push_ipnets : List IpNet → List ℕ
unfolding push_list push_net
push_ipnets = push_list push_net

unfoldable pub push_string : Str → List ℕ
unfolding push_bytes as_bytes
push_string s = push_bytes (as_bytes s)

unfoldable pub push_strings : List Str → List ℕ
unfolding push_list push_string
push_strings = push_list push_string

-- `Some`: a 1 and the bytes; `None`: a 0
unfoldable pub push_option_bytes : Option (List ℕ) → List ℕ
unfolding push_bytes
push_option_bytes none = 0 ∷ []
push_option_bytes (some b) = 1 ∷ push_bytes b

unfoldable pub push_peer : ConnectionPeer → List ℕ
unfolding push_bytes push_option_bytes push_ipnets push_option_u16 as_bytes
push_peer q =
    push_bytes q.public_key
    ++ (push_option_bytes q.preshared_key
        ++ (push_ipnets q.allowed_ips
            ++ (push_option_bytes (Option.map as_bytes q.endpoint_literal)
                ++ push_option_u16 q.persistent_keepalive)))

unfoldable pub encode_config : ConnectionConfig → List ℕ
unfolding push_bytes push_ipnets push_list push_ip push_option_u16 push_strings push_peer
encode_config config =
    push_bytes config.private_key
    ++ (push_ipnets config.addresses
        ++ (push_list push_ip config.dns_servers
            ++ (push_option_u16 config.mtu
                ++ (push_strings config.pre_up
                    ++ (push_strings config.post_up
                        ++ (push_strings config.pre_down
                            ++ (push_strings config.post_down
                                ++ push_list push_peer config.peers)))))))

abbrev pub fingerprint_tag : List ℕ
fingerprint_tag = codes "wgd-connfp-v1"

abbrev hex_digit : ℕ → ℕ
hex_digit n = if ltb n 10 then b'0' + n else b'a' + (n - 10)

unfoldable pub hex_encode : List ℕ → Str
hex_encode [] = []
hex_encode (b ∷ bytes) = hex_digit (b / 16) ∷ hex_digit (b % 16) ∷ hex_encode bytes

unfoldable pub fingerprint : Platform → ConnectionConfig → Str
unfolding encode_config hex_encode
fingerprint p config =
    codes "sha256:" ++ hex_encode (p.sha256 (fingerprint_tag ++ encode_config config))
