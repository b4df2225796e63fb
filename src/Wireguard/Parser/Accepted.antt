-- ===== src/Wireguard/Parser/Accepted.antt =====
-- What the parser accepts (src/wireguard/connection_config.rs).
use tunmux.Error.{AppError, err, ok, ok_or, try_map}
use tunmux.Error.Yields.{
  Any-Yields, Yields, Yields-bind, Yields-err, Yields-if, Yields-ok, Yields-unless,
}
use tunmux.Prelude.{
  All, Bool, List, List_eq, Option, [], contains, false, if◌then◌else◌, is_empty, length, ltb,
  nat_eq_iff, none, refl, some, true, ℕ, ℕ_eq, ◌++◌, ◌==◌, ◌∷◌, ◌≡◌,
}
use tunmux.Text.{
  Str, before, codes, lines, parse_unsigned, split_once, starts_with, to_ascii_lowercase, trim,
}
use tunmux.Wireguard.{
  ConnectionConfig, ConnectionPeer, Platform, Resolver, min_mtu, parse_mtu, validate_mtu,
}
use tunmux.Wireguard.Parser.{
  Parse, Section, decode_key32, directive, finish, flush_open_peer, flush_peer, ignored_keys,
  interface, interface_directive, key_value, open_section, outside, parse_connection_config,
  parse_dns, parse_endpoint, parse_ipnet, parse_line, parse_lines, peer, peer_directive, split_csv,
  start,
}

abbrev pub IsKey : List ℕ → Type 0
IsKey bytes = length bytes ≡ 32

abbrev pub HasKey : Option (List ℕ) → Type 0
HasKey none = Unit
HasKey (some bytes) = IsKey bytes

abbrev pub PeerHasKeys : ConnectionPeer → Type 0
PeerHasKeys q = IsKey q.public_key × HasKey q.preshared_key

-- every key of the configuration has 32 bytes
pub record HasKeys (c : ConnectionConfig) : Type 0 where
  pub own : IsKey c.private_key
  pub peers : All PeerHasKeys c.peers

abbrev HasMtu : Option ℕ → Type 0
HasMtu none = Unit
HasMtu (some mtu) = ltb mtu min_mtu ≡ false

abbrev PeerIsAccepted : ConnectionPeer → Type 0
PeerIsAccepted q = PeerHasKeys q × (is_empty q.allowed_ips ≡ false)

-- keys of 32 bytes, an address, a peer, an allowed network for each peer, and no MTU below the least
pub record IsAccepted (c : ConnectionConfig) : Type 0 where
  pub own : IsKey c.private_key
  pub peers : All PeerIsAccepted c.peers
  pub mtu : HasMtu c.mtu
  pub some_address : is_empty c.addresses ≡ false
  pub some_peer : is_empty c.peers ≡ false

record Good (s : Parse) : Type 0 where
  own : HasKey s.private_key
  public : HasKey s.peer_public_key
  psk : HasKey s.peer_preshared_key
  peers : All PeerIsAccepted s.peers
  mtu : HasMtu s.mtu

All-snoc :
    (qs : List ConnectionPeer) (q : ConnectionPeer)
    → All PeerIsAccepted qs
    → PeerIsAccepted q
    → All PeerIsAccepted (qs ++ q ∷ [])
All-snoc [] q hs h = (h, tt)
All-snoc (x ∷ qs) q (k, hs) h = (k, All-snoc qs q hs h)

IsKey-Yields : (o : Option (List ℕ)) → HasKey o → Yields IsKey (ok_or AppError.wireguard o)
IsKey-Yields none h = Yields-err AppError.wireguard
IsKey-Yields (some k) h = Yields-ok k h

flush_peer-Good : (s : Parse) → Good s → Yields Good (flush_peer s)
unfolding flush_peer
flush_peer-Good s g =
    Yields-bind (ok_or AppError.wireguard s.peer_public_key) _
      (IsKey-Yields s.peer_public_key g.public)
      λ k h. Yields-unless (is_empty s.peer_allowed_ips) _ _ (Yields-err _) λ filled.
        Yields-ok _ (record {
          own = g.own;
          public = tt;
          psk = tt;
          peers = All-snoc s.peers _ g.peers ((h, g.psk), filled);
          mtu = g.mtu;
        })

flush_open_peer-Good : (s : Parse) → Good s → Yields Good (flush_open_peer s)
unfolding flush_open_peer
flush_open_peer-Good s g = by_section s.section
  where
    by_section : (x : Section) → Yields Good (elim x [ peer ↦ flush_peer s | _ ↦ ok s ])
    by_section peer = flush_peer-Good s g
    by_section interface = Yields-ok s g
    by_section outside = Yields-ok s g

moved : (s : Parse) (x : Section) → Good s → Good (record s { section = x })
moved s x g = record { own = g.own; public = g.public; psk = g.psk; peers = g.peers; mtu = g.mtu }

open_section-Good : (s : Parse) (line : Str) → Good s → Yields Good (open_section s line)
unfolding open_section
open_section-Good s line g =
    Yields-if _ _ _
      (Yields-bind (flush_open_peer s) _ (flush_open_peer-Good s g)
        λ t h. Yields-ok _ (moved t interface h))
      (Yields-if _ _ _
        (Yields-bind (flush_open_peer s) _ (flush_open_peer-Good s g)
          λ t h. Yields-ok _ (moved t peer h))
        (Yields-err _))

-- the accumulators that the properties do not speak of
kept :
    (s t : Parse)
    → (t.private_key ≡ s.private_key)
      × (t.peer_public_key ≡ s.peer_public_key)
      × (t.peer_preshared_key ≡ s.peer_preshared_key)
      × (t.peers ≡ s.peers)
      × (t.mtu ≡ s.mtu)
    → Good s
    → Good t
kept s t p g = record {
  own = rw p.0 g.own;
  public = rw p.1 g.public;
  psk = rw p.2 g.psk;
  peers = rw p.3 g.peers;
  mtu = rw p.4 g.mtu;
}

validate-Yields : (m : ℕ) → Yields (λ _. ltb m min_mtu ≡ false) (validate_mtu m)
unfolding validate_mtu
validate-Yields m = Yields-unless (ltb m min_mtu) _ _ (Yields-err _) λ fine. Yields-ok tt fine

parse_mtu-Yields : (value : Str) → Yields (λ m. ltb m min_mtu ≡ false) (parse_mtu value)
unfolding parse_mtu
parse_mtu-Yields value =
    Yields-bind (ok_or AppError.wireguard (parse_unsigned 65535 value)) _ (Any-Yields _)
      λ m _. Yields-bind (validate_mtu m) _ (validate-Yields m) λ _ fine. Yields-ok m fine

module _ (p : Platform) where
  decode-Yields : (value : Str) → Yields IsKey (decode_key32 p value)
  unfolding decode_key32
  decode-Yields value =
      Yields-bind (ok_or AppError.wireguard (p.base64_decode value)) _ (Any-Yields _)
        λ bytes _. Yields-key bytes (length bytes == 32) ((nat_eq_iff (length bytes) 32).0)
    where
      Yields-key :
          (bytes : List ℕ) (b : Bool)
          → (b ≡ true → IsKey bytes)
          → Yields IsKey (if b then ok bytes else err AppError.wireguard)
      Yields-key bytes true h = Yields-ok bytes (h refl)
      Yields-key bytes false h = Yields-err _

  pub decode_key32-IsKey : (value : Str) (k : List ℕ) → decode_key32 p value ≡ ok k → IsKey k
  decode_key32-IsKey value k h = (decode-Yields value).from k h

module _ (p : Platform) (resolve : Resolver) where
  interface_directive-Good :
      (s : Parse) (key value : Str)
      → Good s
      → Yields Good (interface_directive p resolve s key value)
  unfolding interface_directive
  interface_directive-Good s key value g =
      Yields-if (key == codes "privatekey") _ _
        (Yields-bind (decode_key32 p value) _ (decode-Yields p value) λ k h.
          Yields-ok _
            (record { own = h; public = g.public; psk = g.psk; peers = g.peers; mtu = g.mtu }))
        (Yields-if (key == codes "address") _ _
          (Yields-bind (try_map (parse_ipnet p) (split_csv value)) _ (Any-Yields _)
            λ nets _. Yields-ok _ (kept s _ (refl, refl, refl, refl, refl) g))
          (Yields-if (key == codes "dns") _ _
            (Yields-bind (try_map (parse_dns p) (split_csv value)) _ (Any-Yields _)
              λ ips _. Yields-ok _ (kept s _ (refl, refl, refl, refl, refl) g))
            (Yields-if (key == codes "mtu") _ _
              (Yields-bind (parse_mtu value) _ (parse_mtu-Yields value) λ m h.
                Yields-ok _ (record {
                  own = g.own;
                  public = g.public;
                  psk = g.psk;
                  peers = g.peers;
                  mtu = h;
                }))
              (Yields-if (key == codes "preup") _ _
                (Yields-ok (record s { pre_up = s.pre_up ++ value ∷ [] })
                  (kept s (record s { pre_up = s.pre_up ++ value ∷ [] })
                    (refl, refl, refl, refl, refl) g))
                (Yields-if (key == codes "postup") _ _
                  (Yields-ok (record s { post_up = s.post_up ++ value ∷ [] })
                    (kept s (record s { post_up = s.post_up ++ value ∷ [] })
                      (refl, refl, refl, refl, refl) g))
                  (Yields-if (key == codes "predown") _ _
                    (Yields-ok (record s { pre_down = s.pre_down ++ value ∷ [] })
                      (kept s (record s { pre_down = s.pre_down ++ value ∷ [] })
                        (refl, refl, refl, refl, refl) g))
                    (Yields-if (key == codes "postdown") _ _
                      (Yields-ok (record s { post_down = s.post_down ++ value ∷ [] })
                        (kept s (record s { post_down = s.post_down ++ value ∷ [] })
                          (refl, refl, refl, refl, refl) g))
                      (Yields-if (contains ignored_keys key) _ _ (Yields-ok s g)
                        (Yields-err _)))))))))

  peer_directive-Good :
      (s : Parse) (key value : Str) → Good s → Yields Good (peer_directive p resolve s key value)
  unfolding peer_directive
  peer_directive-Good s key value g =
      Yields-if (key == codes "publickey") _ _
        (Yields-bind (decode_key32 p value) _ (decode-Yields p value) λ k h.
          Yields-ok _
            (record { own = g.own; public = h; psk = g.psk; peers = g.peers; mtu = g.mtu }))
        (Yields-if (key == codes "presharedkey") _ _
          (Yields-bind (decode_key32 p value) _ (decode-Yields p value) λ k h.
            Yields-ok _
              (record { own = g.own; public = g.public; psk = h; peers = g.peers; mtu = g.mtu }))
          (Yields-if (key == codes "allowedips") _ _
            (Yields-bind (try_map (parse_ipnet p) (split_csv value)) _ (Any-Yields _)
              λ nets _. Yields-ok _ (kept s _ (refl, refl, refl, refl, refl) g))
            (Yields-if (key == codes "endpoint") _ _
              (Yields-bind (parse_endpoint p resolve value) _ (Any-Yields _)
                λ a _. Yields-ok _ (kept s _ (refl, refl, refl, refl, refl) g))
              (Yields-if (key == codes "persistentkeepalive") _ _
                (Yields-bind (ok_or AppError.wireguard (parse_unsigned 65535 value)) _
                  (Any-Yields _) λ n _. Yields-ok _ (kept s _ (refl, refl, refl, refl, refl) g))
                (Yields-err _)))))

  directive-Good :
      (s : Parse) (key value : Str) → Good s → Yields Good (directive p resolve s key value)
  unfolding directive
  directive-Good s key value g = by_section s.section
    where
      by_section :
          (x : Section)
          → Yields Good (elim x [
            | interface ↦ interface_directive p resolve s key value
            | peer ↦ peer_directive p resolve s key value
            | outside ↦ err AppError.wireguard
          ])
      by_section interface = interface_directive-Good s key value g
      by_section peer = peer_directive-Good s key value g
      by_section outside = Yields-err _

  key_value-Good : (s : Parse) (line : Str) → Good s → Yields Good (key_value p resolve s line)
  unfolding key_value
  key_value-Good s line g = by_parts (split_once b'=' line)
    where
      by_parts :
          (o : Option (Str × Str))
          → Yields Good (elim o [
            | none ↦ err AppError.wireguard
            | some (k, v) ↦
                if is_empty (trim v)
                then ok s
                else directive p resolve s (to_ascii_lowercase (trim k)) (trim v)
          ])
      by_parts none = Yields-err _
      by_parts (some (k, v)) =
          Yields-if (is_empty (trim v)) _ _ (Yields-ok s g)
            (directive-Good s (to_ascii_lowercase (trim k)) (trim v) g)

  parse_line-Good : (s : Parse) (raw : Str) → Good s → Yields Good (parse_line p resolve s raw)
  unfolding parse_line
  parse_line-Good s raw g =
      let line = trim (before b'#' raw) in
      Yields-if (is_empty line) _ _ (Yields-ok s g) (
        Yields-if (starts_with (b'[' ∷ []) line) _ _ (open_section-Good s line g)
          (key_value-Good s line g))

  parse_lines-Good : (s : Parse) (ls : List Str) → Good s → Yields Good (parse_lines p resolve s ls)
  unfolding parse_lines
  parse_lines-Good s [] g = Yields-ok s g
  parse_lines-Good s (line ∷ rest) g =
      Yields-bind (parse_line p resolve s line) _ (parse_line-Good s line g)
        λ t h. parse_lines-Good t rest h

finish-IsAccepted :
    (p : Platform) (resolve : Resolver) (s : Parse)
    → Good s
    → Yields IsAccepted (finish p resolve s)
unfolding finish
finish-IsAccepted p resolve s g =
    Yields-bind (flush_open_peer s) _ (flush_open_peer-Good s g) λ t h.
      Yields-bind (ok_or AppError.wireguard t.private_key) _ (IsKey-Yields t.private_key h.own)
        λ k own. Yields-unless (is_empty t.addresses) _ _ (Yields-err _) λ some_address.
          Yields-unless (is_empty t.peers) _ _ (Yields-err _) λ some_peer. Yields-ok _ (record {
            own = own;
            peers = h.peers;
            mtu = h.mtu;
            some_address = some_address;
            some_peer = some_peer;
          })

-- A configuration that the parser accepts has keys of 32 bytes, at least one address and one peer, at
-- least one allowed network for each peer, and no MTU below 576.
pub parse_connection_config-IsAccepted :
    (p : Platform) (resolve : Resolver) (input : Str) (c : ConnectionConfig)
    → parse_connection_config p resolve input ≡ ok c
    → IsAccepted c
unfolding parse_connection_config
parse_connection_config-IsAccepted p resolve input c h =
    (Yields-bind (parse_lines p resolve start (lines input)) (finish p resolve)
        (parse_lines-Good p resolve start (lines input)
          (record { own = tt; public = tt; psk = tt; peers = tt; mtu = tt }))
        (finish-IsAccepted p resolve)).from
      c h

accepted-PeerHasKeys : (qs : List ConnectionPeer) → All PeerIsAccepted qs → All PeerHasKeys qs
accepted-PeerHasKeys [] h = tt
accepted-PeerHasKeys (q ∷ qs) (h, hs) = (h.0, accepted-PeerHasKeys qs hs)

pub IsAccepted-HasKeys : (c : ConnectionConfig) → IsAccepted c → HasKeys c
IsAccepted-HasKeys c h = record { own = h.own; peers = accepted-PeerHasKeys c.peers h.peers }
