-- ===== src/Api.antt =====
-- src/privileged_api.rs: the requests and responses of the privileged daemon, and the checks on what a
-- caller supplies. A `ConnectionId` is the 128-bit value of its UUID; reading and printing a UUID
-- is the uuid crate's, and stands in a `Uuids`. `validate` returns whether the source returns `Ok`.
use tunmux.Error.{Result, err, ok}
use tunmux.Prelude.{
  Bool, List, List_eq, Option, all, false, is_empty, leb, none, not, some, take, true, ℕ, ℕ_eq,
  ◌&&◌, ◌*◌, ◌++◌, ◌==◌, ◌||◌,
}
use tunmux.Text.{
  Str, codes, is_ascii_alphanumeric, is_ascii_digit, is_ascii_lowercase, len, strip_prefix, trim,
}
use tunmux.Wireguard.{validate_mtu}

abbrev pub ConnectionId : Type 0
ConnectionId = ℕ

pub record Uuids : Type 0 where
  pub parse_str : Str → Option ConnectionId
  -- `simple().to_string()`
  pub simple : ConnectionId → Str

-- `ConnectionId::interface_name`
unfoldable pub interface_name : Uuids → ConnectionId → Str
interface_name u id = codes "wg-" ++ take 8 (u.simple id)

pub data ConnectionStartMode : Type 0 where
  manual automatic : ConnectionStartMode

pub data DisconnectReason : Type 0 where
  user session_teardown : DisconnectReason

pub data ConnectReason : Type 0 where
  user reconciliation : ConnectReason

pub data ConnectionScope : Type 0 where
  mine global all_scopes : ConnectionScope

pub record PeerSummary : Type 0 where
  pub public_key : Str
  pub allowed_ips : List Str
  pub endpoint : Option Str
  pub has_preshared_key : Bool

pub record ConnectionSummary : Type 0 where
  pub id : ConnectionId
  pub global : Bool
  pub owner_uid : Option ℕ
  pub start_mode : ConnectionStartMode
  pub name : Option Str
  pub interface : Str
  pub connected : Bool
  pub user_disconnected : Bool
  pub addresses : List Str
  pub dns_servers : List Str
  pub mtu : Option ℕ
  pub peers : List PeerSummary
  pub fingerprint : Option Str
  pub created_at : ℕ
  pub updated_at : ℕ

pub record AddRequest : Type 0 where
  pub conf_text : Str
  pub global : Bool
  pub start_mode : ConnectionStartMode
  pub name : Option Str
  pub mtu_override : Option ℕ
  pub force : Bool
  pub auth_external_form : Option (List ℕ)

pub data PrivilegedRequest : Type 0 where
  lease_acquire lease_release : Str → PrivilegedRequest
  shutdown_if_idle : PrivilegedRequest
  interface_active wg_show network_overview : Str → PrivilegedRequest
  add_connection : AddRequest → PrivilegedRequest
  remove_connection : ConnectionId → Option (List ℕ) → PrivilegedRequest
  connect_connection : ConnectionId → Bool → ConnectReason → PrivilegedRequest
  disconnect_connection : ConnectionId → DisconnectReason → PrivilegedRequest
  set_connection_mode : ConnectionId → ConnectionStartMode → Option (List ℕ) → PrivilegedRequest
  list_connections : ConnectionScope → PrivilegedRequest
  get_connection : ConnectionId → PrivilegedRequest

-- the `code` of an error response; its `message` is not modelled
pub data ErrorCode : Type 0 where
  protocol validation control auth auth_required busy name_in_use : ErrorCode
  not_found wireguard kernel other : ErrorCode

pub data PrivilegedResponse : Type 0 where
  unit : PrivilegedResponse
  bool : Bool → PrivilegedResponse
  text : Str → PrivilegedResponse
  error : ErrorCode → PrivilegedResponse
  connection_id : ConnectionId → PrivilegedResponse
  connection : ConnectionSummary → PrivilegedResponse
  connection_list : List ConnectionSummary → PrivilegedResponse

abbrev pub max_conf_text_bytes : ℕ
max_conf_text_bytes = 64 * 1024

abbrev pub is_name_char : ℕ → Bool
is_name_char c = is_ascii_lowercase c || is_ascii_digit c || c == b'-' || c == b'_' || c == b'.'

abbrev pub is_interface_char : ℕ → Bool
is_interface_char c = is_ascii_lowercase c || is_ascii_digit c || c == b'-'

abbrev pub is_token_char : ℕ → Bool
is_token_char c = is_ascii_alphanumeric c || c == b':' || c == b'-' || c == b'_'

unfoldable pub validate_name_charset : Uuids → Str → ℕ → Bool
unfolding len
validate_name_charset u name max_len =
    not (is_empty name)
    && leb (len name) max_len
    && all is_name_char name
    && elim (u.parse_str name) [ some _ ↦ false | none ↦ true ]

-- the `utunN` names: a number of one to three digits
unfoldable pub is_utun_number : Str → Bool
unfolding strip_prefix len
is_utun_number interface = elim (strip_prefix (codes "utun") interface) [
  | none ↦ false
  | some suffix ↦ not (is_empty suffix) && all is_ascii_digit suffix && leb (len suffix) 3
]

unfoldable pub is_wg_name : Str → Bool
unfolding strip_prefix len
is_wg_name interface = elim (strip_prefix (codes "wg-") interface) [
  | none ↦ false
  | some suffix ↦ not (is_empty suffix) && leb (len suffix) 12 && all is_interface_char suffix
]

unfoldable pub validate_interface_name : Str → Bool
unfolding is_utun_number is_wg_name
validate_interface_name interface =
    interface == codes "wgconf0"
    || interface == codes "utun"
    || is_utun_number interface
    || is_wg_name interface

unfoldable pub validate_lease_token : Str → Bool
unfolding len
validate_lease_token token = not (is_empty token) && leb (len token) 64 && all is_token_char token

abbrev pub is_ok : Result (Unit {0}) → Bool
is_ok (ok _) = true
is_ok (err _) = false

unfoldable pub validate_add : Uuids → AddRequest → Bool
unfolding trim len validate_name_charset validate_mtu
validate_add u r =
    not (is_empty (trim r.conf_text))
    && leb (len r.conf_text) max_conf_text_bytes
    && elim r.name [ some name ↦ validate_name_charset u name 64 | none ↦ true ]
    && elim r.mtu_override [ some mtu ↦ is_ok (validate_mtu mtu) | none ↦ true ]

unfoldable pub validate : Uuids → PrivilegedRequest → Bool
unfolding validate_lease_token validate_interface_name validate_add
validate u (lease_acquire token) = validate_lease_token token
validate u (lease_release token) = validate_lease_token token
validate u (interface_active interface) = validate_interface_name interface
validate u (wg_show interface) = validate_interface_name interface
validate u (network_overview interface) = validate_interface_name interface
validate u (add_connection r) = validate_add u r
validate u _ = true
