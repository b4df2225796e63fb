-- ===== src/Helper.antt =====
-- src/userspace_helper.rs: the process that drives one tunnel, on macOS. It reads the system and changes
-- it with commands (ifconfig, route, networksetup, scutil), which are not code of this repository:
-- their answers are a parameter, a `Host`, which may answer each command by all that ran before it.
--
-- `MacosCleanupState` keeps, beside the program's fields, the commands that ran, the latest first. Its
-- inputs, which never change, are an argument. Its mutexes are held one at a time by one thread and
-- are left out, and so are log lines and the text of errors.
pub mod Network
pub mod Commands
pub mod Ifconfig
pub mod Routes
pub mod Dns
pub mod Config
pub mod Setup
use mathlib.Core.Path.{ap}
use tunmux.Helper.Network.{IpAddr_eq, Subnet}
use tunmux.Prelude.{
  Bool, Bool_eq, Eq, List, List_eq, Option, Option_eq, Pair_eq, arith, bool_eq_iff, list_eq_iff,
  option_eq_iff, true, ℕ_eq, ◌&&◌, ◌==◌, ◌↔◌, ◌≡◌,
}
use tunmux.Text.{Str}
use tunmux.Wireguard.{IpAddr}

pub record Command : Type 0 where
  pub program : Str
  pub args : List Str
  pub stdin : Str

pub record Output : Type 0 where
  pub success : Bool
  pub stdout : Str
  pub stderr : Str

-- The answer of a command, by the commands that ran before it; none when it cannot be started.
pub record Host : Type 0 where
  pub answer : List Command → Command → Option Output

-- What is captured at connect.
pub record MacosReconcileInputs : Type 0 where
  pub interface : Str
  pub endpoint : IpAddr
  pub endpoint_is_ipv6 : Bool
  pub endpoint_needs_pin : Bool
  pub allowed_ips : List Str
  pub dns_servers : List Str
  pub has_ipv4_address : Bool
  pub has_ipv6_address : Bool

pub record MacosNetworkFingerprint : Type 0 where
  pub local_subnets : List Subnet
  pub endpoint_gateway : Option Str

pub record MacosRoute : Type 0 where
  pub is_ipv6 : Bool
  pub destination : Str
  pub interface : Option Str
  pub gateway : Option Str

pub record MacosRoutingState : Type 0 where
  pub routes_added : List MacosRoute
  pub fingerprint : MacosNetworkFingerprint

pub record MacosDnsServiceState : Type 0 where
  pub service : Str
  pub dns_servers : Option (List Str)
  pub search_domains : Option (List Str)

pub record MacosDnsFingerprint : Type 0 where
  pub primary_service : Option Str
  pub services : List Str
  pub observed : List (Str × Option (List Str))

pub record MacosDnsState : Type 0 where
  pub services : List MacosDnsServiceState
  pub fingerprint : MacosDnsFingerprint

pub record MacosCleanupState : Type 0 where
  pub ran : List Command
  pub routing : MacosRoutingState
  pub dns : MacosDnsState

-- the derived `PartialEq`s
abbrev pub route_eq : MacosRoute → MacosRoute → Bool
route_eq a b =
    a.is_ipv6 == b.is_ipv6
    && a.destination == b.destination
    && a.interface == b.interface
    && a.gateway == b.gateway

pub route_eq_iff : (a b : MacosRoute) → (route_eq a b ≡ true) ↔ (a ≡ b)
route_eq_iff a b = ground (
  arith,
  bool_eq_iff a.is_ipv6 b.is_ipv6,
  list_eq_iff a.destination b.destination,
  option_eq_iff a.interface b.interface,
  option_eq_iff a.gateway b.gateway,
)

instance abbrev pub MacosRoute_eq : Eq MacosRoute
MacosRoute_eq = record { is_eq = route_eq; is_eq_iff = route_eq_iff }

abbrev pub network_eq : MacosNetworkFingerprint → MacosNetworkFingerprint → Bool
network_eq a b = a.local_subnets == b.local_subnets && a.endpoint_gateway == b.endpoint_gateway

pub network_eq_iff : (a b : MacosNetworkFingerprint) → (network_eq a b ≡ true) ↔ (a ≡ b)
network_eq_iff a b = ground (
  arith,
  list_eq_iff a.local_subnets b.local_subnets,
  option_eq_iff a.endpoint_gateway b.endpoint_gateway,
)

instance abbrev pub MacosNetworkFingerprint_eq : Eq MacosNetworkFingerprint
MacosNetworkFingerprint_eq = record { is_eq = network_eq; is_eq_iff = network_eq_iff }

abbrev pub dns_fingerprint_eq : MacosDnsFingerprint → MacosDnsFingerprint → Bool
dns_fingerprint_eq a b =
    a.primary_service == b.primary_service && a.services == b.services && a.observed == b.observed

pub dns_fingerprint_eq_iff : (a b : MacosDnsFingerprint) → (dns_fingerprint_eq a b ≡ true) ↔ (a ≡ b)
dns_fingerprint_eq_iff a b = ground (
  arith,
  option_eq_iff a.primary_service b.primary_service,
  list_eq_iff a.services b.services,
  list_eq_iff a.observed b.observed,
)

instance abbrev pub MacosDnsFingerprint_eq : Eq MacosDnsFingerprint
MacosDnsFingerprint_eq = record { is_eq = dns_fingerprint_eq; is_eq_iff = dns_fingerprint_eq_iff }
