-- ===== src/Helper/Routes/Attached.antt =====
-- The routes that are up (src/userspace_helper.rs), against the networks that the host was last seen on.
use tunmux.Exec.Gives.{Gives}
use tunmux.Exec.Moves.{Moves}
use tunmux.Helper.{
  Host, MacosCleanupState, MacosNetworkFingerprint, MacosNetworkFingerprint_eq,
  MacosReconcileInputs, MacosRoute_eq,
}
use tunmux.Helper.Routes.Lan.{HasAddress, ReadsAddresses}
use tunmux.Prelude.{All}
use tunmux.Wireguard.{Platform}

abbrev pub AreAttached : MacosNetworkFingerprint → Type 0
AreAttached found = All HasAddress found.local_subnets

module _ (platform : Platform) (host : Host) (inputs : MacosReconcileInputs)
    (range : ReadsAddresses platform) where
  abbrev StaysAttached : MacosCleanupState → MacosCleanupState → Type 0
  StaysAttached s t = AreAttached s.routing.fingerprint → AreAttached t.routing.fingerprint
