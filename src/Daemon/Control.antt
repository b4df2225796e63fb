-- ===== src/Daemon/Control.antt =====
-- `ControlState` (src/privileged/mod.rs) and the liveness of lease tokens (src/privileged/managed_pids.rs).
-- The set of leases is a list without repetition.
pub mod Shutdown
use tunmux.Api.{PrivilegedResponse, bool, control, error}
use tunmux.Daemon.{Env}
use tunmux.Prelude.{
  Bool, List, List_eq, Option, [], contains, false, if◌then◌else◌, is_empty, not, retain, some,
  true, ℕ, ℕ_eq, ◌&&◌, ◌++◌, ◌-◌, ◌==◌, ◌^◌, ◌||◌, ◌∷◌,
}
use tunmux.Text.{Str, parse_unsigned, split}

pub record ControlState : Type 0 where
  pub leases : List Str
  pub allow_shutdown : Bool
  pub shutdown_requested : Bool

abbrev pub new_control_state : Bool → ControlState
new_control_state allow = record { leases = []; allow_shutdown = allow; shutdown_requested = false }

abbrev pub max_u32 : ℕ
max_u32 = 2 ^ 32 - 1

abbrev pub max_u64 : ℕ
max_u64 = 2 ^ 64 - 1

-- `process_start_ticks` returns `None` on this platform
abbrev pub live_parts : Env → Option ℕ → Option ℕ → Bool
live_parts e (some pid) (some start_ticks) = start_ticks == 0 && e.pid_is_alive pid
live_parts e _ _ = false

abbrev pub token_parts : Env → List Str → Bool
token_parts e (pid ∷ ticks ∷ _) =
    live_parts e (parse_unsigned max_u32 pid) (parse_unsigned max_u64 ticks)
token_parts e _ = false

unfoldable pub lease_token_is_live : Env → Str → Bool
unfolding split parse_unsigned
lease_token_is_live e token = token_parts e (split b':' token)

unfoldable pub prune_stale_leases : Env → ControlState → ControlState
prune_stale_leases e s = record s { leases = retain (lease_token_is_live e) s.leases }

abbrev pub insert_lease : Str → List Str → List Str
insert_lease token leases = if contains leases token then leases else leases ++ token ∷ []

abbrev pub remove_lease : Str → List Str → List Str
remove_lease token leases = retain (λ t. not (t == token)) leases

unfoldable pub lease_acquire : Env → Str → ControlState → ControlState
unfolding prune_stale_leases
lease_acquire e token s =
    let t = prune_stale_leases e s in record t { leases = insert_lease token t.leases }

unfoldable pub lease_release : Env → Str → ControlState → ControlState
unfolding prune_stale_leases
lease_release e token s = prune_stale_leases e (record s { leases = remove_lease token s.leases })

unfoldable pub shutdown_if_idle : Env → ControlState → PrivilegedResponse × ControlState
unfolding prune_stale_leases
shutdown_if_idle e s =
    if not s.allow_shutdown
    then (error control, s)
    else let t = prune_stale_leases e (record s { shutdown_requested = true }) in
      (bool (is_empty t.leases), t)

unfoldable pub should_exit_now : Env → ControlState → Bool × ControlState
unfolding prune_stale_leases
should_exit_now e s =
    if not s.allow_shutdown || not s.shutdown_requested
    then (false, s)
    else let t = prune_stale_leases e s in (is_empty t.leases, t)
