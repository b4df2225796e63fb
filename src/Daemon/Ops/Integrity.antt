-- ===== src/Daemon/Ops/Integrity.antt =====
-- What is run as root (src/privileged/connection_ops.rs).
use tunmux.Api.{ConnectionId}
use tunmux.Daemon.{Env, StoredConnection, World}
use tunmux.Daemon.Ops.{connect, reparse_and_verify}
use tunmux.Daemon.Store.{load, load_in}
use tunmux.Error.{AppError, Result, err, ok}
use tunmux.Exec.{Outcome, done, fail, pure, raise, step, ◌>>=◌}
use tunmux.Prelude.{Bool, List_eq, false, if◌then◌else◌, refl, some, ℕ_eq, ◌==◌, ◌≡◌}
use tunmux.Wireguard.{ConnectionConfig}
use tunmux.Wireguard.Fingerprint.{fingerprint}
use tunmux.Wireguard.Parser.{parse_connection_config}

-- the text of the record no longer parses, or parses to a configuration with another fingerprint
-- than the recorded one
abbrev pub IsTampered : Env → StoredConnection → Result ConnectionConfig → Type 0
IsTampered e c (ok g) = fingerprint e.platform g == c.fingerprint ≡ false
IsTampered e c (err _) = Unit

abbrev reparse : Env → StoredConnection → Result ConnectionConfig
reparse e c = parse_connection_config e.platform e.resolve c.raw_conf

-- it ends with an error
abbrev pub Fails {ℓ} : {E A : Type ℓ} → Outcome E A → Type 0
Fails (done _) = ⊥
Fails (fail _) = Unit

checked_refuses :
    (e : Env) (c : StoredConnection)
    → IsTampered e c (reparse e c)
    → (x : AppError) × (reparse_and_verify e c ≡ err x)
unfolding reparse_and_verify
checked_refuses e c h = by_result (reparse e c) h
  where
    by_result :
        (r : Result ConnectionConfig)
        → IsTampered e c r
        → (x : AppError) × (elim r [
          | err x ↦ err x
          | ok g ↦
              if fingerprint e.platform g == c.fingerprint then ok g else err AppError.wireguard
        ]
            ≡ err x)
    by_result (ok g) k = (AppError.wireguard, rw k refl)
    by_result (err x) k = (x, refl)

-- When a stored record is found whose text no longer parses, or parses to a configuration with
-- another fingerprint than the recorded one, connecting fails and changes nothing: no hook is run
-- as root and no tunnel comes up.
pub connect-tampered :
    (e : Env) (id : ConnectionId) (debug : Bool) (w : World) (c : StoredConnection)
    → load_in e id w.records ≡ ok (some c)
    → IsTampered e c (reparse e c)
    → Fails (connect e id debug w).0 × ((connect e id debug w).1 ≡ w)
unfolding connect load raise pure step ◌>>=◌
connect-tampered e id debug w c found tampered =
    let (x, refuses) = checked_refuses e c tampered in rw (found, refuses) (tt, refl)
