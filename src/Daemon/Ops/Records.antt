-- ===== src/Daemon/Ops/Records.antt =====
-- Connecting, disconnecting and the stored records (src/privileged/connection_ops.rs).
use tunmux.Api.{ConnectionId}
use tunmux.Daemon.{
  ActiveConnectionState, Content, Env, Event, Metadata, Phase, Sockets, StoredConnection, World,
  bring_up, roll_back, tear_down,
}
use tunmux.Daemon.Ops.{
  Adoption, after_post_up, already_up, bring_tunnel_up, by_adoption, connect, disconnect, effect,
  expect_absent, fresh, gotatun_down, gotatun_up, lift, lock_network, refused, run_hook, run_hooks,
  run_hooks_best_effort, some_or, tear_tunnel_down,
}
use tunmux.Daemon.Store.{
  clear_active, clear_found, load, load_active, read_active, save_active, when_ok,
}
use tunmux.Error.{AppError, ErrorKind, Result, err, io, json, missing, ok, other_kind, would_block}
use tunmux.Exec.{Outcome, done, fail, raise, step}
use tunmux.Exec.Moves.{
  IsPreorder, Moves, Moves-attempt, Moves-bind, Moves-gets, Moves-if, Moves-pure, Moves-raise,
}
use tunmux.Prelude.{
  Bool, List, Option, [], arith, length, none, not, refl, some, ℕ_eq, ◌==◌, ◌∙◌, ◌∷◌, ◌≡◌,
}
use tunmux.Text.{Str}
use tunmux.Wireguard.{ConnectionConfig}

-- The records are the same.
abbrev pub SameRecords : World → World → Type 0
SameRecords w t = t.records ≡ w.records

pub SameRecords-IsPreorder : IsPreorder SameRecords
SameRecords-IsPreorder = record { stay = λ w. refl; chain = λ w t u p q. q ∙ p }

abbrev S : IsPreorder SameRecords
S = SameRecords-IsPreorder

effect-SameRecords :
    (x : Event) (f : Sockets → Result (Unit {0}) × Sockets) → Moves SameRecords (effect x f)
unfolding step
effect-SameRecords x f = record { from = λ w. refl }

lock_network-SameRecords : (e : Env) (phase : Phase) → Moves SameRecords (lock_network e phase)
unfolding lock_network step
lock_network-SameRecords e phase = record { from = λ w. refl }

load-SameRecords : (e : Env) (id : ConnectionId) → Moves SameRecords (load e id)
unfolding load step
load-SameRecords e id = record { from = λ w. refl }

load_active-SameRecords : (id : ConnectionId) → Moves SameRecords (load_active id)
unfolding load_active step
load_active-SameRecords id = record { from = λ w. ground arith }

lift-SameRecords : {A : Type 0} (r : Result A) → Moves SameRecords (lift r)
unfolding step
lift-SameRecords r = record { from = λ w. refl }

some_or-SameRecords : {A : Type 0} (x : AppError) (o : Option A) → Moves SameRecords (some_or x o)
some_or-SameRecords x none = Moves-raise S x
some_or-SameRecords x (some a) = Moves-pure S a

when_ok-SameRecords :
    (k : Option ErrorKind) (after w : World)
    → after.records ≡ w.records
    → (when_ok k after w).1.records ≡ w.records
when_ok-SameRecords none after w p = p
when_ok-SameRecords (some k) after w p = refl

save_active-SameRecords :
    (e : Env) (id : ConnectionId) (a : ActiveConnectionState)
    → Moves SameRecords (save_active e id a)
unfolding save_active step
save_active-SameRecords e id a = record {
  from = λ w. when_ok-SameRecords (e.write_active id) _ w refl;
}

clear_found-SameRecords :
    (e : Env) (id : ConnectionId) (w : World) (x : Option (Content ActiveConnectionState))
    → (clear_found e id w x).1.records ≡ w.records
clear_found-SameRecords e id w none = refl
clear_found-SameRecords e id w (some _) = when_ok-SameRecords (e.delete_active id) _ w refl

clear_active-SameRecords : (e : Env) (id : ConnectionId) → Moves SameRecords (clear_active e id)
unfolding clear_active step
clear_active-SameRecords e id = record {
  from = λ w. clear_found-SameRecords e id w (read_active id w.active);
}

run_hook-SameRecords : (e : Env) (i cmd : Str) → Moves SameRecords (run_hook e i cmd)
unfolding run_hook
run_hook-SameRecords e i cmd = effect-SameRecords _ _

run_hooks-SameRecords :
    (e : Env) (i : Str) (cmds : List Str) → Moves SameRecords (run_hooks e i cmds)
unfolding run_hooks
run_hooks-SameRecords e i [] = Moves-pure S tt
run_hooks-SameRecords e i (cmd ∷ rest) =
    Moves-bind S _ _ (run_hook-SameRecords e i cmd) (λ _. run_hooks-SameRecords e i rest)

best_effort-SameRecords :
    (e : Env) (i : Str) (cmds : List Str) → Moves SameRecords (run_hooks_best_effort e i cmds)
unfolding run_hooks_best_effort
best_effort-SameRecords e i [] = Moves-pure S tt
best_effort-SameRecords e i (cmd ∷ rest) =
    Moves-bind S _ _ (Moves-attempt S _ (run_hook-SameRecords e i cmd))
      (λ _. best_effort-SameRecords e i rest)

gotatun_up-SameRecords :
    (e : Env) (c : StoredConnection) (debug : Bool) → Moves SameRecords (gotatun_up e c debug)
unfolding gotatun_up
gotatun_up-SameRecords e c debug =
    Moves-bind S _ _ (lock_network-SameRecords e bring_up) (λ _. effect-SameRecords _ _)

gotatun_down-SameRecords :
    (e : Env) (phase : Phase) (i : Str) → Moves SameRecords (gotatun_down e phase i)
unfolding gotatun_down
gotatun_down-SameRecords e phase i =
    Moves-bind S _ _ (lock_network-SameRecords e phase) (λ _. effect-SameRecords _ _)

expect_absent-SameRecords : (r : Result Metadata) → Moves SameRecords (expect_absent r)
expect_absent-SameRecords (ok m) = Moves-raise S _
expect_absent-SameRecords (err (io ErrorKind.not_found)) = Moves-pure S tt
expect_absent-SameRecords (err (io would_block)) = Moves-raise S _
expect_absent-SameRecords (err (io other_kind)) = Moves-raise S _
expect_absent-SameRecords (err json) = Moves-raise S _
expect_absent-SameRecords (err AppError.auth) = Moves-raise S _
expect_absent-SameRecords (err AppError.auth_required) = Moves-raise S _
expect_absent-SameRecords (err AppError.wireguard) = Moves-raise S _
expect_absent-SameRecords (err AppError.busy) = Moves-raise S _
expect_absent-SameRecords (err missing) = Moves-raise S _
expect_absent-SameRecords (err AppError.other) = Moves-raise S _

after_post_up-SameRecords :
    (e : Env) (i : Str) (r : Outcome AppError (Unit {0})) → Moves SameRecords (after_post_up e i r)
after_post_up-SameRecords e i (done _) = Moves-pure S tt
after_post_up-SameRecords e i (fail x) =
    Moves-bind S _ _ (Moves-attempt S _ (gotatun_down-SameRecords e roll_back i))
      (elim [ done _ ↦ Moves-raise S x | fail _ ↦ Moves-raise S AppError.wireguard ])

bring_tunnel_up-SameRecords :
    (e : Env) (id : ConnectionId) (c : StoredConnection) (g : ConnectionConfig) (debug : Bool)
    → Moves SameRecords (bring_tunnel_up e id c g debug)
unfolding bring_tunnel_up
bring_tunnel_up-SameRecords e id c g debug = Moves-bind S _ _ (Moves-gets S _) λ found.
    Moves-bind S _ _ (expect_absent-SameRecords found) λ _.
      Moves-bind S _ _ (run_hooks-SameRecords e _ _) λ _.
        Moves-bind S _ _ (gotatun_up-SameRecords e c debug) λ _.
          Moves-bind S _ _ (Moves-attempt S _ (run_hooks-SameRecords e _ _)) λ post.
            Moves-bind S _ _ (after_post_up-SameRecords e _ post) λ _.
              Moves-bind S _ _ (Moves-gets S _)
                λ stat. Moves-bind S _ _ (lift-SameRecords stat) λ m. save_active-SameRecords e id _

by_adoption-SameRecords :
    (e : Env) (id : ConnectionId) (c : StoredConnection) (g : ConnectionConfig) (debug : Bool)
    (a : Adoption)
    → Moves SameRecords (by_adoption e id c g debug a)
by_adoption-SameRecords e id c g debug already_up = Moves-pure S tt
by_adoption-SameRecords e id c g debug fresh = bring_tunnel_up-SameRecords e id c g debug
by_adoption-SameRecords e id c g debug (refused x) = Moves-raise S x

pub connect-SameRecords :
    (e : Env) (id : ConnectionId) (debug : Bool) → Moves SameRecords (connect e id debug)
unfolding connect
connect-SameRecords e id debug = Moves-bind S _ _ (load-SameRecords e id) λ found.
    Moves-bind S _ _ (some_or-SameRecords _ found) λ stored.
      Moves-bind S _ _ (lift-SameRecords _) λ reparsed.
        Moves-if S (not (length reparsed.peers == 1)) (raise AppError.wireguard) _
          (λ _. Moves-raise S AppError.wireguard)
          λ _. Moves-bind S _ _ (load_active-SameRecords id) λ active.
            Moves-bind S _ _ (Moves-gets S _)
              λ answer. by_adoption-SameRecords e id stored reparsed debug answer

tear_tunnel_down-SameRecords :
    (e : Env) (c : StoredConnection) (r : Result ConnectionConfig)
    → Moves SameRecords (tear_tunnel_down e c r)
unfolding tear_tunnel_down
tear_tunnel_down-SameRecords e c (ok g) = Moves-bind S _ _ (best_effort-SameRecords e _ _) λ _.
    Moves-bind S _ _ (gotatun_down-SameRecords e tear_down _) λ _. best_effort-SameRecords e _ _
tear_tunnel_down-SameRecords e c (err x) = gotatun_down-SameRecords e tear_down _

pub disconnect-SameRecords : (e : Env) (id : ConnectionId) → Moves SameRecords (disconnect e id)
unfolding disconnect
disconnect-SameRecords e id = Moves-bind S _ _ (load-SameRecords e id) λ found.
    Moves-bind S _ _ (some_or-SameRecords _ found) λ stored.
      Moves-bind S _ _ (tear_tunnel_down-SameRecords e stored _) λ _. clear_active-SameRecords e id
