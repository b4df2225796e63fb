-- ===== src/Daemon/Control/Shutdown.antt =====
-- When a shutdown that was asked for may happen (ControlState, src/privileged/mod.rs): the leases that
-- clients hold.
use tunmux.Daemon.{Env}
use tunmux.Daemon.Control.{
  ControlState, insert_lease, lease_acquire, lease_release, lease_token_is_live, prune_stale_leases,
  remove_lease, should_exit_now, shutdown_if_idle,
}
use tunmux.Prelude.{
  Bool, Bool-cases, List, List_eq, [], arith, contains, false, if◌then◌else◌, inl, inr, is_empty,
  not, refl, retain, true, ℕ, ℕ_eq, ◌++◌, ◌==◌, ◌||◌, ◌∷◌, ◌≡◌,
}
use tunmux.Text.{Str}

-- what clients and the idle poll do to the state, one call after another
pub data Call : Type 0 where
  acquire release : Str → Call
  shutdown poll : Call

abbrev pub call : Env → Call → ControlState → ControlState
call e (acquire token) s = lease_acquire e token s
call e (release token) s = lease_release e token s
call e shutdown s = (shutdown_if_idle e s).1
call e poll s = (should_exit_now e s).1

abbrev pub calls : Env → List Call → ControlState → ControlState
calls e [] s = s
calls e (c ∷ cs) s = calls e cs (call e c s)

-- no call of the sequence releases the token
abbrev pub NeverReleased : Str → List Call → Type 0
NeverReleased token [] = Unit
NeverReleased token (release t ∷ cs) = (t == token ≡ false) × NeverReleased token cs
NeverReleased token (acquire _ ∷ cs) = NeverReleased token cs
NeverReleased token (shutdown ∷ cs) = NeverReleased token cs
NeverReleased token (poll ∷ cs) = NeverReleased token cs

contains-retain :
    (f : Str → Bool) (token : Str) (ts : List Str)
    → f token ≡ true
    → contains ts token ≡ true
    → contains (retain f ts) token ≡ true
contains-retain f token [] h k = k
contains-retain f token (t ∷ ts) h k = elim (Bool-cases (t == token)) [
  | inl same ↦
      let p : t ≡ token = ((List_eq {A = ℕ}).is_eq_iff t token).0 same in
      let q : f t ≡ true = rw p h in rw q (rw same refl)
  | inr other ↦ ground (arith, contains-retain f token ts h)
]

contains-append :
    (ts : List Str) (token t : Str)
    → contains ts token ≡ true
    → contains (ts ++ t ∷ []) token ≡ true
contains-append [] token t h = absurd (cc)
contains-append (u ∷ ts) token t h = ground (arith, contains-append ts token t)

contains-snoc : (ts : List Str) (token : Str) → contains (ts ++ token ∷ []) token ≡ true
contains-snoc [] token =
    let same : token == token ≡ true = ((List_eq {A = ℕ}).is_eq_iff token token).1 refl in
    ground arith
contains-snoc (u ∷ ts) token = ground (arith, contains-snoc ts token)

-- a live token that is in the list is not pruned
prune-keeps :
    (e : Env) (token : Str) (s : ControlState)
    → lease_token_is_live e token ≡ true
    → contains s.leases token ≡ true
    → contains (prune_stale_leases e s).leases token ≡ true
unfolding prune_stale_leases
prune-keeps e token s live held = contains-retain (lease_token_is_live e) token s.leases live held

insert-keeps :
    (t token : Str) (ts : List Str)
    → contains ts token ≡ true
    → contains (insert_lease t ts) token ≡ true
insert-keeps t token ts h = elim (Bool-cases (contains ts t)) [
  | inl there ↦ rw there h
  | inr absent ↦ rw absent (contains-append ts token t h)
]

remove-keeps :
    (t token : Str) (ts : List Str)
    → t == token ≡ false
    → contains ts token ≡ true
    → contains (remove_lease t ts) token ≡ true
remove-keeps t token ts h k =
    contains-retain (λ u. not (u == t)) token ts
      (ground (arith, (List_eq {A = ℕ}).is_eq_iff token t, (List_eq {A = ℕ}).is_eq_iff t token)) k

call-keeps :
    (e : Env) (token : Str) (c : Call) (s : ControlState)
    → lease_token_is_live e token ≡ true
    → NeverReleased token (c ∷ [])
    → contains s.leases token ≡ true
    → contains (call e c s).leases token ≡ true
unfolding lease_acquire lease_release shutdown_if_idle should_exit_now
call-keeps e token (acquire t) s live k held =
    insert-keeps t token _ (prune-keeps e token s live held)
call-keeps e token (release t) s live k held =
    prune-keeps e token (record s { leases = remove_lease t s.leases }) live
      (remove-keeps t token s.leases k.0 held)
call-keeps e token shutdown s live k held = elim (Bool-cases s.allow_shutdown) [
  | inl allowed ↦
      rw allowed (prune-keeps e token (record s { shutdown_requested = true }) live held)
  | inr denied ↦ rw denied held
]
call-keeps e token poll s live k held = by_test (not s.allow_shutdown || not s.shutdown_requested)
  where
    by_test :
        (b : Bool)
        → contains
            (if◌then◌else◌ {A = Bool × ControlState} b
              (false, s)
              (is_empty (prune_stale_leases e s).leases, prune_stale_leases e s)).1.leases
            token
          ≡ true
    by_test true = held
    by_test false = prune-keeps e token s live held

calls-keep :
    (e : Env) (token : Str) (cs : List Call) (s : ControlState)
    → lease_token_is_live e token ≡ true
    → NeverReleased token cs
    → contains s.leases token ≡ true
    → contains (calls e cs s).leases token ≡ true
calls-keep e token [] s live k held = held
calls-keep e token (acquire t ∷ cs) s live k held =
    calls-keep e token cs _ live k (call-keeps e token (acquire t) s live tt held)
calls-keep e token (release t ∷ cs) s live (k, ks) held =
    calls-keep e token cs _ live ks (call-keeps e token (release t) s live (k, tt) held)
calls-keep e token (shutdown ∷ cs) s live k held =
    calls-keep e token cs _ live k (call-keeps e token shutdown s live tt held)
calls-keep e token (poll ∷ cs) s live k held =
    calls-keep e token cs _ live k (call-keeps e token poll s live tt held)

acquired :
    (e : Env) (token : Str) (s : ControlState)
    → contains (lease_acquire e token s).leases token ≡ true
unfolding lease_acquire
acquired e token s = elim (Bool-cases (contains (prune_stale_leases e s).leases token)) [
  | inl there ↦ rw there there
  | inr absent ↦ rw absent (contains-snoc (prune_stale_leases e s).leases token)
]

stays_while_held :
    (e : Env) (token : Str) (s : ControlState)
    → lease_token_is_live e token ≡ true
    → contains s.leases token ≡ true
    → (should_exit_now e s).0 ≡ false
unfolding should_exit_now
stays_while_held e token s live held =
    elim (Bool-cases (not s.allow_shutdown || not s.shutdown_requested)) [
      | inl quiet ↦ rw quiet refl
      | inr asked ↦
          rw asked (not_empty (prune_stale_leases e s).leases (prune-keeps e token s live held))
    ]
  where
    not_empty : (ts : List Str) → contains ts token ≡ true → is_empty ts ≡ false
    not_empty [] h = absurd (cc)
    not_empty (t ∷ ts) h = refl

-- While the process of a client lives, a lease that it acquired puts off a shutdown that was asked
-- for, whatever else the daemon is asked in between, as long as nobody releases that lease: the next
-- poll for a shutdown, `should_exit_now`, does not exit. The exit of the socket server after its idle
-- timeout is another one, and looks at no lease.
pub lease-defers_shutdown :
    (e : Env) (token : Str) (cs : List Call) (s : ControlState)
    → lease_token_is_live e token ≡ true
    → NeverReleased token cs
    → (should_exit_now e (calls e cs (lease_acquire e token s))).0 ≡ false
lease-defers_shutdown e token cs s live k =
    stays_while_held e token (calls e cs (lease_acquire e token s)) live
      (calls-keep e token cs (lease_acquire e token s) live k (acquired e token s))
