-- ===== src/Daemon/Dispatch/Listed.antt =====
-- What a caller is shown (`ListConnections`, src/privileged/dispatch.rs).
use mathlib.Core.Path.{subst}
use tunmux.Api.{ConnectionScope, ConnectionSummary, all_scopes, connection_list}
use tunmux.Daemon.{Env, StoredConnection, World}
use tunmux.Daemon.Dispatch.{PeerOrigin, error_response, is_root, uid}
use tunmux.Daemon.Dispatch.Handlers.{
  handle_list_connections, in_scope, is_all, summaries, summarize,
}
use tunmux.Daemon.Store.{load_all}
use tunmux.Exec.{bind-done, done, gets, or_return, raise}
use tunmux.Prelude.{
  All, Bool, Bool-cases, List, Option_eq, [], all, arith, false, inl, inr, none, not, refl, retain,
  some, true, ℕ_eq, ◌&&◌, ◌==◌, ◌||◌, ◌∷◌, ◌≡◌,
}

-- what a list may show to the caller: no fingerprint, and of another user's connections nothing
-- unless the caller is root
abbrev pub IsShown : PeerOrigin → ConnectionSummary → Type 0
IsShown origin s =
    (s.fingerprint ≡ none)
    × (is_root origin || (s.global || s.owner_uid == some (uid origin)) ≡ true)

or_last : (a b c : Bool) → c ≡ true → a || (b || c) ≡ true
or_last a b c h = ground (arith, h)

or_middle : (a b c : Bool) → b ≡ true → a || (b || c) ≡ true
or_middle a b c h = ground (arith, h)

or_first : (a b c : Bool) → not a ≡ false → a || (b || c) ≡ true
or_first a b c h = ground (arith, h)

may_list :
    (origin : PeerOrigin) (scope : ConnectionScope) (c : StoredConnection)
    → is_all scope && not (is_root origin) ≡ false
    → in_scope origin scope c ≡ true
    → is_root origin || (c.global || c.owner_uid == some (uid origin)) ≡ true
may_list origin ConnectionScope.mine c h k =
    or_last (is_root origin) c.global (c.owner_uid == some (uid origin)) k
may_list origin ConnectionScope.global c h k =
    or_middle (is_root origin) c.global (c.owner_uid == some (uid origin)) k
may_list origin all_scopes c h k =
    or_first (is_root origin) c.global (c.owner_uid == some (uid origin)) h

shown :
    (e : Env) (origin : PeerOrigin) (scope : ConnectionScope) (w : World)
    (cs : List StoredConnection)
    → is_all scope && not (is_root origin) ≡ false
    → All (IsShown origin) (summaries e w (retain (in_scope origin scope) cs))
unfolding summarize
shown e origin scope w [] h = tt
shown e origin scope w (c ∷ cs) h = elim (Bool-cases (in_scope origin scope c)) [
  | inl here ↦ rw here ((refl, may_list origin scope c h here), shown e origin scope w cs h)
  | inr elsewhere ↦ rw elsewhere (shown e origin scope w cs h)
]

-- A list of connections that a caller gets shows no fingerprint, and only connections that are global or
-- that the caller owns, unless the caller is root.
pub handle_list_connections-IsShown :
    (e : Env) (origin : PeerOrigin) (scope : ConnectionScope) (w : World)
    (ss : List ConnectionSummary)
    → (handle_list_connections e origin scope w).0 ≡ done (connection_list ss)
    → All (IsShown origin) ss
unfolding handle_list_connections raise gets
handle_list_connections-IsShown e origin scope w ss h =
    elim (Bool-cases (is_all scope && not (is_root origin))) [
      | inl refused ↦ absurd (cc (rw refused at h))
      | inr fine ↦
          let (all, _, last) =
            bind-done (or_return error_response (load_all e))
              (λ all.
                gets (λ w. connection_list (summaries e w (retain (in_scope origin scope) all))))
              w (connection_list ss) (rw fine at h) in
          let v : World = (or_return error_response (load_all e) w).1 in
          let same : summaries e v (retain (in_scope origin scope) all) ≡ ss = cc in
          subst (All (IsShown origin)) same (shown e origin scope v all fine)
    ]
