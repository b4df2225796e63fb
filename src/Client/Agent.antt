-- ===== src/Client/Agent.antt =====
-- src/session_agent.rs: what the session agent asks of the daemon at its start and at its end.
use tunmux.Api.{ConnectionId, ConnectionSummary, mine}
use tunmux.Client.{
  Ask, Transport, connect_connection_for_reconciliation, disconnect_connection_for_teardown,
  list_connections_of,
}
use tunmux.Daemon.Boot.{is_automatic}
use tunmux.Error.{AppError}
use tunmux.Exec.{Outcome, attempt, done, fail, pure, ◌>>=◌, ◌>>◌}
use tunmux.Prelude.{List, [], false, if◌then◌else◌, not, ◌||◌, ◌∷◌}

unfoldable pub connect_candidates : List ConnectionSummary → List ConnectionId
connect_candidates [] = []
connect_candidates (c ∷ cs) =
    let rest = connect_candidates cs in
    if not (is_automatic c.start_mode) || c.connected
    then rest
    else if c.user_disconnected
    then rest
    else c.id ∷ rest

-- `for x in xs { if let Err(error) = f(x) { warn!(..) } }`
abbrev pub attempt_each : {A : Type 0} → (A → Ask (Unit {0})) → List A → Ask (Unit {0})
attempt_each f [] = pure tt
attempt_each f (x ∷ xs) = do attempt (f x); attempt_each f xs

abbrev pub reconnect_listed : Transport → Outcome AppError (List ConnectionSummary) → Ask (Unit {0})
reconnect_listed t (done connections) =
    attempt_each (λ id. connect_connection_for_reconciliation t id false)
      (connect_candidates connections)
reconnect_listed t (fail e) = pure tt

unfoldable pub reconcile_connect_mine : Transport → Ask (Unit {0})
unfolding list_connections_of connect_candidates connect_connection_for_reconciliation
reconcile_connect_mine t = do
  connections ← attempt (list_connections_of t mine)
  reconnect_listed t connections

abbrev pub tear_down_one : Transport → ConnectionSummary → Ask (Unit {0})
tear_down_one t c = if not c.connected then pure tt else disconnect_connection_for_teardown t c.id

abbrev pub tear_down_listed : Transport → Outcome AppError (List ConnectionSummary) → Ask (Unit {0})
tear_down_listed t (done connections) = attempt_each (tear_down_one t) connections
tear_down_listed t (fail e) = pure tt

unfoldable pub reconcile_disconnect_mine : Transport → Ask (Unit {0})
unfolding list_connections_of disconnect_connection_for_teardown
reconcile_disconnect_mine t = do
  connections ← attempt (list_connections_of t mine)
  tear_down_listed t connections
