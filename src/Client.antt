-- ===== src/Client.antt =====
-- src/privileged_client/mod.rs: the requests that a program of the user sends to the daemon. The state
-- is the list of the requests handed to `PrivilegedClient::send`, the newest first; the transport
-- under it gives each an answer, which may depend on the earlier ones.
pub mod Agent
pub mod Requests
pub mod Names
use tunmux.Api.{
  ConnectionId, ConnectionScope, ConnectionSummary, PrivilegedRequest, PrivilegedResponse,
  connect_connection, connection_list, disconnect_connection, list_connections, reconciliation,
  session_teardown,
}
use tunmux.Daemon.Store.{of_result}
use tunmux.Error.{AppError, Result}
use tunmux.Exec.{Exec, pure, raise, step, ◌>>=◌, ◌>>◌}
use tunmux.Prelude.{Bool, List, ◌∷◌}

pub record Transport : Type 0 where
  pub send : List PrivilegedRequest → PrivilegedRequest → Result PrivilegedResponse

abbrev pub Ask : Type 0 → Type 0
Ask A = Exec (List PrivilegedRequest) AppError A

unfoldable pub send : Transport → PrivilegedRequest → Ask PrivilegedResponse
send t request = step (λ sent. (of_result (t.send sent request), request ∷ sent))

abbrev pub the_list : PrivilegedResponse → Ask (List ConnectionSummary)
the_list (connection_list cs) = pure cs
the_list _ = raise tunmux.Error.other

unfoldable pub list_connections_of : Transport → ConnectionScope → Ask (List ConnectionSummary)
unfolding send
list_connections_of t scope = do response ← send t (list_connections scope); the_list response

unfoldable pub send_unit : Transport → PrivilegedRequest → Ask (Unit {0})
unfolding send
send_unit t request = do send t request; pure tt

unfoldable pub connect_connection_for_reconciliation :
    Transport → ConnectionId → Bool → Ask (Unit {0})
unfolding send_unit
connect_connection_for_reconciliation t id debug =
    send_unit t (connect_connection id debug reconciliation)

unfoldable pub disconnect_connection_for_teardown : Transport → ConnectionId → Ask (Unit {0})
unfolding send_unit
disconnect_connection_for_teardown t id = send_unit t (disconnect_connection id session_teardown)
