-- ===== src/Client/Requests.antt =====
-- The requests that the session agent (src/session_agent.rs) sends.
use mathlib.Core.Path.{ap}
use tunmux.Api.{
  ConnectionId, ConnectionSummary, PrivilegedRequest, PrivilegedResponse, bool, connect_connection,
  connection, connection_id, connection_list, disconnect_connection, error, list_connections, mine,
  reconciliation, session_teardown, text,
}
use tunmux.Client.{
  Ask, Transport, connect_connection_for_reconciliation, disconnect_connection_for_teardown,
  list_connections_of, send, send_unit, the_list,
}
use tunmux.Client.Agent.{
  attempt_each, connect_candidates, reconcile_connect_mine, reconcile_disconnect_mine,
  reconnect_listed, tear_down_listed, tear_down_one,
}
use tunmux.Daemon.Boot.{is_automatic}
use tunmux.Daemon.Store.{of_result}
use tunmux.Error.{AppError, Result, err, ok}
use tunmux.Exec.{Outcome, attempt, continue, done, fail, pure, raise, step, ◌>>=◌}
use tunmux.Prelude.{
  Bool, List, [], false, if◌then◌else◌, map, not, refl, retain, true, ◌&&◌, ◌||◌, ◌∙◌, ◌∷◌, ◌≡◌,
}

-- a connection that a start of the agent is to bring up
abbrev pub is_wanted : ConnectionSummary → Bool
is_wanted c = is_automatic c.start_mode && not c.connected && not c.user_disconnected

abbrev pub reconnect_request : ConnectionSummary → PrivilegedRequest
reconnect_request c = connect_connection c.id false reconciliation

abbrev pub teardown_request : ConnectionSummary → PrivilegedRequest
teardown_request c = disconnect_connection c.id session_teardown

-- the requests, each put before the earlier ones
abbrev pub then_sent : List PrivilegedRequest → List PrivilegedRequest → List PrivilegedRequest
then_sent [] sent = sent
then_sent (r ∷ rs) sent = then_sent rs (r ∷ sent)

-- the connections of an answer to a request for them: those of a list, else none
abbrev pub listed : Result PrivilegedResponse → List ConnectionSummary
listed (ok (connection_list cs)) = cs
listed _ = []

connect_candidates-wanted :
    (cs : List ConnectionSummary)
    → map (λ id. connect_connection id false reconciliation) (connect_candidates cs)
      ≡ map reconnect_request (retain is_wanted cs)
unfolding connect_candidates
connect_candidates-wanted [] = refl
connect_candidates-wanted (c ∷ cs) =
    by_tests (is_automatic c.start_mode) c.connected c.user_disconnected
      (connect_candidates-wanted cs)
  where
    by_tests :
        (a b u : Bool)
        → map (λ id. connect_connection id false reconciliation) (connect_candidates cs)
          ≡ map reconnect_request (retain is_wanted cs)
        → map
            (λ id. connect_connection id false reconciliation)
            (if not a || b
              then connect_candidates cs
              else if u
              then connect_candidates cs
              else c.id ∷ connect_candidates cs)
          ≡ map reconnect_request
              (if a && not b && not u then c ∷ retain is_wanted cs else retain is_wanted cs)
    by_tests false b u h = h
    by_tests true true u h = h
    by_tests true false true h = h
    by_tests true false false h = ap (λ rs. reconnect_request c ∷ rs) h

module _ (t : Transport) where
  send_unit-state :
      (r : PrivilegedRequest) (s : List PrivilegedRequest) → (send_unit t r s).1 ≡ r ∷ s
  unfolding send_unit send ◌>>=◌ step pure
  send_unit-state r s = by_answer (t.send s r)
    where
      by_answer :
          (a : Result PrivilegedResponse)
          → (continue (of_result a) (λ _. pure tt) (r ∷ s)).1 ≡ r ∷ s
      by_answer (ok a) = refl
      by_answer (err e) = refl

  reconnected :
      (ids : List ConnectionId) (s : List PrivilegedRequest)
      → (attempt_each (λ id. connect_connection_for_reconciliation t id false) ids s).1
        ≡ then_sent (map (λ id. connect_connection id false reconciliation) ids) s
  unfolding ◌>>=◌ pure attempt connect_connection_for_reconciliation
  reconnected [] s = refl
  reconnected (id ∷ ids) s =
      let f : ConnectionId → Ask (Unit {0}) =
        λ x. connect_connection_for_reconciliation t x false in
      ap (λ u. (attempt_each f ids u).1)
        (send_unit-state (connect_connection id false reconciliation) s)
      ∙ reconnected ids (connect_connection id false reconciliation ∷ s)

  torn_down :
      (cs : List ConnectionSummary) (s : List PrivilegedRequest)
      → (attempt_each (tear_down_one t) cs s).1
        ≡ then_sent (map teardown_request (retain (λ c. c.connected) cs)) s
  unfolding ◌>>=◌ pure attempt disconnect_connection_for_teardown
  torn_down [] s = refl
  torn_down (c ∷ cs) s = by_test c.connected (torn_down cs)
    where
      by_test :
          (b : Bool)
          → ((u : List PrivilegedRequest)
              → (attempt_each (tear_down_one t) cs u).1
                ≡ then_sent (map teardown_request (retain (λ c. c.connected) cs)) u)
          → (attempt_each
              (tear_down_one t)
              cs
              ((if not b then pure tt else disconnect_connection_for_teardown t c.id) s).1).1
            ≡ then_sent
                (map teardown_request
                  (if b then c ∷ retain (λ c. c.connected) cs else retain (λ c. c.connected) cs))
                s
      by_test false rest = rest s
      by_test true rest =
          ap (λ u. (attempt_each (tear_down_one t) cs u).1) (send_unit-state (teardown_request c) s)
          ∙ rest (teardown_request c ∷ s)

  -- what is asked after the list, by the answer to it
  after_list :
      (k : Outcome AppError (List ConnectionSummary) → Ask (Unit {0}))
      (p : ConnectionSummary → Bool) (r : ConnectionSummary → PrivilegedRequest)
      (s : List PrivilegedRequest)
      → ((cs : List ConnectionSummary) (u : List PrivilegedRequest)
          → (k (done cs) u).1 ≡ then_sent (map r (retain p cs)) u)
      → ((e : AppError) (u : List PrivilegedRequest) → (k (fail e) u).1 ≡ u)
      → ((attempt (list_connections_of t mine) >>= k) s).1
        ≡ then_sent
            (map r (retain p (listed (t.send s (list_connections mine)))))
            (list_connections mine ∷ s)
  unfolding list_connections_of send ◌>>=◌ attempt step pure raise
  after_list k p r s on off = by_answer (t.send s (list_connections mine))
    where
      sent : List PrivilegedRequest
      sent = list_connections mine ∷ s

      by_answer :
          (a : Result PrivilegedResponse)
          → (k (continue (of_result a) the_list sent).0 (continue (of_result a) the_list sent).1).1
            ≡ then_sent (map r (retain p (listed a))) sent
      by_answer (ok (connection_list cs)) = on cs sent
      by_answer (ok tunmux.Api.unit) = off tunmux.Error.other sent
      by_answer (ok (bool b)) = off tunmux.Error.other sent
      by_answer (ok (text x)) = off tunmux.Error.other sent
      by_answer (ok (error c)) = off tunmux.Error.other sent
      by_answer (ok (connection_id id)) = off tunmux.Error.other sent
      by_answer (ok (connection c)) = off tunmux.Error.other sent
      by_answer (err e) = off e sent

  -- A start of the session agent: it asks for the list of the user's connections, and then to connect,
  -- for reconciliation and in the order of the list, exactly those that are automatic, not connected
  -- and not disconnected by the user, whatever the answers to the requests before. If the answer to
  -- the first request is no list, it asks for nothing else.
  pub reconcile_connect_mine-requests :
      (s : List PrivilegedRequest)
      → (reconcile_connect_mine t s).1
        ≡ then_sent
            (map reconnect_request (retain is_wanted (listed (t.send s (list_connections mine)))))
            (list_connections mine ∷ s)
  unfolding reconcile_connect_mine pure
  reconcile_connect_mine-requests s =
      after_list (reconnect_listed t) is_wanted reconnect_request s
        (λ cs u.
          reconnected (connect_candidates cs) u
          ∙ ap (λ rs. then_sent rs u) (connect_candidates-wanted cs))
        (λ e u. refl)

  -- The end of the session agent: it asks for the list of the user's connections, and then to
  -- disconnect, as a teardown and in the order of the list, exactly those that are connected, whatever
  -- the answers to the requests before. If the answer to the first request is no list, it asks for
  -- nothing else.
  pub reconcile_disconnect_mine-requests :
      (s : List PrivilegedRequest)
      → (reconcile_disconnect_mine t s).1
        ≡ then_sent
            (map teardown_request
              (retain (λ c. c.connected) (listed (t.send s (list_connections mine)))))
            (list_connections mine ∷ s)
  unfolding reconcile_disconnect_mine pure
  reconcile_disconnect_mine-requests s =
      after_list (tear_down_listed t) (λ c. c.connected) teardown_request s torn_down (λ e u. refl)
