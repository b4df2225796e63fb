-- ===== src/Tests/Agents.antt =====
-- The session agent, at a daemon with four connections of the user, and a name, at one with two.
use tunmux.Api.{ConnectionId, ConnectionSummary, automatic, connection_list, list_connections, mine}
use tunmux.Client.{Transport, list_connections_of, send}
use tunmux.Client.Agent.{reconcile_connect_mine, reconcile_disconnect_mine}
use tunmux.Client.Names.{IsTheOnly, by_name, resolve_id, resolve_id-IsTheOnly}
use tunmux.Client.Requests.{
  reconcile_connect_mine-requests, reconcile_disconnect_mine-requests, reconnect_request,
  teardown_request,
}
use tunmux.Error.{err, ok}
use tunmux.Exec.{done, pure, step, ◌>>=◌}
use tunmux.Prelude.{Bool, List, [], false, none, refl, some, true, ◌∷◌, ◌≡◌, ◌⊎◌}
use tunmux.Tests.{uuids}
use tunmux.Text.{codes}

abbrev connection_of : ConnectionId → Bool → Bool → ConnectionSummary
connection_of id up stays_down = record {
  id = id;
  global = false;
  owner_uid = some 501;
  start_mode = automatic;
  name = none;
  interface = codes "wg-7";
  connected = up;
  user_disconnected = stays_down;
  addresses = [];
  dns_servers = [];
  mtu = none;
  peers = [];
  fingerprint = none;
  created_at = 1;
  updated_at = 1;
}

-- two to bring up, one that is up, and one that the user disconnected
abbrev mine_listed : List ConnectionSummary
mine_listed =
    connection_of 7 false false
    ∷ connection_of 8 true false
    ∷ connection_of 9 false true
    ∷ connection_of 10 false false
    ∷ []

-- every request but the first fails
abbrev transport : Transport
transport = record {
  send = λ sent request. elim sent [
    | [] ↦ ok (connection_list mine_listed)
    | _ ∷ _ ↦ err tunmux.Error.wireguard
  ];
}

reconcile_connect_mine-requests_example :
    (reconcile_connect_mine transport []).1
    ≡ reconnect_request (connection_of 10 false false)
      ∷ reconnect_request (connection_of 7 false false)
      ∷ list_connections mine
      ∷ []
reconcile_connect_mine-requests_example = reconcile_connect_mine-requests transport []

reconcile_disconnect_mine-requests_example :
    (reconcile_disconnect_mine transport []).1
    ≡ teardown_request (connection_of 8 true false) ∷ list_connections mine ∷ []
reconcile_disconnect_mine-requests_example = reconcile_disconnect_mine-requests transport []

abbrev home : ConnectionSummary
home = record (connection_of 7 false false) { name = some (codes "home") }

abbrev with_home : Transport
with_home = record {
  send = λ sent request. ok (connection_list (connection_of 8 true false ∷ home ∷ []));
}

home_resolved : (resolve_id uuids with_home (codes "home") []).0 ≡ done 7
unfolding resolve_id by_name list_connections_of send ◌>>=◌ pure step
home_resolved = refl

resolve_id-IsTheOnly_example :
    (uuids.parse_str (codes "home") ≡ some 7) ⊎ IsTheOnly with_home (codes "home") [] 7
resolve_id-IsTheOnly_example =
    resolve_id-IsTheOnly with_home (codes "home") uuids [] 7 home_resolved
