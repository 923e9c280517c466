-- ===== src/Socket/Tests.antt =====
-- The theorems on connections and descriptors at concrete servers.
use geo_ns_core.Common.{ℕ, ◌+◌, ◌≡◌, true, List, [], ◌∷◌, none}
use geo_ns_core.Text.{codes}
use geo_ns_core.Socket.{
  SocketConnection, SocketServer, connection_established, Round, success, failed, no_memory,
  started, PeerInfo, Event, accepting, handling, run_server,
}
use geo_ns_core.Socket.Balance.{closes, held, one, opens}
use geo_ns_core.Socket.Lifecycle.{still_held, counted, called_back, run_server-balance}

abbrev client : ℕ → ℕ → SocketConnection
client address fd = record {
  address = address;
  fd = fd;
  peer_info = none;
  connection_status = connection_established;
  buffer_size_limit = 1024;
  buffer = none;
}

abbrev server : SocketServer
server = record {
  fd = 3;
  connections = client 100 7 ∷ client 200 8 ∷ [];
  port = 8000;
  server_addr = codes "0.0.0.0";
  is_alive = true;
  buffer_size_per_client = 1024;
}

abbrev peer : PeerInfo
peer = record {
  server_addr = codes "0.0.0.0";
  server_port = 8000;
  client_addr = codes "10.0.0.1";
  client_port = 4000;
}

abbrev rounds : List Round
rounds =
    record { buffer_size = 10; callback_result = success; callback_closes = 7 ∷ [] }
    ∷ record { buffer_size = 20; callback_result = failed; callback_closes = [] }
    ∷ []

abbrev events : List Event
events =
    accepting (started 300 9 peer) ∷ handling true rounds (client 100 7) ∷ accepting no_memory ∷ []

run_server-balance_example :
    closes 7 (run_server server events).1 + still_held 7 (run_server server events).0
    ≡ held 7 server.connections
      + one 7 3
      + counted (opens 7) server events
      + counted (called_back 7) server events
run_server-balance_example = run_server-balance 7 server events
