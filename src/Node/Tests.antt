-- ===== src/Node/Tests.antt =====
-- The theorems on a node, with a small JSON library, a database that counts the statements it has
-- executed, and a network on which no node answers.
use geo_ns_core.Socket.Balance.{closes}
use geo_ns_core.Socket.{
  PeerInfo, started, closed, freed, freed_server, run_server, run_event, accept_round,
  add_connection, while_alive, kill_socket_server, kill_connections, remove_connection, release,
}
use geo_ns_core.Http.Server.{kill_http_server, free_routes}
use geo_ns_core.Db.Connection.{closed_database, freed_database, db_disconnect}
use geo_ns_core.Node.{Given, of_database, of_socket, http_left}
use geo_ns_core.Node.Closing.{
  closed_by, http_closed_by, due, http_due, sockets, kill_geons_server-balance,
}
use geo_ns_core.Common.{
  ℕ, suc, ◌==◌, if◌then◌else◌, ◌≡◌, refl, Bool, true, false, List, ◌+◌, [], ◌∷◌, ◌++◌, none, some,
  inl, arith,
}
use geo_ns_core.Text.{codes, str_eq, strn_eq}
use geo_ns_core.Io.{System, directory}
use geo_ns_core.Socket.Opening.{Answers}
use geo_ns_core.Db.{
  Sqlite, ledger_db, db_exec, db_init, is_ledger_name, get_all_active_nodes, nodes_of,
}
use geo_ns_core.Db.Connection.{Handle}
use geo_ns_core.Json.Entries.{entries_json}
use geo_ns_core.Config.{Config}
use geo_ns_core.Geonsp.{local_db}
use geo_ns_core.Geonsp.Client.{Network, lost}
use geo_ns_core.Socket.{SocketServer, accepting, accept_failed, no_memory}
use geo_ns_core.Http.Server.{WebServer}
use geo_ns_core.Node.Killing.{kill_geons_server-OutOfMemory}
use geo_ns_core.Node.{
  GeonsServer, Threads, kill_geons_server, Place, joined, connect_init_node_servers,
}
use geo_ns_core.Node.Start.{Startup, create_geons_server}
use geo_ns_core.Node.Joining.{forget, closing, connect_init_node_servers-unreachable}
use geo_ns_core.Node.Running.{Runs, create_geons_server-Runs}

data Row : Type 0 where
  row : Row

abbrev store : Sqlite ℕ Row
store = record {
  exec = λ db statement. (suc db, 0);
  query = λ db statement. some (row ∷ []);
  column_int = λ row i. 7;
  column_text = λ row i. if i == 2 then codes "true" else codes "10.0.0.9";
}

abbrev silent : Network Bool
silent = record {
  ping = λ net command. false;
  connect = λ net server_addr port. record {
    has_memory = false;
    socket = none;
    address_valid = false;
    bound = false;
    listening = false;
  };
  answer = λ net server_addr port message. (net, lost);
  interfaces = codes "10.0.0.1" ∷ [];
}

abbrev config : Config
config = record {
  geons_config = record { geons_server_addr = codes "0.0.0.0"; node_gateway_port = 9060 };
  http_config = record {
    accept_any_method = false;
    directory_indexing = false;
    trim_large_headers = false;
    trim_large_body = false;
    server_port = 8000;
  };
}

abbrev place : Place
place = record { has_memory = true; cwd = codes "/geons/"; opens = λ path. true }

abbrev system : System
system = record {
  kind = λ path. directory;
  content = λ path. none;
  entries = λ path. none;
  mime_type = λ path. none;
  has_memory = λ n. true;
}

-- A socket that binds, or not.
abbrev answers : Bool → Answers
answers bound = record {
  has_memory = true;
  socket = some 4;
  address_valid = true;
  bound = bound;
  listening = true;
}

abbrev startup : Bool → Startup
startup bound = record {
  has_memory = true;
  node_answers = answers bound;
  node_thread = true;
  http_memory = true;
  http_answers = answers true;
  http_thread = true;
}

create_geons_server-Runs_example :
    Runs (create_geons_server entries_json silent store config place system (startup true) true 0 0)
create_geons_server-Runs_example =
    create_geons_server-Runs entries_json silent store config place system (startup true) true 0 0

connect_init_node_servers-unreachable_example :
    connect_init_node_servers entries_json silent store config place true 0
    ≡ joined true
        (forget entries_json silent store config place 4 (nodes_of store (row ∷ [])))
        []
        (closing entries_json silent store config place
          ++ closing entries_json silent store config place)
        1
unfolding is_ledger_name db_init db_exec get_all_active_nodes nodes_of str_eq strn_eq
connect_init_node_servers-unreachable_example =
    connect_init_node_servers-unreachable entries_json silent store config place true 0 2 4
      (nodes_of store (row ∷ [])) (λ server_addr. refl) (refl, omega arith, refl) refl refl refl

-- A gateway that has accepted a client, has no memory for the next and is gone when the node is killed.
abbrev threads : Threads
threads = record {
  node_gateway = accepting (accept_failed 100) ∷ accepting no_memory ∷ [];
  http = [];
  goes_on = false;
}

abbrev socket_server : SocketServer
socket_server = record {
  fd = 4;
  connections = [];
  port = 9060;
  server_addr = codes "0.0.0.0";
  is_alive = true;
  buffer_size_per_client = 4096;
}

abbrev web : WebServer
web = record {
  http = record { public_dir = codes "/www"; http_routes = [] };
  socket_server = record socket_server { fd = 5; port = 8000 };
}

abbrev node : GeonsServer
node = record {
  ledger_db = record { db_name = ledger_db; is_ledger = true; handle = Handle.opened };
  local_db = record { db_name = local_db; is_ledger = false; handle = Handle.opened };
  node_gateway_server = socket_server;
  http_server = some web;
}

kill_geons_server-OutOfMemory_example : kill_geons_server threads (some node) ≡ none
kill_geons_server-OutOfMemory_example =
    kill_geons_server-OutOfMemory threads node web
      (inl (accepting (accept_failed 100) ∷ [], [], refl))

-- A gateway that holds one client when the node is killed.
abbrev peer : PeerInfo
peer = record {
  server_addr = codes "0.0.0.0";
  server_port = 9060;
  client_addr = codes "10.0.0.1";
  client_port = 4000;
}

abbrev serving : Threads
serving = record { node_gateway = accepting (started 100 7 peer) ∷ []; http = []; goes_on = false }

abbrev given : List Given
given =
    of_database (closed_database ledger_db)
    ∷ of_database (freed_database ledger_db)
    ∷ of_database (closed_database local_db)
    ∷ of_database (freed_database local_db)
    ∷ of_socket (closed 7)
    ∷ of_socket (freed 100)
    ∷ of_socket (closed 4)
    ∷ of_socket freed_server
    ∷ of_socket (closed 5)
    ∷ of_socket freed_server
    ∷ []

kill_geons_server-balance_example :
    closed_by 7 socket_server serving.node_gateway
      + http_closed_by 7 (some web) serving.http
      + closes 7 (sockets given)
    ≡ due 7 socket_server serving.node_gateway + http_due 7 (some web) serving.http
unfolding kill_geons_server db_disconnect run_server run_event accept_round add_connection
    while_alive http_left kill_socket_server kill_connections remove_connection release
    kill_http_server free_routes
kill_geons_server-balance_example = kill_geons_server-balance 7 serving node given refl
