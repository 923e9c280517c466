-- ===== src/Node.antt =====
-- src/libs/server/server.c: a node from its start to its end; Start has `create_geons_server`. The
-- configuration, the network, the file system, SQLite and the JSON library are parameters; so is what
-- the system answers to the calls that open the two sockets and start their threads. Messages to the
-- log are left out.
pub mod Joining
pub mod Start
pub mod Running
pub mod Killing
pub mod Closing
pub mod Serving
mod Tests
use geo_ns_core.Common.{
  ℕ, zero, suc, ◌%◌, ◌^◌, Bool, true, false, List, [], ◌∷◌, ◌++◌, Option, none, some, if◌then◌else◌,
  take,
}
use geo_ns_core.Text.{Text, codes}
use geo_ns_core.Socket.{SocketServer, Effect, Event, kill_socket_server, run_server}
use geo_ns_core.Socket.Opening.{
  Answers, Opened, opened, without_socket, null, open_server_socket, handle_server_socket,
}
use geo_ns_core.Io.{System}
use geo_ns_core.Db.{Sqlite, Node, ledger_db, get_all_active_nodes}
use geo_ns_core.Db.Connection.{Database, Connected, Release, db_open, db_connect, db_disconnect}
use geo_ns_core.Json.{Json}
use geo_ns_core.Config.{Config}
use geo_ns_core.Geonsp.{local_db, max_active_nodes, max_geonsp_buffer_size}
use geo_ns_core.Geonsp.Client.{
  Network, Exchanged, undefined_exchange, exchanged, handle_node_info_exchange,
}
use geo_ns_core.Http.Router.{setup_geons_http_router}
use geo_ns_core.Http.Routes.{HttpServer}
use geo_ns_core.Http.Server.{WebServer, Created, Freed, create_http_server, kill_http_server}

abbrev init_node : ℕ → Text → Node
init_node id server_addr = record {
  id = id;
  server_addr = server_addr;
  node_gateway = 9060;
  status = codes "active";
}

abbrev pub init_nodes : List Node
init_nodes =
    init_node 0 (codes "0.0.0.0")
    ∷ init_node 1 (codes "172.17.0.1")
    ∷ init_node 1 (codes "172.20.0.10")
    ∷ init_node 2 (codes "172.20.0.11")
    ∷ init_node 3 (codes "172.20.0.12")
    ∷ []

-- The node itself, as it asks others.
abbrev pub source_node : Config → Node
source_node config = record {
  id = 0;
  server_addr = take 39 config.geons_config.geons_server_addr;
  node_gateway = config.geons_config.node_gateway_port;
  status = codes "active";
}

-- The network, the local database and what is given back after some exchanges.
pub data Swept (P W : Type 0) : Type 0 where
  undefined_sweep : Swept P W
  swept : P → W → List Effect → Swept P W

-- The same with what the databases that were opened have given back and the answer of a function that
-- joins the network; the program may exit.
pub data Joined (P W : Type 0) : Type 0 where
  undefined_join exits_join : Joined P W
  joined : P → W → List Effect → List Release → ℕ → Joined P W

-- What the program finds around it: whether `db_open` has memory, its directory and the paths that
-- SQLite opens.
pub record Place : Type 0 where
  pub has_memory : Bool
  pub cwd : Text
  pub opens : Text → Bool

module _ {P W Row J : Type 0} (json : Json J) (network : Network P) (sqlite : Sqlite W Row)
    (config : Config) (place : Place) where
  abbrev pub sweep_then : List Effect → Swept P W → Swept P W
  sweep_then effects undefined_sweep = undefined_sweep
  sweep_then effects (swept net store effects') = swept net store (effects ++ effects')

  -- The loop over the nodes.
  unfoldable pub exchange_all : Bool → Bool → W → P → List Node → Swept P W
  unfolding handle_node_info_exchange
  exchange_all is_ledger remove store net [] = swept net store []
  exchange_all is_ledger remove store net (node ∷ nodes) =
      elim (handle_node_info_exchange json network sqlite is_ledger store net (source_node config)
        node remove) [
          | undefined_exchange ↦ undefined_sweep
          | exchanged net' store' effects answer ↦
              sweep_then effects (exchange_all is_ledger remove store' net' nodes)
        ]

  abbrev pub join_after : ℕ → Swept P W → Joined P W
  join_after answer undefined_sweep = undefined_join
  join_after answer (swept net store effects) = joined net store effects [] answer

  abbrev pub join_active : P → Bool → W → Option (List Node) → Joined P W
  join_active net is_ledger store none = joined net store [] [] 0
  join_active net is_ledger store (some nodes) =
      join_after 1 (exchange_all is_ledger true store net nodes)

  abbrev pub disconnected : Option (List Release) → Joined P W → Joined P W
  disconnected released undefined_join = undefined_join
  disconnected released exits_join = exits_join
  disconnected none (joined net store effects releases answer) = undefined_join
  disconnected (some released) (joined net store effects releases answer) =
      joined net store effects (releases ++ released) answer

  -- The database is connected, used and disconnected.
  abbrev pub on_local_db : (Database → W → Joined P W) → Connected W → Joined P W
  on_local_db body Connected.exits = exits_join
  on_local_db body Connected.undefined = undefined_join
  on_local_db body (Connected.connected db store) =
      disconnected (db_disconnect (some db)) (body db store)

  -- The local database is opened and used, or the answer is 0; `next` is what comes when it is closed.
  abbrev pub with_local_db :
      P → W → (Joined P W → Joined P W) → (Database → W → Joined P W) → Joined P W
  with_local_db net store next body = elim (db_open place.has_memory local_db) [
    | none ↦ joined net store [] [] 0
    | some db ↦ next (on_local_db body (db_connect sqlite place.cwd place.opens db store))
  ]

  unfoldable pub connect_localdb_node_servers : P → W → Joined P W
  unfolding exchange_all db_open db_connect db_disconnect get_all_active_nodes
  connect_localdb_node_servers net store =
      with_local_db net store (λ j. j)
        (λ db store'.
          join_active net db.is_ledger store'
            (get_all_active_nodes sqlite db.is_ledger store' max_active_nodes))

  abbrev pub join_then : List Effect → List Release → Joined P W → Joined P W
  join_then effects releases undefined_join = undefined_join
  join_then effects releases exits_join = exits_join
  join_then effects releases (joined net store effects' releases' answer) =
      joined net store (effects ++ effects') (releases ++ releases') answer

  abbrev pub then_localdb : Joined P W → Joined P W
  then_localdb undefined_join = undefined_join
  then_localdb exits_join = exits_join
  then_localdb (joined net store effects releases answer) =
      join_then effects releases (connect_localdb_node_servers net store)

  unfoldable pub connect_init_node_servers : P → W → Joined P W
  unfolding exchange_all connect_localdb_node_servers db_open db_connect db_disconnect
  connect_init_node_servers net store =
      with_local_db net store then_localdb
        (λ db store'. join_after 1 (exchange_all db.is_ledger false store' net init_nodes))

pub record GeonsServer : Type 0 where
  pub ledger_db : Database
  pub local_db : Database
  pub node_gateway_server : SocketServer
  pub http_server : Option WebServer

-- What is given back at the end of a node.
pub data Given : Type 0 where
  of_database : Release → Given
  of_socket : Effect → Given
  of_http : Freed → Given

abbrev pub tagged : {A : Type 0} → (A → Given) → List A → List Given
tagged f [] = []
tagged f (x ∷ xs) = f x ∷ tagged f xs

-- What the detached threads of the two servers have done when a node is killed, and whether one of them
-- still touches its server or a connection when they are freed: nothing waits for them.
pub record Threads : Type 0 where
  pub node_gateway : List Event
  pub http : List Event
  pub goes_on : Bool

abbrev pub with_end : WebServer → Option SocketServer → Option (Option WebServer)
with_end server none = none
with_end server (some socket_server) = some (some (record server { socket_server = socket_server }))

-- The web server, where there is one, as its threads have left it; `none`: they have freed it.
unfoldable pub http_left : List Event → Option WebServer → Option (Option WebServer)
unfolding run_server
http_left events none = some none
http_left events (some server) = with_end server (run_server server.socket_server events).0

-- Both databases are closed, then both servers. `none` is undefined behaviour: a server whose accepting
-- thread has freed it is freed again, or a thread goes on with one that is freed.
abbrev pub give_back :
    Bool
    → Option (List Release)
    → Option (List Release)
    → Option SocketServer
    → Option (Option WebServer)
    → Option (List Given)
give_back true ledger local gateway http = none
give_back false none local gateway http = none
give_back false (some ledger) none gateway http = none
give_back false (some ledger) (some local) none http = none
give_back false (some ledger) (some local) (some gateway) none = none
give_back false (some ledger) (some local) (some gateway) (some http) =
    let (freed, effects) = kill_http_server http in
    some (
      tagged of_database ledger
      ++ (tagged of_database local
          ++ (tagged of_socket (kill_socket_server (some gateway))
              ++ (tagged of_http freed ++ tagged of_socket effects))))

-- `none` is a null pointer.
unfoldable pub kill_geons_server : Threads → Option GeonsServer → Option (List Given)
unfolding db_disconnect run_server http_left kill_socket_server kill_http_server
kill_geons_server threads none = some []
kill_geons_server threads (some server) =
    give_back threads.goes_on (db_disconnect (some server.ledger_db))
      (db_disconnect (some server.local_db))
      (run_server server.node_gateway_server threads.node_gateway).0
      (http_left threads.http server.http_server)

abbrev pub slept : Option ℕ → Option ℕ
slept none = none
slept (some seconds) = some (suc seconds)

-- The loop of `serve_geons`, a second at a time: whether the signal comes in that second. The answer is
-- 0 when the loop ends, with the seconds slept; `none`: it is still running.
unfoldable pub serve_geons : List Bool → Option ℕ
serve_geons [] = none
serve_geons (signalled ∷ seconds) = elim signalled [
  | true ↦ some 1
  | false ↦ slept (serve_geons seconds)
]
