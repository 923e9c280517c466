-- ===== src/Node/Start.antt =====
-- `create_geons_server` of src/libs/server/server.c.
use geo_ns_core.Common.{zero, suc, Bool, true, false, List, Option, none, some}
use geo_ns_core.Text.{codes}
use geo_ns_core.Socket.{SocketServer}
use geo_ns_core.Socket.Opening.{
  Answers, Opened, opened, without_socket, null, open_server_socket, handle_server_socket,
}
use geo_ns_core.Io.{System}
use geo_ns_core.Db.{Sqlite, ledger_db}
use geo_ns_core.Db.Connection.{Database, Connected, Release, db_open, db_connect, db_disconnect}
use geo_ns_core.Json.{Json}
use geo_ns_core.Config.{Config}
use geo_ns_core.Geonsp.{local_db, max_geonsp_buffer_size}
use geo_ns_core.Geonsp.Client.{Network}
use geo_ns_core.Http.Router.{setup_geons_http_router}
use geo_ns_core.Http.Routes.{HttpServer}
use geo_ns_core.Http.Server.{WebServer, Created, create_http_server}
use geo_ns_core.Node.{
  Joined, undefined_join, exits_join, joined, Place, GeonsServer, connect_init_node_servers,
}

-- What the system answers while a node starts: memory for the node, the two sockets and their threads.
pub record Startup : Type 0 where
  pub has_memory : Bool
  pub node_answers : Answers
  pub node_thread : Bool
  pub http_memory : Bool
  pub http_answers : Answers
  pub http_thread : Bool

-- The start is undefined, or the program exits, or there is a null pointer, or a node with the states of
-- the network, the local database and the ledger.
pub data Started (P W : Type 0) : Type 0 where
  undefined_start exits_start : Started P W
  not_started : Started P W
  started : P → W → W → GeonsServer → Started P W

module _ {P W Row J : Type 0} (json : Json J) (network : Network P) (sqlite : Sqlite W Row)
    (config : Config) (place : Place) (system : System) (startup : Startup) where
  -- The two databases are connected last, the ledger first.
  abbrev pub with_stores :
      P → SocketServer → Option WebServer → Connected W → Connected W → Started P W
  with_stores net gateway http Connected.exits local = exits_start
  with_stores net gateway http Connected.undefined local = undefined_start
  with_stores net gateway http (Connected.connected ledger ledger_store) Connected.exits =
      exits_start
  with_stores net gateway http (Connected.connected ledger ledger_store) Connected.undefined =
      undefined_start
  with_stores net gateway http (Connected.connected ledger ledger_store)
        (Connected.connected local store) =
      started net store ledger_store (record {
        ledger_db = ledger;
        local_db = local;
        node_gateway_server = gateway;
        http_server = http;
      })

  unfoldable pub connect_databases :
      P → W → W → Database → Database → SocketServer → Option WebServer → Started P W
  unfolding db_connect
  connect_databases net store ledger_store ledger local gateway http =
      with_stores net gateway http (db_connect sqlite place.cwd place.opens ledger ledger_store)
        (db_connect sqlite place.cwd place.opens local store)

  -- `setup_geons_http_router`, which keeps a server that is not null.
  abbrev pub routed : HttpServer → Option HttpServer → HttpServer
  routed server none = server
  routed server (some server') = server'

  -- A thread that does not start makes the program exit.
  abbrev pub http_started : WebServer → Opened → (Option WebServer → Started P W) → Started P W
  http_started server (opened socket_server) next = next (
      some (record {
        http = routed server.http (setup_geons_http_router (some server.http));
        socket_server = socket_server;
      }))
  http_started server _ next = exits_start

  -- A node goes on without a web server.
  abbrev pub start_http : Created → (Option WebServer → Started P W) → Started P W
  start_http Created.undefined next = undefined_start
  start_http (Created.not_created effects) next = next none
  start_http (Created.created server) next =
      http_started server (handle_server_socket startup.http_thread server.socket_server) next

  unfoldable pub start_web : P → W → W → Database → Database → SocketServer → Started P W
  unfolding connect_databases create_http_server handle_server_socket setup_geons_http_router
  start_web net store ledger_store ledger local gateway =
      start_http
        (create_http_server system place.cwd startup.http_memory startup.http_answers
          config.geons_config.geons_server_addr config.http_config.server_port
          (some (codes "/app/www")))
        (connect_databases net store ledger_store ledger local gateway)

  abbrev pub gateway_started : P → W → W → Database → Database → Opened → Started P W
  gateway_started net store ledger_store ledger local (opened gateway) =
      start_web net store ledger_store ledger local gateway
  gateway_started net store ledger_store ledger local _ = exits_start

  -- The node is killed before its databases are connected: they are closed by a pointer that was never
  -- set.
  abbrev pub killed_early : Option (List Release) → Started P W
  killed_early none = undefined_start
  killed_early (some released) = not_started

  unfoldable pub start_gateway : P → W → W → Database → Database → Opened → Started P W
  unfolding start_web handle_server_socket db_disconnect
  start_gateway net store ledger_store ledger local (opened gateway) =
      gateway_started net store ledger_store ledger local (
        handle_server_socket startup.node_thread
          (record gateway { buffer_size_per_client = max_geonsp_buffer_size }))
  start_gateway net store ledger_store ledger local without_socket = undefined_start
  start_gateway net store ledger_store ledger local (null effects) =
      killed_early (db_disconnect (some ledger))

  abbrev pub open_local : P → W → W → Database → Option Database → Started P W
  open_local net store ledger_store ledger none = killed_early (db_disconnect (some ledger))
  open_local net store ledger_store ledger (some local) =
      start_gateway net store ledger_store ledger local (
        open_server_socket startup.node_answers config.geons_config.geons_server_addr
          config.geons_config.node_gateway_port)

  abbrev pub open_ledger : P → W → W → Option Database → Started P W
  open_ledger net store ledger_store none = not_started
  open_ledger net store ledger_store (some ledger) =
      open_local net store ledger_store ledger (db_open place.has_memory local_db)

  -- Without a local database there is no node.
  unfoldable pub start_joined : W → Joined P W → Started P W
  unfolding start_gateway db_open open_server_socket db_disconnect
  start_joined ledger_store undefined_join = undefined_start
  start_joined ledger_store exits_join = exits_start
  start_joined ledger_store (joined net store effects releases zero) = not_started
  start_joined ledger_store (joined net store effects releases (suc answer)) =
      open_ledger net store ledger_store (db_open place.has_memory ledger_db)

  unfoldable pub create_geons_server : P → W → W → Started P W
  unfolding start_joined connect_init_node_servers
  create_geons_server net store ledger_store = elim startup.has_memory [
    | false ↦ not_started
    | true ↦
        start_joined ledger_store
          (connect_init_node_servers json network sqlite config place net store)
  ]
