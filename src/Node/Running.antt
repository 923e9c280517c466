-- ===== src/Node/Running.antt =====
-- What a started node holds, and a start that fails.
use mathlib.Core.Path.{subst}
use geo_ns_core.Http.Routes.{HttpServer, set_http_route}
use geo_ns_core.Http.Router.{setup_geons_http_router}
use geo_ns_core.Common.{
  ℕ, zero, suc, ◌≡◌, refl, Bool, true, List, ◌++◌, Option, none, some, length, leb, Bool-cases, inl,
  inr,
}
use geo_ns_core.Text.{Text}
use geo_ns_core.Socket.{SocketServer, Effect}
use geo_ns_core.Socket.Opening.{
  Opened, opened, without_socket, null, open_server_socket, handle_server_socket,
}
use geo_ns_core.Io.{System}
use geo_ns_core.Db.{Sqlite, db_init, is_ledger_name, ledger_db}
use geo_ns_core.Db.Connection.{
  Handle, Database, Connected, Release, max_sys_path_length, initialised, db_open, db_connect,
  db_disconnect,
}
use geo_ns_core.Json.{Json}
use geo_ns_core.Config.{Config}
use geo_ns_core.Geonsp.{local_db, max_geonsp_buffer_size}
use geo_ns_core.Geonsp.Client.{Network}
use geo_ns_core.Http.Server.{WebServer, Created}
use geo_ns_core.Node.{
  Place, Joined, GeonsServer, undefined_join, exits_join, joined, connect_init_node_servers,
}
use geo_ns_core.Node.Start.{
  Startup, Started, undefined_start, started, with_stores, connect_databases, start_http, start_web,
  start_gateway, start_joined, create_geons_server, killed_early, routed,
}

abbrev pub IsConnected : Text → Database → Type 0
IsConnected name db = (db.db_name ≡ name) × (db.handle ≡ Handle.opened)

-- The web server, where there is one, is alive and has the routes of the table.
abbrev pub IsServing : Option WebServer → Type 0
IsServing none = Unit
IsServing (some server) =
    (server.socket_server.is_alive ≡ true)
    × ((http : HttpServer) × (setup_geons_http_router (some http) ≡ some server.http))

-- The ledger and the local database are connected, the gateway is alive with the buffer of the protocol,
-- and so is the web server, where there is one.
abbrev pub IsRunning : GeonsServer → Type 0
IsRunning server =
    IsConnected ledger_db server.ledger_db
    × IsConnected local_db server.local_db
    × (server.node_gateway_server.is_alive ≡ true)
    × (server.node_gateway_server.buffer_size_per_client ≡ max_geonsp_buffer_size)
    × IsServing server.http_server

-- A node that is started is running; nothing is said where none is.
abbrev pub Runs : {P W : Type 0} → Started P W → Type 0
Runs (started net store ledger_store server) = IsRunning server
Runs _ = Unit

-- A database as `db_open` gives it.
abbrev unset : Text → Database
unset name = record { db_name = name; is_ledger = is_ledger_name name; handle = Handle.unset }

abbrev OpenIfConnected : {W : Type 0} → Text → Connected W → Type 0
OpenIfConnected name (Connected.connected db store) = IsConnected name db
OpenIfConnected name _ = Unit

module _ {P W Row J : Type 0} (json : Json J) (network : Network P) (sqlite : Sqlite W Row)
    (config : Config) (place : Place) (system : System) (startup : Startup) where
  initialised-OpenIfConnected :
      (db : Database) (store : Option W) → OpenIfConnected db.db_name (initialised db store)
  initialised-OpenIfConnected db none = tt
  initialised-OpenIfConnected db (some store) = (refl, refl)

  db_connect-OpenIfConnected :
      (cwd : Text) (opens : Text → Bool) (db : Database) (store : W)
      → OpenIfConnected db.db_name (db_connect sqlite cwd opens db store)
  unfolding db_connect
  db_connect-OpenIfConnected cwd opens db store =
      let path = cwd ++ db.db_name in
      elim (Bool-cases (leb max_sys_path_length (length path))) [
        | inl long ↦ rw long tt
        | inr short ↦ elim (Bool-cases (opens path)) [
          | inl found ↦
              rw (short, found) (initialised-OpenIfConnected db (db_init sqlite db.is_ledger store))
          | inr fails ↦ rw (short, fails) tt
        ]
      ]

  with_stores-Runs :
      (net : P) (gateway : SocketServer) (http : Option WebServer) (ledger local : Connected W)
      → gateway.is_alive ≡ true
      → gateway.buffer_size_per_client ≡ max_geonsp_buffer_size
      → IsServing http
      → OpenIfConnected ledger_db ledger
      → OpenIfConnected local_db local
      → Runs (
          with_stores json network sqlite config place system startup net gateway http ledger local)
  with_stores-Runs net gateway http Connected.exits local alive size web l m = tt
  with_stores-Runs net gateway http Connected.undefined local alive size web l m = tt
  with_stores-Runs net gateway http (Connected.connected ledger store) Connected.exits alive size
        web l m =
      tt
  with_stores-Runs net gateway http (Connected.connected ledger store) Connected.undefined alive
        size web l m =
      tt
  with_stores-Runs net gateway http (Connected.connected ledger store)
        (Connected.connected local store') alive size web l m =
      (l, m, alive, size, web)

  connect_databases-Runs :
      (net : P) (store ledger_store : W) (ledger local : Database) (gateway : SocketServer)
      (http : Option WebServer)
      → gateway.is_alive ≡ true
      → gateway.buffer_size_per_client ≡ max_geonsp_buffer_size
      → ledger.db_name ≡ ledger_db
      → local.db_name ≡ local_db
      → IsServing http
      → Runs (
          connect_databases json network sqlite config place system startup net store ledger_store
            ledger local gateway http)
  unfolding connect_databases
  connect_databases-Runs net store ledger_store ledger local gateway http alive size l m web =
      with_stores-Runs net gateway http
        (db_connect sqlite place.cwd place.opens ledger ledger_store)
        (db_connect sqlite place.cwd place.opens local store) alive size web
        (subst
          (λ n. OpenIfConnected n (db_connect sqlite place.cwd place.opens ledger ledger_store)) l
          (db_connect-OpenIfConnected place.cwd place.opens ledger ledger_store))
        (subst (λ n. OpenIfConnected n (db_connect sqlite place.cwd place.opens local store)) m
          (db_connect-OpenIfConnected place.cwd place.opens local store))

  handled-IsServing :
      (server : WebServer) (socket_server : SocketServer)
      → socket_server.is_alive ≡ true
      → IsServing (
          some (record {
            http =
                routed json network sqlite config place system startup server.http
                  (setup_geons_http_router (some server.http));
            socket_server = socket_server;
          }))
  unfolding setup_geons_http_router set_http_route
  handled-IsServing server socket_server alive = (alive, (server.http, refl))

  start_http-Runs :
      (created : Created) (next : Option WebServer → Started P W)
      → ((http : Option WebServer) → IsServing http → Runs (next http))
      → Runs (start_http json network sqlite config place system startup created next)
  unfolding handle_server_socket
  start_http-Runs Created.undefined next runs = tt
  start_http-Runs (Created.not_created effects) next runs = runs none tt
  start_http-Runs (Created.created server) next runs = elim (Bool-cases startup.http_thread) [
    | inl starts ↦
        rw starts
          (runs _ (handled-IsServing server (record server.socket_server { is_alive = true }) refl))
    | inr fails ↦ rw fails tt
  ]

  start_web-Runs :
      (net : P) (store ledger_store : W) (ledger local : Database) (gateway : SocketServer)
      → gateway.is_alive ≡ true
      → gateway.buffer_size_per_client ≡ max_geonsp_buffer_size
      → ledger.db_name ≡ ledger_db
      → local.db_name ≡ local_db
      → Runs (
          start_web json network sqlite config place system startup net store ledger_store ledger
            local gateway)
  unfolding start_web
  start_web-Runs net store ledger_store ledger local gateway alive size l m =
      start_http-Runs _ _ (λ http web.
        connect_databases-Runs net store ledger_store ledger local gateway http alive size l m web)

  killed_early-Runs :
      (released : Option (List Release))
      → Runs (killed_early json network sqlite config place system startup released)
  killed_early-Runs none = tt
  killed_early-Runs (some released) = tt

  start_gateway-Runs :
      (net : P) (store ledger_store : W) (ledger local : Database) (gateway : Opened)
      → ledger.db_name ≡ ledger_db
      → local.db_name ≡ local_db
      → Runs (
          start_gateway json network sqlite config place system startup net store ledger_store
            ledger local gateway)
  unfolding start_gateway handle_server_socket
  start_gateway-Runs net store ledger_store ledger local without_socket l m = tt
  start_gateway-Runs net store ledger_store ledger local (null effects) l m =
      killed_early-Runs (db_disconnect (some ledger))
  start_gateway-Runs net store ledger_store ledger local (opened gateway) l m =
      elim (Bool-cases startup.node_thread) [
        | inl starts ↦
            rw starts (start_web-Runs net store ledger_store ledger local _ refl refl l m)
        | inr fails ↦ rw fails tt
      ]

  start_joined-Runs :
      (ledger_store : W) (joining : Joined P W)
      → Runs (start_joined json network sqlite config place system startup ledger_store joining)
  unfolding start_joined db_open
  start_joined-Runs ledger_store undefined_join = tt
  start_joined-Runs ledger_store exits_join = tt
  start_joined-Runs ledger_store (joined net store effects releases zero) = tt
  start_joined-Runs ledger_store (joined net store effects releases (suc answer)) =
      elim (Bool-cases place.has_memory) [
        | inl memory ↦ rw memory (
            start_gateway-Runs net store ledger_store (unset ledger_db) (unset local_db) _ refl
              refl)
        | inr full ↦ rw full tt
      ]

  -- Whatever the network, the databases and the system answer: a node that is started has connected both
  -- databases, each under its name, and has started its gateway alive, with a buffer of 4096 bytes for each
  -- client; its web server, where there is one, has been given the routes of the table and started alive.
  pub create_geons_server-Runs :
      (net : P) (store ledger_store : W)
      → Runs (
          create_geons_server json network sqlite config place system startup net store
            ledger_store)
  unfolding create_geons_server
  create_geons_server-Runs net store ledger_store = elim (Bool-cases startup.has_memory) [
    | inl memory ↦ rw memory (
        start_joined-Runs ledger_store
          (connect_init_node_servers json network sqlite config place net store))
    | inr full ↦ rw full tt
  ]

  -- When the node has joined the network but the gateway cannot be opened, the start ends in undefined
  -- behaviour: it closes the ledger, which was never connected.
  create_geons_server-no_gateway :
      (net net' : P) (store store' ledger_store : W) (effects closed : List Effect)
      (releases : List Release) (answer : ℕ)
      → startup.has_memory ≡ true
      → place.has_memory ≡ true
      → connect_init_node_servers json network sqlite config place net store
        ≡ joined net' store' effects releases (suc answer)
      → open_server_socket startup.node_answers config.geons_config.geons_server_addr
          config.geons_config.node_gateway_port
        ≡ null closed
      → create_geons_server json network sqlite config place system startup net store ledger_store
        ≡ undefined_start
  unfolding create_geons_server start_joined start_gateway db_open db_disconnect
  create_geons_server-no_gateway net net' store store' ledger_store effects closed releases answer
        memory place_memory joins closes =
      rw (memory, joins, place_memory, closes) refl
