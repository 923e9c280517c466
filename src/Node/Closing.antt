-- ===== src/Node/Closing.antt =====
-- The end of a node, as the descriptors see it: those of both its servers over their whole lives.
use geo_ns_core.Common.{
  ℕ, ◌+◌, ◌≡◌, refl, ◌∙◌, ap, Bool, true, false, List, [], ◌∷◌, ◌++◌, Option, none, some, arith,
}
use geo_ns_core.Socket.{SocketServer, Effect, Event, kill_socket_server, run_server}
use geo_ns_core.Socket.Balance.{closes, closes-append, opens}
use geo_ns_core.Socket.Lifecycle.{
  still_held, counted, called_back, closes-kill_socket_server, run_server-balance,
}
use geo_ns_core.Db.Connection.{Release, db_disconnect}
use geo_ns_core.Http.Server.{WebServer, Freed, kill_http_server}
use geo_ns_core.Node.{
  Threads, GeonsServer, Given, of_database, of_socket, of_http, tagged, with_end, give_back,
  http_left, kill_geons_server,
}

-- What is given back of the sockets.
abbrev pub sockets : List Given → List Effect
sockets [] = []
sockets (of_socket effect ∷ given) = effect ∷ sockets given
sockets (of_database release ∷ given) = sockets given
sockets (of_http freed ∷ given) = sockets given

sockets-database :
    (rs : List Release) (given : List Given)
    → sockets (tagged of_database rs ++ given) ≡ sockets given
sockets-database [] given = refl
sockets-database (r ∷ rs) given = sockets-database rs given

sockets-http :
    (fs : List Freed) (given : List Given) → sockets (tagged of_http fs ++ given) ≡ sockets given
sockets-http [] given = refl
sockets-http (f ∷ fs) given = sockets-http fs given

sockets-socket :
    (es : List Effect) (given : List Given)
    → sockets (tagged of_socket es ++ given) ≡ es ++ sockets given
sockets-socket [] given = refl
sockets-socket (e ∷ es) given = ap (λ t. e ∷ t) (sockets-socket es given)

sockets_only : (es : List Effect) → sockets (tagged of_socket es) ≡ es
sockets_only [] = refl
sockets_only (e ∷ es) = ap (λ t. e ∷ t) (sockets_only es)

-- The descriptors that a web server holds, where there is one.
abbrev http_held : ℕ → Option WebServer → ℕ
http_held x none = 0
http_held x (some server) = still_held x (some server.socket_server)

closes-kill_http_server :
    (x : ℕ) (http : Option WebServer) → closes x (kill_http_server http).1 ≡ http_held x http
unfolding kill_http_server
closes-kill_http_server x none = refl
closes-kill_http_server x (some server) = closes-kill_socket_server x server.socket_server

-- A node that is killed has both servers still, and closes what they hold.
give_back-closes :
    (x : ℕ) (goes_on : Bool) (ledger local : Option (List Release)) (gateway : Option SocketServer)
    (http : Option (Option WebServer)) (given : List Given)
    → give_back goes_on ledger local gateway http ≡ some given
    → (g : SocketServer) × (h : Option WebServer) × (gateway ≡ some g)
      × (http ≡ some h)
      × (closes x (sockets given) ≡ still_held x (some g) + http_held x h)
give_back-closes x true ledger local gateway http given e = absurd cc
give_back-closes x false none local gateway http given e = absurd cc
give_back-closes x false (some ledger) none gateway http given e = absurd cc
give_back-closes x false (some ledger) (some local) none http given e = absurd cc
give_back-closes x false (some ledger) (some local) (some gateway) none given e = absurd cc
give_back-closes x false (some ledger) (some local) (some gateway) (some http) given e =
    let effects = (kill_http_server http).1 in
    let killed = kill_socket_server (some gateway) in
    let all =
      tagged of_database ledger
      ++ (tagged of_database local
          ++ (tagged of_socket killed
              ++ (tagged of_http (kill_http_server http).0 ++ tagged of_socket effects))) in
    let same : all ≡ given = cc in
    let parts : sockets all ≡ killed ++ effects =
      sockets-database ledger _
      ∙ sockets-database local _
      ∙ sockets-socket killed _
      ∙ ap (λ t. killed ++ t) (sockets-http (kill_http_server http).0 _ ∙ sockets_only effects) in
    (
      gateway,
      http,
      refl,
      refl,
      omega (
        arith,
        ap (λ g. closes x (sockets g)) same,
        ap (closes x) parts,
        closes-append x killed effects,
        closes-kill_socket_server x gateway,
        closes-kill_http_server x http,
      ),
    )

-- What the threads of a server close.
abbrev pub closed_by : ℕ → SocketServer → List Event → ℕ
closed_by x server events = closes x (run_server server events).1

-- What a server holds, its threads get from `accept`, and callbacks close themselves.
abbrev pub due : ℕ → SocketServer → List Event → ℕ
due x server events =
    still_held x (some server)
    + counted (opens x) server events
    + counted (called_back x) server events

-- The same two of a web server, where there is one.
abbrev pub http_closed_by : ℕ → Option WebServer → List Event → ℕ
http_closed_by x none events = 0
http_closed_by x (some server) events = closed_by x server.socket_server events

abbrev pub http_due : ℕ → Option WebServer → List Event → ℕ
http_due x none events = 0
http_due x (some server) events = due x server.socket_server events

http_left-balance :
    (x : ℕ) (http : Option WebServer) (events : List Event) (h : Option WebServer)
    → http_left events http ≡ some h
    → http_closed_by x http events + http_held x h ≡ http_due x http events
unfolding http_left
http_left-balance x none events none e = refl
http_left-balance x none events (some server) e = absurd cc
http_left-balance x (some server) events h e =
    left x server (run_server server.socket_server events).0 h
      (closed_by x server.socket_server events) (due x server.socket_server events) e
      (run_server-balance x server.socket_server events)
  where
    left :
        (x : ℕ) (server : WebServer) (end : Option SocketServer) (h : Option WebServer) (n m : ℕ)
        → with_end server end ≡ some h
        → n + still_held x end ≡ m
        → n + http_held x h ≡ m
    left x server none h n m e b = absurd cc
    left x server (some socket_server) h n m e b =
        let same : some (record server { socket_server = socket_server }) ≡ h = cc in
        omega (arith, ap (http_held x) same, b)

-- When a node is killed without undefined behaviour, every descriptor has been closed, over the lives of
-- both its servers, exactly as often as the servers and their connections held it at the start and their
-- threads got it from `accept`, and besides as often as callbacks close it themselves: none is left open.
pub kill_geons_server-balance :
    (x : ℕ) (threads : Threads) (server : GeonsServer) (given : List Given)
    → kill_geons_server threads (some server) ≡ some given
    → closed_by x server.node_gateway_server threads.node_gateway
        + http_closed_by x server.http_server threads.http
        + closes x (sockets given)
      ≡ due x server.node_gateway_server threads.node_gateway
        + http_due x server.http_server threads.http
unfolding kill_geons_server
kill_geons_server-balance x threads server given e =
    let (g, h, gateway, http, closing) =
      give_back-closes x threads.goes_on (db_disconnect (some server.ledger_db))
        (db_disconnect (some server.local_db))
        (run_server server.node_gateway_server threads.node_gateway).0
        (http_left threads.http server.http_server) given e in
    omega (
      arith,
      closing,
      ap (still_held x) gateway,
      run_server-balance x server.node_gateway_server threads.node_gateway,
      http_left-balance x server.http_server threads.http h http,
    )
