-- ===== src/Node/Killing.antt =====
-- The end of a node whose threads run detached.
use geo_ns_core.Common.{
  ◌⊎◌, inl, inr, ◌≡◌, refl, ap, ◌∙◌, Bool, true, false, List, [], ◌∷◌, ◌++◌, Option, none, some,
}
use geo_ns_core.Socket.{
  SocketServer, Event, Effect, accepting, no_memory, accept_round, run_event, while_alive,
  run_server,
}
use geo_ns_core.Db.Connection.{Release}
use geo_ns_core.Http.Server.{WebServer}
use geo_ns_core.Node.{Threads, GeonsServer, give_back, http_left, kill_geons_server}

ended :
    (server : SocketServer) (alive : Bool) (next : Option SocketServer × List Effect)
    → next.0 ≡ none
    → (while_alive (record server { is_alive = alive }) next).0 ≡ none
unfolding while_alive
ended server true next e = e
ended server false next e = refl

dead :
    (server : SocketServer) (events : List Event)
    → (run_server (record server { is_alive = false }) events).0 ≡ none
unfolding run_server while_alive
dead server [] = refl
dead server (event ∷ events) = refl

-- A server that has no memory for a connection is freed by its accepting thread, whatever comes before
-- and behind.
run_server-no_memory :
    (server : SocketServer) (before behind : List Event)
    → (run_server server (before ++ accepting no_memory ∷ behind)).0 ≡ none
unfolding run_server
run_server-no_memory server (event ∷ before) behind =
    ended server server.is_alive _ (run_server-no_memory (run_event server event).0 before behind)
run_server-no_memory server [] behind =
    ended server server.is_alive _ (unfold run_event accept_round in dead server behind)

no_gateway :
    (goes_on : Bool) (ledger local : Option (List Release)) (http : Option (Option WebServer))
    → give_back goes_on ledger local none http ≡ none
no_gateway true ledger local http = refl
no_gateway false none local http = refl
no_gateway false (some ledger) none http = refl
no_gateway false (some ledger) (some local) http = refl

no_http :
    (goes_on : Bool) (ledger local : Option (List Release)) (gateway : Option SocketServer)
    → give_back goes_on ledger local gateway none ≡ none
no_http true ledger local gateway = refl
no_http false none local gateway = refl
no_http false (some ledger) none gateway = refl
no_http false (some ledger) (some local) none = refl
no_http false (some ledger) (some local) (some gateway) = refl

-- A server whose accepting thread once has no memory for a connection.
abbrev pub OutOfMemory : List Event → Type 0
OutOfMemory events =
    (before : List Event) × (behind : List Event) × (events
      ≡ before ++ accepting no_memory ∷ behind)

run_server-OutOfMemory :
    (server : SocketServer) (events : List Event)
    → OutOfMemory events
    → (run_server server events).0 ≡ none
run_server-OutOfMemory server events (before, behind, e) =
    ap (λ es. (run_server server es).0) e ∙ run_server-no_memory server before behind

-- When the gateway, or the web server where there is one, has once had no memory for a connection, the
-- end of the node is undefined behaviour, whatever else its threads have done: the server is freed a
-- second time.
pub kill_geons_server-OutOfMemory :
    (threads : Threads) (server : GeonsServer) (web : WebServer)
    → OutOfMemory threads.node_gateway
      ⊎ ((server.http_server ≡ some web) × OutOfMemory threads.http)
    → kill_geons_server threads (some server) ≡ none
unfolding kill_geons_server
kill_geons_server-OutOfMemory threads server web (inl out) =
    rw (run_server-OutOfMemory server.node_gateway_server threads.node_gateway out)
      (no_gateway threads.goes_on _ _ _)
kill_geons_server-OutOfMemory threads server web (inr (serves, out)) =
    let left : http_left threads.http (some web) ≡ none =
      unfold http_left in rw (run_server-OutOfMemory web.socket_server threads.http out) refl in
    rw (serves, left) (no_http threads.goes_on _ _ _)
