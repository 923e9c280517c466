-- ===== src/Socket/Lifecycle.antt =====
-- File descriptors over the life of a server: what is held, got and closed, the closing that callbacks
-- do themselves included.
use geo_ns_core.Common.{
  ℕ, ◌+◌, ◌≡◌, refl, ◌∙◌, ap, List, [], ◌∷◌, ◌++◌, Option, none, some, true, false, Bool, arith,
}
use geo_ns_core.Socket.{
  SocketConnection, SocketServer, Effect, closed, freed_server, add_connection, release,
  remove_connection, removed, kill_socket_server, Round, client_rounds, set_buffer, handle_client,
  Accept, no_memory, accept_failed, no_client_memory, no_thread, started, accepted, drop_connection,
  accept_round, Event, accepting, handling, run_event, while_alive, run_server,
}
use geo_ns_core.Socket.Removal.{release_all, kill_socket_server-releases}
use geo_ns_core.Socket.Balance.{
  closes, held, held_by, one, opens, closes-append, closes-release, balance-remove,
  held-add_connection, held-set_buffer, closes-client_rounds, closes_of,
}

balance-drop_connection :
    (x : ℕ) (server : SocketServer) (c : SocketConnection)
    → closes x (drop_connection server c).1 + held x (drop_connection server c).0.connections
      ≡ held x server.connections + held_by x c.connection_status c.fd
unfolding drop_connection
balance-drop_connection x server c =
    balance-remove x (add_connection server.connections c) c.address
    ∙ held-add_connection x server.connections c

balance-accept_round :
    (x : ℕ) (server : SocketServer) (accept : Accept)
    → closes x (accept_round server accept).1 + held x (accept_round server accept).0.connections
      ≡ held x server.connections + opens x (accepting accept)
unfolding accept_round
balance-accept_round x server no_memory = omega arith
balance-accept_round x server (accept_failed address) = balance-drop_connection x server _
balance-accept_round x server (no_client_memory address fd) = balance-drop_connection x server _
balance-accept_round x server (no_thread address fd peer) = balance-drop_connection x server _
balance-accept_round x server (started address fd peer) =
    omega (arith, held-add_connection x server.connections (accepted server address fd (some peer)))

-- How often the callbacks that an event runs close the descriptor themselves.
abbrev pub called_back : ℕ → Event → ℕ
called_back x (accepting accept) = 0
called_back x (handling false rounds connection) = 0
called_back x (handling true rounds connection) = closes_of x rounds

balance-handle_client :
    (x : ℕ) (has_memory : Bool) (rounds : List Round) (c : SocketConnection)
    (cs : List SocketConnection)
    → closes x (handle_client has_memory rounds c cs).1
        + held x (handle_client has_memory rounds c cs).0
      ≡ held x cs + called_back x (handling has_memory rounds c)
unfolding handle_client
balance-handle_client x false rounds c cs = omega (arith, balance-remove x cs c.address)
balance-handle_client x true rounds c cs = omega (
  arith,
  closes-append x (client_rounds c.fd rounds)
      (removed (set_buffer c cs) (remove_connection (set_buffer c cs) c.address)).1,
  closes-client_rounds x c.fd rounds,
  balance-remove x (set_buffer c cs) c.address,
  held-set_buffer x c cs,
)

-- In every event, whatever fails in it, the descriptors that connections of the list hold and those
-- that `accept` gives are afterwards held by connections of the list or closed, each as often, besides
-- the closing that callbacks do themselves.
pub run_event-balance :
    (x : ℕ) (server : SocketServer) (event : Event)
    → closes x (run_event server event).1 + held x (run_event server event).0.connections
      ≡ held x server.connections + opens x event + called_back x event
unfolding run_event
run_event-balance x server (accepting accept) = omega (arith, balance-accept_round x server accept)
run_event-balance x server (handling has_memory rounds connection) =
    omega (arith, balance-handle_client x has_memory rounds connection server.connections)

-- A count over the events that are run: those up to the one that finds the server not alive.
abbrev pub counted : (Event → ℕ) → SocketServer → List Event → ℕ
counted count server [] = 0
counted count server (event ∷ events) =
    let rest = counted count (run_event server event).0 events in
    elim server.is_alive [ true ↦ count event + rest | false ↦ 0 ]

closes-release_all : (x : ℕ) (cs : List SocketConnection) → closes x (release_all cs) ≡ held x cs
closes-release_all x [] = refl
closes-release_all x (c ∷ cs) = omega (
  arith,
  closes-append x (release c) (release_all cs),
  closes-release x c,
  closes-release_all x cs,
)

pub closes-kill_socket_server :
    (x : ℕ) (server : SocketServer)
    → closes x (kill_socket_server (some server)) ≡ held x server.connections + one x server.fd
closes-kill_socket_server x server =
    ap (closes x) (kill_socket_server-releases server)
    ∙ omega (
      arith,
      closes-append x (release_all server.connections) (closed server.fd ∷ freed_server ∷ []),
      closes-release_all x server.connections,
    )

-- The descriptors that are still in use at the end of a run.
abbrev pub still_held : ℕ → Option SocketServer → ℕ
still_held x none = 0
still_held x (some server) = held x server.connections + one x server.fd

run_event-fd : (server : SocketServer) (event : Event) → (run_event server event).0.fd ≡ server.fd
unfolding run_event accept_round drop_connection
run_event-fd server (accepting no_memory) = refl
run_event-fd server (accepting (accept_failed address)) = refl
run_event-fd server (accepting (no_client_memory address fd)) = refl
run_event-fd server (accepting (no_thread address fd peer)) = refl
run_event-fd server (accepting (started address fd peer)) = refl
run_event-fd server (handling has_memory rounds connection) = refl

balance-while_alive :
    (x : ℕ) (server : SocketServer) (alive : Bool) (next : Option SocketServer × List Effect)
    (n : ℕ)
    → closes x next.1 + still_held x next.0 ≡ held x server.connections + one x server.fd + n
    → closes x (while_alive (record server { is_alive = alive }) next).1
        + still_held x (while_alive (record server { is_alive = alive }) next).0
      ≡ held x server.connections + one x server.fd + elim alive [ true ↦ n | false ↦ 0 ]
unfolding while_alive
balance-while_alive x server true next n h = h
balance-while_alive x server false next n h =
    omega (arith, closes-kill_socket_server x (record server { is_alive = false }))

both_zero : (alive : Bool) → elim alive as (λ x. ℕ) [ true ↦ 0 | false ↦ 0 ] ≡ 0
both_zero true = refl
both_zero false = refl

split_alive :
    (alive : Bool) (k m n : ℕ)
    → k + elim alive as (λ x. ℕ) [ true ↦ m + n | false ↦ 0 ]
      ≡ k
        + elim alive as (λ x. ℕ) [ true ↦ m | false ↦ 0 ]
        + elim alive as (λ x. ℕ) [ true ↦ n | false ↦ 0 ]
split_alive true k m n = omega arith
split_alive false k m n = omega arith

-- Over the whole run of a server every descriptor is closed as often as it was held at the start, by
-- the server or its connections, or given by `accept`, but for what is still held at the end (nothing
-- where the server has been killed); and besides as often as the callbacks close it themselves.
pub run_server-balance :
    (x : ℕ) (server : SocketServer) (events : List Event)
    → closes x (run_server server events).1 + still_held x (run_server server events).0
      ≡ held x server.connections
        + one x server.fd
        + counted (opens x) server events
        + counted (called_back x) server events
unfolding run_server
run_server-balance x server [] =
    balance-while_alive x server server.is_alive (some server, []) 0 (omega arith)
    ∙ ap (λ n. held x server.connections + one x server.fd + n) (both_zero server.is_alive)
    ∙ omega arith
run_server-balance x server (event ∷ events) =
    let (server', effects) = run_event server event in
    let (end, effects') = run_server server' events in
    balance-while_alive x server server.is_alive (end, effects ++ effects')
      (opens x event
        + counted (opens x) server' events
        + (called_back x event + counted (called_back x) server' events))
      (omega (
        arith,
        closes-append x effects effects',
        run_event-balance x server event,
        ap (one x) (run_event-fd server event),
        run_server-balance x server' events,
      ))
    ∙ split_alive server.is_alive _ _ _
