-- ===== src/Socket/Removal.antt =====
-- What the removal of connections does to the list.
use geo_ns_core.Common.{
  ℕ, ◌≡◌, ◌≢◌, refl, ◌∙◌, ap, List, [], ◌∷◌, ◌++◌, none, some, true, false, arith, All, ◌==◌,
  append-nil,
}
use geo_ns_core.Socket.{
  SocketConnection, SocketServer, Effect, closed, freed_server, add_connection, release,
  remove_connection, kill_connections, kill_socket_server, Round, client_rounds, set_buffer,
  handle_client, Accept, no_memory, accept_failed, no_client_memory, no_thread, started,
  new_connection, accepted, drop_connection, accept_round,
}

-- No connection stands at the address.
abbrev pub IsAbsent : ℕ → List SocketConnection → Type 0
IsAbsent address = All (λ c. c.address ≢ address)

pub remove_connection-absent :
    (cs : List SocketConnection) (a : ℕ) → IsAbsent a cs → remove_connection cs a ≡ none
unfolding remove_connection
remove_connection-absent [] a h = refl
remove_connection-absent (c ∷ cs) a (ne, h) =
    let other : (c.address == a) ≡ false = ground arith in
    rw (other, remove_connection-absent cs a h) refl

-- The first connection at an address is taken out and given back, and all others stay in their order.
pub remove_connection-found :
    (xs : List SocketConnection) (c : SocketConnection) (ys : List SocketConnection)
    → IsAbsent c.address xs
    → remove_connection (xs ++ c ∷ ys) c.address ≡ some (xs ++ ys, release c)
unfolding remove_connection
remove_connection-found [] c ys h =
    let same : (c.address == c.address) ≡ true = ground arith in rw same refl
remove_connection-found (x ∷ xs) c ys (ne, h) =
    let other : (x.address == c.address) ≡ false = ground arith in
    rw (other, remove_connection-found xs c ys h) refl

pub add_connection_lem :
    (cs : List SocketConnection) (c : SocketConnection) → add_connection cs c ≡ cs ++ c ∷ []
unfolding add_connection
add_connection_lem [] c = refl
add_connection_lem (x ∷ cs) c = ap (λ t. x ∷ t) (add_connection_lem cs c)

drop_connection_lem :
    (server : SocketServer) (c : SocketConnection)
    → IsAbsent c.address server.connections
    → drop_connection server c ≡ (server, release c)
drop_connection_lem server c h =
    let found = remove_connection-found server.connections c [] h in
    unfold drop_connection in
    rw (add_connection_lem server.connections c, found, append-nil server.connections) refl

-- The connection that a round of the accepting thread has put on the list when the round fails.
abbrev pub dropped : SocketServer → Accept → List SocketConnection
dropped server (accept_failed address) = new_connection server address ∷ []
dropped server (no_client_memory address fd) = accepted server address fd none ∷ []
dropped server (no_thread address fd peer) = accepted server address fd (some peer) ∷ []
dropped server _ = []

dropping :
    (server : SocketServer) (accept : Accept) (c : SocketConnection)
    → dropped server accept ≡ c ∷ []
    → accept_round server accept ≡ drop_connection server c
dropping server no_memory c d = absurd cc
dropping server (accept_failed address) c d =
    let e : new_connection server address ≡ c = cc in
    unfold accept_round in ap (drop_connection server) e
dropping server (no_client_memory address fd) c d =
    let e : accepted server address fd none ≡ c = cc in
    unfold accept_round in ap (drop_connection server) e
dropping server (no_thread address fd peer) c d =
    let e : accepted server address fd (some peer) ≡ c = cc in
    unfold accept_round in ap (drop_connection server) e
dropping server (started address fd peer) c d = absurd cc

-- What is given back for connections that are removed one after another.
abbrev pub release_all : List SocketConnection → List Effect
release_all [] = []
release_all (c ∷ cs) = release c ++ release_all cs

-- A round that fails after it has put its connection on the list leaves the server as it was, and
-- gives back that connection alone, its descriptor included where `accept` gave one; the address of
-- the connection is not in use.
accept_round-failed :
    (server : SocketServer) (accept : Accept) (c : SocketConnection)
    → dropped server accept ≡ c ∷ []
    → IsAbsent c.address server.connections
    → accept_round server accept ≡ (server, release c)
accept_round-failed server accept c d h =
    dropping server accept c d ∙ drop_connection_lem server c h

pub kill_connections_lem :
    (cs : List SocketConnection) → kill_connections cs cs ≡ ([], release_all cs)
unfolding kill_connections
kill_connections_lem [] = refl
kill_connections_lem (c ∷ cs) =
    rw (remove_connection-found [] c cs tt, kill_connections_lem cs) refl

-- The end of a server gives back every connection once, in the order of the list, and then the
-- descriptor of the server and the server.
pub kill_socket_server-releases :
    (server : SocketServer)
    → kill_socket_server (some server)
      ≡ release_all server.connections ++ closed server.fd ∷ freed_server ∷ []
kill_socket_server-releases server =
    unfold kill_socket_server in rw (kill_connections_lem server.connections) refl

-- The connection with the buffer that its thread gives it.
abbrev pub buffered : SocketConnection → SocketConnection
buffered c = record c { buffer = some c.buffer_size_limit }

set_buffer-found :
    (xs : List SocketConnection) (c : SocketConnection) (ys : List SocketConnection)
    → IsAbsent c.address xs
    → set_buffer c (xs ++ c ∷ ys) ≡ xs ++ buffered c ∷ ys
unfolding set_buffer
set_buffer-found [] c ys h =
    let same : (c.address == c.address) ≡ true = ground arith in rw same refl
set_buffer-found (x ∷ xs) c ys (ne, h) =
    let other : (x.address == c.address) ≡ false = ground arith in
    rw (other, set_buffer-found xs c ys h) refl

-- The run of a client's thread takes its connection off the list and leaves the others as they were;
-- behind what its rounds receive, the connection is given back, with the buffer it was given.
pub handle_client_lem :
    (rounds : List Round) (xs : List SocketConnection) (c : SocketConnection)
    (ys : List SocketConnection)
    → IsAbsent c.address xs
    → handle_client true rounds c (xs ++ c ∷ ys)
      ≡ (xs ++ ys, client_rounds c.fd rounds ++ release (buffered c))
handle_client_lem rounds xs c ys h =
    unfold handle_client in
    rw (set_buffer-found xs c ys h, remove_connection-found xs (buffered c) ys h) refl
