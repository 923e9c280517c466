-- ===== src/Socket.antt =====
-- src/libs/socket/socket.c: the connections of a server and what its threads do with them. A pointer
-- is a number, `address`; the linked list is a list. What the system answers (an address, an accepted
-- client, a received size) is given as data; `Effect` is what the program asks of it.
pub mod Removal
pub mod Balance
pub mod Lifecycle
pub mod Opening
pub mod Addresses
pub mod Buffer
pub mod Pointers
mod Tests
use geo_ns_core.Common.{
  ℕ, Bool, true, false, List, [], ◌∷◌, ◌++◌, Option, none, some, ◌==◌, if◌then◌else◌,
}
use geo_ns_core.Text.{Text}

pub data ConnectionStatus : Type 0 where
  not_connected connection_established : ConnectionStatus

pub record PeerInfo : Type 0 where
  pub server_addr : Text
  pub server_port : ℕ
  pub client_addr : Text
  pub client_port : ℕ

-- `buffer` is the size of the buffer, where there is one.
pub record SocketConnection : Type 0 where
  pub address : ℕ
  pub fd : ℕ
  pub peer_info : Option PeerInfo
  pub connection_status : ConnectionStatus
  pub buffer_size_limit : ℕ
  pub buffer : Option ℕ

pub record SocketServer : Type 0 where
  pub fd : ℕ
  pub connections : List SocketConnection
  pub port : ℕ
  pub server_addr : Text
  pub is_alive : Bool
  pub buffer_size_per_client : ℕ

-- `received`: a receive that empties the socket. `freed_server`: the server itself.
pub data Effect : Type 0 where
  closed freed_buffer freed : ℕ → Effect
  received : ℕ → ℕ → Effect
  freed_server : Effect

unfoldable pub add_connection : List SocketConnection → SocketConnection → List SocketConnection
add_connection [] connection = connection ∷ []
add_connection (current ∷ rest) connection = current ∷ add_connection rest connection

abbrev pub close_if : ConnectionStatus → ℕ → List Effect
close_if not_connected fd = []
close_if connection_established fd = closed fd ∷ []

abbrev pub free_buffer : Option ℕ → ℕ → List Effect
free_buffer none address = []
free_buffer (some size) address = freed_buffer address ∷ []

-- What is given back for a connection that is removed.
unfoldable pub release : SocketConnection → List Effect
release c =
    close_if c.connection_status c.fd ++ (free_buffer c.buffer c.address ++ freed c.address ∷ [])

abbrev pub keep_front :
    SocketConnection
    → Option (List SocketConnection × List Effect)
    → Option (List SocketConnection × List Effect)
keep_front current none = none
keep_front current (some (rest, effects)) = some (current ∷ rest, effects)

-- `none` is the answer 0: the connection is not in the list.
unfoldable pub remove_connection :
    List SocketConnection → ℕ → Option (List SocketConnection × List Effect)
unfolding release
remove_connection [] connection = none
remove_connection (current ∷ rest) connection =
    if current.address == connection
    then some (rest, release current)
    else keep_front current (remove_connection rest connection)

-- The list and the effects of a removal whose answer is not looked at.
abbrev pub removed :
    List SocketConnection
    → Option (List SocketConnection × List Effect)
    → List SocketConnection × List Effect
removed connections none = (connections, [])
removed connections (some result) = result

-- The loop of `kill_socket_server`: the connections that it still visits, and the list.
unfoldable pub kill_connections :
    List SocketConnection → List SocketConnection → List SocketConnection × List Effect
unfolding remove_connection
kill_connections [] connections = (connections, [])
kill_connections (current ∷ rest) connections =
    let (left, effects) = removed connections (remove_connection connections current.address) in
    let (left', effects') = kill_connections rest left in (left', effects ++ effects')

-- `none` is a null pointer.
unfoldable pub kill_socket_server : Option SocketServer → List Effect
unfolding kill_connections
kill_socket_server none = []
kill_socket_server (some server) =
    (kill_connections server.connections server.connections).1
    ++ closed server.fd ∷ freed_server ∷ []

-- The answer of a callback: -1, 0 or another number.
pub data CallbackResult : Type 0 where
  failed success other : CallbackResult

-- A round of `handle_client`: what the callback answers, the size that it leaves in `buffer_size`, and
-- the descriptors that it closes itself.
pub record Round : Type 0 where
  pub buffer_size : ℕ
  pub callback_result : CallbackResult
  pub callback_closes : List ℕ

-- The body of the loop: what a callback's answer makes of the rest of the loop.
abbrev pub after_callback : CallbackResult → ℕ → ℕ → List Effect → List Effect
after_callback failed fd buffer_size rest = received fd buffer_size ∷ []
after_callback success fd buffer_size rest = received fd buffer_size ∷ rest
after_callback other fd buffer_size rest = rest

abbrev pub close_all : List ℕ → List Effect → List Effect
close_all [] effects = effects
close_all (fd ∷ fds) effects = closed fd ∷ close_all fds effects

-- The loop of `handle_client`, up to the round whose `recv` gives no byte.
unfoldable pub client_rounds : ℕ → List Round → List Effect
client_rounds fd [] = []
client_rounds fd (round ∷ rounds) =
    close_all round.callback_closes
      (after_callback round.callback_result fd round.buffer_size (client_rounds fd rounds))

-- `connection->buffer = memalloc(...)`
unfoldable pub set_buffer : SocketConnection → List SocketConnection → List SocketConnection
set_buffer connection [] = []
set_buffer connection (current ∷ rest) =
    if current.address == connection.address
    then (record current { buffer = some current.buffer_size_limit }) ∷ rest
    else current ∷ set_buffer connection rest

-- `has_memory`: `memalloc` gives the buffer.
unfoldable pub handle_client :
    Bool
    → List Round
    → SocketConnection
    → List SocketConnection
    → List SocketConnection × List Effect
unfolding client_rounds remove_connection set_buffer
handle_client false rounds connection connections =
    removed connections (remove_connection connections connection.address)
handle_client true rounds connection connections =
    let buffered = set_buffer connection connections in
    let (left, effects) = removed buffered (remove_connection buffered connection.address) in
    (left, client_rounds connection.fd rounds ++ effects)

-- How a round of the accepting thread goes: no memory for the connection; the connection is put at an
-- address and `accept` fails; it is accepted, but there is no memory for the thread's data, or no
-- thread; or the thread starts.
pub data Accept : Type 0 where
  no_memory : Accept
  accept_failed : ℕ → Accept
  no_client_memory : ℕ → ℕ → Accept
  no_thread started : ℕ → ℕ → PeerInfo → Accept

-- The connection as the thread makes it.
abbrev pub new_connection : SocketServer → ℕ → SocketConnection
new_connection server address = record {
  address = address;
  fd = 0;
  peer_info = none;
  connection_status = not_connected;
  buffer_size_limit = server.buffer_size_per_client;
  buffer = none;
}

abbrev pub accepted : SocketServer → ℕ → ℕ → Option PeerInfo → SocketConnection
accepted server address fd peer = record {
  address = address;
  fd = fd;
  peer_info = peer;
  connection_status = connection_established;
  buffer_size_limit = server.buffer_size_per_client;
  buffer = none;
}

abbrev with_connections :
    SocketServer → List SocketConnection × List Effect → SocketServer × List Effect
with_connections server (connections, effects) =
    (record server { connections = connections }, effects)

-- A connection that is put on the list and, since the round fails, off it again.
unfoldable pub drop_connection : SocketServer → SocketConnection → SocketServer × List Effect
unfolding add_connection remove_connection
drop_connection server c =
    let connections = add_connection server.connections c in
    with_connections server (removed connections (remove_connection connections c.address))

-- The body of the loop of `server_socket_thread`.
unfoldable pub accept_round : SocketServer → Accept → SocketServer × List Effect
unfolding drop_connection
accept_round server no_memory = (record server { is_alive = false }, [])
accept_round server (accept_failed address) = drop_connection server (new_connection server address)
accept_round server (no_client_memory address fd) =
    drop_connection server (accepted server address fd none)
accept_round server (no_thread address fd peer) =
    drop_connection server (accepted server address fd (some peer))
accept_round server (started address fd peer) = (
  record server {
    connections = add_connection server.connections (accepted server address fd (some peer));
  },
  [],
)

-- What the threads do, one after another: the accepting thread a round, or a client's thread its run.
pub data Event : Type 0 where
  accepting : Accept → Event
  handling : Bool → List Round → SocketConnection → Event

unfoldable pub run_event : SocketServer → Event → SocketServer × List Effect
unfolding accept_round handle_client
run_event server (accepting accept) = accept_round server accept
run_event server (handling has_memory rounds connection) =
    with_connections server (handle_client has_memory rounds connection server.connections)

-- The test of the loop of `server_socket_thread`: it goes on, or the thread ends the server.
unfoldable pub while_alive :
    SocketServer → Option SocketServer × List Effect → Option SocketServer × List Effect
unfolding kill_socket_server
while_alive server next = elim server.is_alive [
  | true ↦ next
  | false ↦ (none, kill_socket_server (some server))
]

-- Events while the server is alive, and the end that `server_socket_thread` makes of it.
unfoldable pub run_server : SocketServer → List Event → Option SocketServer × List Effect
unfolding run_event while_alive
run_server server [] = while_alive server (some server, [])
run_server server (event ∷ events) =
    let (server', effects) = run_event server event in
    let (end, effects') = run_server server' events in while_alive server (end, effects ++ effects')
