-- ===== src/Socket/Opening.antt =====
-- `open_server_socket`, `connect_to_socket_server` and `handle_server_socket` of
-- src/libs/socket/socket.c, by what the system answers to their calls. A descriptor -1 is `none`, and
-- closing it does nothing.
use geo_ns_core.Common.{
  ℕ, zero, suc, ◌≡◌, refl, Bool, true, false, List, [], ◌∷◌, Option, none, some, arith,
  if◌then◌else◌, not, ◌&&◌,
}
use geo_ns_core.Text.{Text}
use geo_ns_core.Socket.{SocketServer, Effect, freed_server, kill_socket_server}
use geo_ns_core.Socket.Balance.{one, closes}
use geo_ns_core.Socket.Lifecycle.{still_held, closes-kill_socket_server}

-- `reached`: `inet_pton` reads the address, and the calls behind it succeed: `bind` and `listen` for a
-- server, `connect` for a client.
pub record Answers : Type 0 where
  pub has_memory : Bool
  pub socket : Option ℕ
  pub address_valid : Bool
  pub bound : Bool
  pub listening : Bool

abbrev pub base_socket_buffer_size : ℕ
base_socket_buffer_size = 1024

-- The server while it is being opened.
abbrev pub opening : ℕ → Text → ℕ → SocketServer
opening fd server_addr port = record {
  fd = fd;
  connections = [];
  port = port;
  server_addr = server_addr;
  is_alive = false;
  buffer_size_per_client = base_socket_buffer_size;
}

-- What a call gives: a server, a server on the descriptor -1, or a null pointer.
pub data Opened : Type 0 where
  opened : SocketServer → Opened
  without_socket : Opened
  null : List Effect → Opened

-- The calls on a descriptor: the first that fails kills the server.
unfoldable pub open_on : SocketServer → Bool → Bool → Bool → Opened
unfolding kill_socket_server
open_on server address_valid bound listening =
    if address_valid && bound && listening
    then opened server
    else null (kill_socket_server (some server))

-- The same on the descriptor -1.
abbrev open_without : Bool → Opened
open_without all_succeed = if all_succeed then without_socket else null (freed_server ∷ [])

-- The test of `socket` is for 0, not for a negative number: -1 goes on.
unfoldable pub open_server_socket : Answers → Text → ℕ → Opened
unfolding open_on kill_socket_server
open_server_socket answers server_addr port =
    if not answers.has_memory then null [] else (elim answers.socket [
      | none ↦ open_without (answers.address_valid && answers.bound && answers.listening)
      | some zero ↦ null (kill_socket_server (some (opening 0 server_addr port)))
      | some (suc fd) ↦
          open_on (opening (suc fd) server_addr port) answers.address_valid answers.bound
            answers.listening
    ])

-- A client: `bound` is the answer of `connect`. `buffer_size_per_client` is not set.
unfoldable pub connect_to_socket_server : Answers → Text → ℕ → Opened
unfolding open_on
connect_to_socket_server answers server_addr port =
    if not answers.has_memory then null [] else (elim answers.socket [
      | none ↦ null (freed_server ∷ [])
      | some fd ↦
          open_on (record (opening fd server_addr port) { buffer_size_per_client = 0 })
            answers.address_valid answers.bound true
    ])

-- The server as its thread starts, or what is given back before the program exits.
unfoldable pub handle_server_socket : Bool → SocketServer → Opened
unfolding kill_socket_server
handle_server_socket has_thread server =
    let alive = record server { is_alive = true } in
    if has_thread then opened alive else null (kill_socket_server (some alive))

-- The descriptor of a server that is opened, or the descriptors that are closed.
abbrev pub accounted : ℕ → Opened → ℕ
accounted x (opened server) = still_held x (some server)
accounted x without_socket = 0
accounted x (null effects) = closes x effects

abbrev pub obtained : ℕ → Option ℕ → ℕ
obtained x none = 0
obtained x (some fd) = one x fd

open_on-accounted :
    (x : ℕ) (server : SocketServer) (address_valid bound listening : Bool)
    → accounted x (open_on server address_valid bound listening) ≡ still_held x (some server)
unfolding open_on
open_on-accounted x server true true true = refl
open_on-accounted x server true true false = closes-kill_socket_server x server
open_on-accounted x server true false listening = closes-kill_socket_server x server
open_on-accounted x server false bound listening = closes-kill_socket_server x server

pub open_server-accounted :
    (x : ℕ) (socket : Option ℕ) (valid bound listening : Bool) (server_addr : Text) (port : ℕ)
    → accounted x (
        open_server_socket
          (record {
            has_memory = true;
            socket = socket;
            address_valid = valid;
            bound = bound;
            listening = listening;
          })
          server_addr
          port)
      ≡ obtained x socket
unfolding open_server_socket
open_server-accounted x none true true true server_addr port = refl
open_server-accounted x none true true false server_addr port = refl
open_server-accounted x none true false listening server_addr port = refl
open_server-accounted x none false bound listening server_addr port = refl
open_server-accounted x (some zero) valid bound listening server_addr port =
    omega (arith, closes-kill_socket_server x (opening 0 server_addr port))
open_server-accounted x (some (suc fd)) valid bound listening server_addr port =
    omega (arith, open_on-accounted x (opening (suc fd) server_addr port) valid bound listening)

pub connect-accounted :
    (x : ℕ) (socket : Option ℕ) (valid bound listening : Bool) (server_addr : Text) (port : ℕ)
    → accounted x (
        connect_to_socket_server
          (record {
            has_memory = true;
            socket = socket;
            address_valid = valid;
            bound = bound;
            listening = listening;
          })
          server_addr
          port)
      ≡ obtained x socket
unfolding connect_to_socket_server
connect-accounted x none valid bound listening server_addr port = refl
connect-accounted x (some fd) valid bound listening server_addr port = omega (
  arith,
  open_on-accounted x (record (opening fd server_addr port) { buffer_size_per_client = 0 }) valid
      bound true,
)

-- Whichever call fails, opening a server and connecting to one lose no descriptor: the one that
-- `socket` gives is held by the server that is returned, or it is closed once.
open_server_socket-accounted :
    (x : ℕ) (socket : Option ℕ) (valid bound listening : Bool) (server_addr : Text) (port : ℕ)
    → (accounted x (
          open_server_socket
            (record {
              has_memory = true;
              socket = socket;
              address_valid = valid;
              bound = bound;
              listening = listening;
            })
            server_addr
            port)
        ≡ obtained x socket)
      × (accounted x (
            connect_to_socket_server
              (record {
                has_memory = true;
                socket = socket;
                address_valid = valid;
                bound = bound;
                listening = listening;
              })
              server_addr
              port)
          ≡ obtained x socket)
open_server_socket-accounted x socket valid bound listening server_addr port = (
  open_server-accounted x socket valid bound listening server_addr port,
  connect-accounted x socket valid bound listening server_addr port,
)
