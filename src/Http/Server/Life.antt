-- ===== src/Http/Server/Life.antt =====
-- A web server from its creation to its end.
use geo_ns_core.Common.{
  ℕ, ◌<◌, ◌≡◌, refl, ◌∙◌, Bool, true, false, [], ◌∷◌, Option, some, arith, leb, length,
}
use geo_ns_core.Text.{Text}
use geo_ns_core.Io.{System, is_directory_exists}
use geo_ns_core.Socket.Balance.{closes}
use geo_ns_core.Socket.Lifecycle.{closes-kill_socket_server}
use geo_ns_core.Socket.Opening.{
  Opened, opened, without_socket, null, accounted, obtained, open_server-accounted,
}
use geo_ns_core.Db.Connection.{max_sys_path_length}
use geo_ns_core.Http.Server.{
  Created, undefined, not_created, created, base_http_request_size, public_dir_path, with_socket,
  create_in, create_http_server, kill_http_server,
}

-- A server that is created has no route yet, receives the size of a request, and its public directory
-- exists. It holds the descriptor `fd`; where there is no server the descriptor is closed.
abbrev pub IsCreated : System → ℕ → ℕ → Created → Type 0
IsCreated system x n undefined = Unit
IsCreated system x n (not_created effects) = closes x effects ≡ n
IsCreated system x n (created server) =
    (server.http.http_routes ≡ [])
    × (server.socket_server.buffer_size_per_client ≡ base_http_request_size)
    × (is_directory_exists system server.http.public_dir ≡ true)
    × (closes x (kill_http_server (some server)).1 ≡ n)

with_socket-IsCreated :
    (system : System) (x n : ℕ) (path : Text) (o : Opened)
    → is_directory_exists system path ≡ true
    → accounted x o ≡ n
    → IsCreated system x n (with_socket path o)
unfolding kill_http_server
with_socket-IsCreated system x n path (opened server) exists e = (
  refl,
  refl,
  exists,
  closes-kill_socket_server x (record server { buffer_size_per_client = base_http_request_size })
      ∙ e,
)
with_socket-IsCreated system x n path without_socket exists e = tt
with_socket-IsCreated system x n path (null effects) exists e = e

-- With memory and a public directory that exists and whose path fits its buffer: a server that is
-- created has an empty table of routes and the buffer of a request, serves that directory, and its end
-- closes the descriptor that `socket` gave, once; where none is created the descriptor is closed already.
pub create_http_server-IsCreated :
    (system : System) (cwd : Text) (x : ℕ) (socket : Option ℕ) (valid bound listening : Bool)
    (server_addr : Text) (port c : ℕ) (public_dir : Text)
    → length (public_dir_path cwd (c ∷ public_dir)) < max_sys_path_length
    → is_directory_exists system (public_dir_path cwd (c ∷ public_dir)) ≡ true
    → IsCreated system x (obtained x socket) (
        create_http_server system cwd true
          (record {
            has_memory = true;
            socket = socket;
            address_valid = valid;
            bound = bound;
            listening = listening;
          })
          server_addr
          port
          (some (c ∷ public_dir)))
create_http_server-IsCreated system cwd x socket valid bound listening server_addr port c public_dir
      short exists =
    let fits : leb max_sys_path_length (length (public_dir_path cwd (c ∷ public_dir))) ≡ false =
      ground arith in
    unfold create_http_server in
    unfold create_in in
    rw (fits, exists)
      (with_socket-IsCreated system x (obtained x socket) (public_dir_path cwd (c ∷ public_dir)) _
        exists (open_server-accounted x socket valid bound listening server_addr port))
