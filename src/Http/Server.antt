-- ===== src/Http/Server.antt =====
-- `create_http_server`, `free_route` and `kill_http_server` of src/libs/http/http.c, and `get_cwd_path`
-- of src/libs/io/io.c.
pub mod Life
mod Tests
use geo_ns_core.Common.{
  ℕ, ◌-◌, Bool, true, false, not, List, [], ◌∷◌, ◌++◌, Option, none, some, leb, if◌then◌else◌,
  length, take,
}
use geo_ns_core.Text.{Text, codes}
use geo_ns_core.Io.{System, is_absolute_path, is_directory_exists}
use geo_ns_core.Socket.{SocketServer, Effect, kill_socket_server}
use geo_ns_core.Socket.Opening.{Answers, Opened, opened, without_socket, null, open_server_socket}
use geo_ns_core.Db.Connection.{max_sys_path_length}
use geo_ns_core.Http.Routes.{RouteSegment, HttpRoute, HttpServer}

-- A server of the program with the server of its socket.
pub record WebServer : Type 0 where
  pub http : HttpServer
  pub socket_server : SocketServer

-- Undefined behaviour, a null pointer and what was given back before it, or a server.
pub data Created : Type 0 where
  undefined : Created
  not_created : List Effect → Created
  created : WebServer → Created

abbrev pub base_http_request_size : ℕ
base_http_request_size = 4095

unfoldable pub get_cwd_path : Text → ℕ → Text
get_cwd_path cwd size_of_file_path = take (size_of_file_path - 1) cwd

-- The public directory: a path that is not absolute stands in the directory of the program.
unfoldable pub public_dir_path : Text → Text → Text
unfolding is_absolute_path get_cwd_path
public_dir_path cwd public_dir =
    if is_absolute_path (some public_dir)
    then public_dir
    else get_cwd_path cwd max_sys_path_length ++ public_dir

abbrev pub with_socket : Text → Opened → Created
with_socket path (opened server) = created (record {
  http = record { public_dir = path; http_routes = [] };
  socket_server = record server { buffer_size_per_client = base_http_request_size };
})
with_socket path without_socket = undefined
with_socket path (null effects) = not_created effects

-- The public directory is neither a null pointer nor empty. Its path is put together in 1024 bytes with
-- no test of its length.
unfoldable pub create_in : System → Text → Answers → Text → ℕ → Text → Created
unfolding public_dir_path open_server_socket is_directory_exists
create_in system cwd answers server_addr port public_dir =
    let path = public_dir_path cwd public_dir in
    if leb max_sys_path_length (length path)
    then undefined
    else if not (is_directory_exists system path)
    then not_created []
    else with_socket path (open_server_socket answers server_addr port)

-- `has_memory`: for the server and for the copy of the path.
unfoldable pub create_http_server :
    System → Text → Bool → Answers → Text → ℕ → Option Text → Created
unfolding create_in
create_http_server system cwd has_memory answers server_addr port none = not_created []
create_http_server system cwd has_memory answers server_addr port (some []) = not_created []
create_http_server system cwd false answers server_addr port (some (c ∷ public_dir)) =
    if leb max_sys_path_length (length (public_dir_path cwd (c ∷ public_dir)))
    then undefined
    else not_created []
create_http_server system cwd true answers server_addr port (some (c ∷ public_dir)) =
    create_in system cwd answers server_addr port (c ∷ public_dir)

-- What is freed of a route.
pub data Freed : Type 0 where
  freed_value : Text → Freed
  freed_segment : Freed
  freed_method : Text → Freed

abbrev pub free_segments : List RouteSegment → List Freed
free_segments [] = []
free_segments (segment ∷ segments) =
    freed_value segment.value ∷ freed_segment ∷ free_segments segments

unfoldable pub free_route : HttpRoute → List Freed
free_route route = free_segments route.segment ++ freed_method route.method ∷ []

unfoldable pub free_routes : List HttpRoute → List Freed
unfolding free_route
free_routes [] = []
free_routes (route ∷ routes) = free_route route ++ free_routes routes

-- `none` is a null pointer.
unfoldable pub kill_http_server : Option WebServer → List Freed × List Effect
unfolding free_routes kill_socket_server
kill_http_server none = ([], [])
kill_http_server (some server) =
    (free_routes server.http.http_routes, kill_socket_server (some server.socket_server))
