-- ===== src/Http/Callback/Home.antt =====
-- From the bytes of a request to the page: parser, routes, callback and response together.
use mathlib.Core.Path.{subst}
use geo_ns_core.Common.{ℕ, ◌≡◌, refl, ◌∙◌, ap, sym, Bool, false, List, [], ◌∷◌, some}
use geo_ns_core.Text.{Text, codes, strn_eq, find}
use geo_ns_core.Io.{System}
use geo_ns_core.Socket.{success}
use geo_ns_core.Http.Method.{is_body_required, is_standard_http_method}
use geo_ns_core.Http.Routes.{HttpServer, is_route_exists, is_request_method_allowed}
use geo_ns_core.Http.Router.{setup_geons_http_router}
use geo_ns_core.Http.Router.Table.{empty_server, web_server, setup_table}
use geo_ns_core.Http.Parser.{HttpConfig, http_1_1}
use geo_ns_core.Http.Parser.Format.{request_text}
use geo_ns_core.Http.Parser.Parts.{IsRequest}
use geo_ns_core.Http.Parser.RoundTrip.{parse_http_request-bodiless}
use geo_ns_core.Http.Callback.{
  handled, sent, killed, page, home_body, http_server_callback, serve_parsed, serve_version,
  serve_method, serve_found, serve_route, run_callback, callback_home_actions,
}

get_bodiless : (is_body_required (codes "GET")).0 ≡ false
unfolding is_body_required strn_eq
get_bodiless = refl

home_table :
    (system : System) (config : HttpConfig) (can_realloc : ℕ → Bool) (public_dir : Text)
    (fd buffer_size : ℕ) (fields : List (Text × Text)) (body : Text)
    → IsRequest (codes "GET") (codes "/") http_1_1 fields
    → http_server_callback system config can_realloc
        (web_server public_dir)
        fd
        buffer_size
        (request_text (codes "GET") (codes "/") http_1_1 fields body)
      ≡ handled (sent fd (page (codes "text/html") home_body) ∷ killed fd ∷ []) success
home_table system config can_realloc public_dir fd buffer_size fields body r =
    unfold http_server_callback in
    ap (serve_parsed system config (web_server public_dir) fd) (
      parse_http_request-bodiless config can_realloc (codes "GET") (codes "/") http_1_1 fd
        buffer_size fields body r get_bodiless)
    ∙ unfold serve_parsed serve_version serve_method serve_found serve_route run_callback
        callback_home_actions is_standard_http_method is_body_required is_route_exists
        is_request_method_allowed strn_eq find in
      refl

-- A server with the program's routes answers a GET of "/", written out as HTTP asks with header lines
-- that fit, with the home page and the status 200, and kills the connection, whatever its fields, its
-- body, the configuration and the public directory are.
pub http_server_callback-home :
    (system : System) (config : HttpConfig) (can_realloc : ℕ → Bool) (public_dir : Text)
    (server : HttpServer) (fd buffer_size : ℕ) (fields : List (Text × Text)) (body : Text)
    → setup_geons_http_router (some (empty_server public_dir)) ≡ some server
    → IsRequest (codes "GET") (codes "/") http_1_1 fields
    → http_server_callback system config can_realloc server fd buffer_size
        (request_text (codes "GET") (codes "/") http_1_1 fields body)
      ≡ handled (sent fd (page (codes "text/html") home_body) ∷ killed fd ∷ []) success
http_server_callback-home system config can_realloc public_dir server fd buffer_size fields body h
      r =
    let table : some (web_server public_dir) ≡ some server = sym (setup_table public_dir) ∙ h in
    let same : web_server public_dir ≡ server = cc in
    subst
      (λ s.
        http_server_callback system config can_realloc s fd buffer_size
          (request_text (codes "GET") (codes "/") http_1_1 fields body)
        ≡ handled (sent fd (page (codes "text/html") home_body) ∷ killed fd ∷ []) success)
      same (home_table system config can_realloc public_dir fd buffer_size fields body r)
