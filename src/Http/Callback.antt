-- ===== src/Http/Callback.antt =====
-- `http_server_callback` of src/libs/http/http.c, and the callbacks of its routes in
-- src/libs/http/routes. What is sent and closed is listed in order. Memory allocation succeeds but
-- where `System` says; a body has fewer than 2 ^ 31 bytes, so that "%d" prints its size.
pub mod Thread
pub mod Answer
pub mod Home
use geo_ns_core.Common.{
  ℕ, suc, ◌+◌, Bool, true, false, not, ◌&&◌, List, [], ◌∷◌, ◌++◌, Option, none, some, if◌then◌else◌,
  length, take, get_elem?,
}
use geo_ns_core.Text.{Text, codes}
use geo_ns_core.Text.Decimal.{decimal}
use geo_ns_core.Core.StrMap.{StringMap, create_string_map, string_map_get}
use geo_ns_core.Io.{
  System, DirectoryPage, is_file_exist, is_directory_exists, get_file_size, get_mime_type,
  get_directory_entries,
}
use geo_ns_core.Socket.{CallbackResult, failed, success}
use geo_ns_core.Http.Method.{is_standard_http_method}
use geo_ns_core.Http.Response.{HttpResponse, set_http_response_header, status_body, status_bodyless}
use geo_ns_core.Http.Routes.{
  Callback, callback_home, callback_about, callback_test, HttpRoute, HttpServer, is_route_exists,
  is_request_method_allowed,
}
use geo_ns_core.Http.Parser.{
  HttpVersion, http_0_9, http_1_0, http_1_1, http_2_0, http_3_0, unknown, HttpConfig, HttpRequest,
  Parsed, undefined, refused, parsed, parse_http_request,
}

-- `printed`: the line that `test` prints. `killed`: the connection of the descriptor is killed.
pub data Action : Type 0 where
  printed : Option Text → Action
  sent : ℕ → HttpResponse → Action
  killed : ℕ → Action

-- The actions and the answer of the callback, or undefined behaviour.
pub data Handled : Type 0 where
  undefined_behaviour : Handled
  handled : List Action → CallbackResult → Handled

abbrev with_header : Option Text → Text → Text → Option Text
with_header headers name value =
    elim (set_http_response_header (some headers) (some name) (some value)).0 [
      | none ↦ none
      | some headers' ↦ headers'
    ]

-- The three headers of a page.
unfoldable pub page_headers : Text → ℕ → Option Text
unfolding set_http_response_header
page_headers content_type size =
    with_header
      (with_header (with_header none (codes "Content-Type") content_type) (codes "Content-Length")
        (decimal size))
      (codes "Connection") (codes "Close")

-- A page of a type: the headers and the body.
unfoldable pub page : Text → List ℕ → HttpResponse
unfolding page_headers status_body
page content_type body =
    status_body 200 body (length body) (some (page_headers content_type (length body)))

abbrev pub home_body : Text
home_body = codes "<h1>Welcome to GeoNS</h1>"

abbrev pub about_body : Text
about_body = codes "<h1>Welcome to about page!</h1>"

unfoldable pub callback_home_actions : ℕ → List Action
unfolding page
callback_home_actions fd = sent fd (page (codes "text/html") home_body) ∷ killed fd ∷ []

unfoldable pub callback_about_actions : ℕ → List Action
unfolding page
callback_about_actions fd = sent fd (page (codes "text/html") about_body) ∷ killed fd ∷ []

-- `test`
unfoldable pub test_actions : ℕ → StringMap → List Action
unfolding callback_about_actions string_map_get
test_actions fd params =
    printed (string_map_get params (codes "username")) ∷ callback_about_actions fd

-- `route->callback(http_request, parameter_map)`
unfoldable pub run_callback : Callback → ℕ → StringMap → List Action
unfolding callback_home_actions test_actions
run_callback callback_home fd params = callback_home_actions fd
run_callback callback_about fd params = callback_about_actions fd
run_callback callback_test fd params = test_actions fd params

-- A status with a body, or without one; then the connection is killed and the answer is -1.
unfoldable pub fail_with : ℕ → ℕ → Text → Handled
unfolding status_body
fail_with fd code body =
    handled (sent fd (status_body code body (length body) none) ∷ killed fd ∷ []) failed

unfoldable pub fail_bodyless : ℕ → ℕ → Handled
unfolding status_bodyless
fail_bodyless fd code = handled (sent fd (status_bodyless code none) ∷ killed fd ∷ []) failed

unfoldable pub fail_silent : ℕ → Handled
fail_silent fd = handled (killed fd ∷ []) failed

abbrev line : Text → Text
line text = text ++ 10 ∷ []

-- The regular file at a path. Where libmagic gives no type, `free` is called on a string literal
-- behind the answer.
unfoldable pub serve_file : System → ℕ → Text → Handled
unfolding page fail_silent
serve_file system fd file_path = elim (system.content file_path) [
  | none ↦ fail_silent fd
  | some bytes ↦
      if not (system.has_memory (get_file_size system file_path + 1))
      then fail_silent fd
      else (elim (get_mime_type system file_path) [
        | none ↦ undefined_behaviour
        | some mime_type ↦ handled (sent fd (page mime_type bytes) ∷ killed fd ∷ []) success
      ])
]

abbrev pub empty_directory : Text
empty_directory = line (codes "No files or directories found.")

-- A listing that has no entry leaves `body` null.
abbrev listing_body : Option Text → Text
listing_body none = empty_directory
listing_body (some body) = body

unfoldable pub serve_listing : ℕ → DirectoryPage → Handled
unfolding page fail_with
serve_listing fd DirectoryPage.undefined = undefined_behaviour
serve_listing fd DirectoryPage.failed = fail_with fd 500 (line (codes "Internal Server Error"))
serve_listing fd (DirectoryPage.listed body) =
    handled (sent fd (page (codes "text/html") (listing_body body)) ∷ killed fd ∷ []) success

-- What the public directory has at a path.
unfoldable pub serve_path : System → HttpConfig → ℕ → Text → Text → Handled
unfolding serve_file serve_listing get_directory_entries
serve_path system config fd file_path uri =
    if is_file_exist system file_path
    then serve_file system fd file_path
    else if config.directory_indexing
    then (if is_directory_exists system file_path
        then serve_listing fd (get_directory_entries system file_path uri)
        else fail_with fd 404 (line (codes "Not found")))
    else fail_with fd 403 (line (codes "Forbidden"))

unfoldable pub serve_route : ℕ → HttpRoute → Text → StringMap → Handled
unfolding run_callback fail_with is_request_method_allowed
serve_route fd route method params =
    if is_request_method_allowed route method
    then handled (run_callback route.callback fd params) success
    else fail_with fd 405 (line (codes "405") ++ codes "Method not allowed")

-- `snprintf(file_path, sizeof(file_path), "%s/%s", public_dir, uri)`, of 1024 bytes.
abbrev pub path_in : Text → Text → Text
path_in public_dir uri = take 1023 (public_dir ++ b'/' ∷ uri)

-- What `is_route_exists` finds; the map is that of the call, which is never null.
unfoldable pub serve_found :
    System
    → HttpConfig
    → HttpServer
    → ℕ
    → Text
    → Text
    → Option (Option ℕ × Option StringMap)
    → Handled
unfolding serve_route serve_path
serve_found system config server fd method uri none = undefined_behaviour
serve_found system config server fd method uri (some (none, params)) =
    serve_path system config fd (path_in server.public_dir uri) uri
serve_found system config server fd method uri (some (some i, none)) = undefined_behaviour
serve_found system config server fd method uri (some (some i, some params)) =
    elim (get_elem? server.http_routes i) [
      | none ↦ undefined_behaviour
      | some route ↦ serve_route fd route method params
    ]

-- The method is tested, and then the route and the public directory.
unfoldable pub serve_method : System → HttpConfig → HttpServer → HttpRequest → Handled
unfolding serve_found is_standard_http_method is_route_exists fail_bodyless create_string_map
serve_method system config server request =
    let (standard, method) = is_standard_http_method request.method.name in
    if not standard && not config.accept_any_method
    then fail_bodyless request.fd 501
    else serve_found system config server request.fd method request.uri
        (is_route_exists server (some request.uri) (some create_string_map))

-- `version == UNKNOWN`, and `version > HTTP_1_1`.
unfoldable pub serve_version :
    System → HttpConfig → HttpServer → HttpRequest → HttpVersion → Handled
unfolding serve_method fail_bodyless
serve_version system config server request unknown = fail_bodyless request.fd 400
serve_version system config server request http_2_0 = fail_bodyless request.fd 505
serve_version system config server request http_3_0 = fail_bodyless request.fd 505
serve_version system config server request http_0_9 = serve_method system config server request
serve_version system config server request http_1_0 = serve_method system config server request
serve_version system config server request http_1_1 = serve_method system config server request

-- What follows the parser.
unfoldable pub serve_parsed : System → HttpConfig → HttpServer → ℕ → Parsed → Handled
unfolding serve_version fail_bodyless
serve_parsed system config server fd undefined = undefined_behaviour
serve_parsed system config server fd (refused code) = fail_bodyless fd code
serve_parsed system config server fd (parsed request received) =
    serve_version system config server request request.version

unfoldable pub http_server_callback :
    System → HttpConfig → (ℕ → Bool) → HttpServer → ℕ → ℕ → Text → Handled
unfolding serve_parsed parse_http_request
http_server_callback system config can_realloc server fd buffer_size buffer =
    serve_parsed system config server fd
      (parse_http_request config can_realloc fd buffer_size buffer)
