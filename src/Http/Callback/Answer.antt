-- ===== src/Http/Callback/Answer.antt =====
-- What a client is answered, whatever it sends.
use mathlib.Core.Path.{subst}
use geo_ns_core.Common.{
  ◌⊎◌, ℕ, ◌+◌, ◌≤◌, ◌≡◌, refl, inl, inr, Bool, not, ◌&&◌, List, [], ◌∷◌, Option, none, some, arith,
  get_elem?, Bool-cases, Option-cases,
}
use geo_ns_core.Text.{Text}
use geo_ns_core.Core.StrMap.{StringMap}
use geo_ns_core.Io.{
  System, DirectoryPage, is_file_exist, is_directory_exists, get_file_size, get_mime_type,
  get_directory_entries,
}
use geo_ns_core.Socket.{CallbackResult, failed, success}
use geo_ns_core.Http.Method.{is_standard_http_method}
use geo_ns_core.Http.Response.{status_body, status_bodyless}
use geo_ns_core.Http.Routes.{
  Callback, callback_home, callback_about, callback_test, HttpRoute, HttpServer,
  is_request_method_allowed,
}
use geo_ns_core.Http.Parser.{
  HttpVersion, http_0_9, http_1_0, http_1_1, http_2_0, http_3_0, unknown, HttpConfig, HttpRequest,
  Parsed, undefined, refused, parsed, parse_http_request,
}
use geo_ns_core.Http.Parser.Refused.{parse_http_request-code}
use geo_ns_core.Http.Callback.{
  Action, printed, sent, killed, Handled, undefined_behaviour, handled, page, run_callback,
  fail_with, fail_bodyless, fail_silent, serve_file, serve_listing, serve_path, serve_route,
  serve_found, serve_method, serve_version, serve_parsed, http_server_callback,
  callback_home_actions, callback_about_actions, test_actions, path_in,
}
use geo_ns_core.Http.Parser.Descriptor.{HasFd, parse-HasFd}

-- One response is sent at most, on the connection, and the connection is killed once, behind it. With
-- the answer 0 the response is sent and has the status 200; with -1 its status is an error.
abbrev pub IsAnswer : ℕ → CallbackResult → List Action → Type 0
IsAnswer fd success (sent x response ∷ killed y ∷ []) =
    (x ≡ fd) × (y ≡ fd) × (response.status_code ≡ 200)
IsAnswer fd success (printed text ∷ sent x response ∷ killed y ∷ []) =
    (x ≡ fd) × (y ≡ fd) × (response.status_code ≡ 200)
IsAnswer fd failed (sent x response ∷ killed y ∷ []) =
    (x ≡ fd) × (y ≡ fd) × (400 ≤ response.status_code)
IsAnswer fd failed (killed y ∷ []) = y ≡ fd
IsAnswer _ _ _ = ⊥

abbrev pub IsHandled : ℕ → Handled → Type 0
IsHandled fd undefined_behaviour = Unit
IsHandled fd (handled actions result) = IsAnswer fd result actions

run_callback-IsAnswer :
    (callback : Callback) (fd : ℕ) (params : StringMap)
    → IsAnswer fd success (run_callback callback fd params)
unfolding run_callback callback_home_actions callback_about_actions test_actions page
run_callback-IsAnswer callback_home fd params = (refl, refl, refl)
run_callback-IsAnswer callback_about fd params = (refl, refl, refl)
run_callback-IsAnswer callback_test fd params = (refl, refl, refl)

fail_bodyless-IsHandled : (fd code : ℕ) → 400 ≤ code → IsHandled fd (fail_bodyless fd code)
unfolding fail_bodyless status_bodyless
fail_bodyless-IsHandled fd code h = (refl, refl, h)

serve_route-IsHandled :
    (fd : ℕ) (route : HttpRoute) (method : Text) (params : StringMap)
    → IsHandled fd (serve_route fd route method params)
unfolding serve_route
serve_route-IsHandled fd route method params =
    elim (Bool-cases (is_request_method_allowed route method)) [
      | inl allowed ↦ rw allowed (run_callback-IsAnswer route.callback fd params)
      | inr other ↦ rw other (unfold fail_with status_body in (refl, refl, omega arith))
    ]

serve_file-IsHandled :
    (system : System) (fd : ℕ) (path : Text) → IsHandled fd (serve_file system fd path)
serve_file-IsHandled system fd path = elim (Option-cases (system.content path)) [
  | inl closed ↦ unfold serve_file fail_silent in rw (closed, serve_file) refl
  | inr (bytes, opens) ↦
      elim (Bool-cases (not (system.has_memory (get_file_size system path + 1)))) [
        | inl full ↦ unfold serve_file fail_silent in rw (opens, full, serve_file) refl
        | inr room ↦ elim (Option-cases (get_mime_type system path)) [
          | inl unknown_type ↦ unfold serve_file in rw (opens, room, unknown_type, serve_file) tt
          | inr (mime_type, e) ↦
              unfold serve_file page in rw (opens, room, e, serve_file) (refl, refl, refl)
        ]
      ]
]

serve_listing-IsHandled :
    (fd : ℕ) (entries : DirectoryPage) → IsHandled fd (serve_listing fd entries)
unfolding serve_listing page
serve_listing-IsHandled fd DirectoryPage.undefined = tt
serve_listing-IsHandled fd DirectoryPage.failed =
    unfold fail_with status_body in (refl, refl, omega arith)
serve_listing-IsHandled fd (DirectoryPage.listed body) = (refl, refl, refl)

serve_path-IsHandled :
    (system : System) (config : HttpConfig) (fd : ℕ) (path uri : Text)
    → IsHandled fd (serve_path system config fd path uri)
serve_path-IsHandled system config fd path uri = elim (Bool-cases (is_file_exist system path)) [
  | inl file ↦ unfold serve_path in rw file (serve_file-IsHandled system fd path)
  | inr no_file ↦ elim (Bool-cases config.directory_indexing) [
    | inr forbidden ↦
        unfold serve_path in
        rw (no_file, forbidden) (unfold fail_with status_body in (refl, refl, omega arith))
    | inl indexing ↦ elim (Bool-cases (is_directory_exists system path)) [
      | inl directory ↦
          unfold serve_path in
          rw (no_file, indexing, directory)
            (serve_listing-IsHandled fd (get_directory_entries system path uri))
      | inr no_directory ↦
          unfold serve_path in
          rw (no_file, indexing, no_directory)
            (unfold fail_with status_body in (refl, refl, omega arith))
    ]
  ]
]

serve_index-IsHandled :
    (fd : ℕ) (route : Option HttpRoute) (method : Text) (params : StringMap)
    → IsHandled fd
        (elim route [ none ↦ undefined_behaviour | some r ↦ serve_route fd r method params ])
serve_index-IsHandled fd none method params = tt
serve_index-IsHandled fd (some route) method params = serve_route-IsHandled fd route method params

serve_found-IsHandled :
    (system : System) (config : HttpConfig) (server : HttpServer) (fd : ℕ) (method uri : Text)
    (found : Option (Option ℕ × Option StringMap))
    → IsHandled fd (serve_found system config server fd method uri found)
unfolding serve_found
serve_found-IsHandled system config server fd method uri none = tt
serve_found-IsHandled system config server fd method uri (some (none, params)) =
    serve_path-IsHandled system config fd (path_in server.public_dir uri) uri
serve_found-IsHandled system config server fd method uri (some (some i, none)) = tt
serve_found-IsHandled system config server fd method uri (some (some i, some params)) =
    serve_index-IsHandled fd (get_elem? server.http_routes i) method params

serve_method-IsHandled :
    (system : System) (config : HttpConfig) (server : HttpServer) (request : HttpRequest)
    → IsHandled request.fd (serve_method system config server request)
serve_method-IsHandled system config server request =
    elim (Bool-cases
      (not (is_standard_http_method request.method.name).0 && not config.accept_any_method)) [
        | inl unusual ↦
            unfold serve_method in rw unusual (fail_bodyless-IsHandled request.fd 501 (omega arith))
        | inr usual ↦
            unfold serve_method in
            rw usual (serve_found-IsHandled system config server request.fd _ request.uri _)
      ]

serve_version-IsHandled :
    (system : System) (config : HttpConfig) (server : HttpServer) (request : HttpRequest)
    (version : HttpVersion)
    → IsHandled request.fd (serve_version system config server request version)
unfolding serve_version
serve_version-IsHandled system config server request unknown =
    fail_bodyless-IsHandled request.fd 400 (omega arith)
serve_version-IsHandled system config server request http_2_0 =
    fail_bodyless-IsHandled request.fd 505 (omega arith)
serve_version-IsHandled system config server request http_3_0 =
    fail_bodyless-IsHandled request.fd 505 (omega arith)
serve_version-IsHandled system config server request http_0_9 =
    serve_method-IsHandled system config server request
serve_version-IsHandled system config server request http_1_0 =
    serve_method-IsHandled system config server request
serve_version-IsHandled system config server request http_1_1 =
    serve_method-IsHandled system config server request

error_of_code : (code : ℕ) → (code ≡ 431) ⊎ (code ≡ 413) ⊎ (code ≡ 500) → 400 ≤ code
error_of_code code (inl e) = omega arith
error_of_code code (inr (inl e)) = omega arith
error_of_code code (inr (inr e)) = omega arith

serve_parsed-IsHandled :
    (system : System) (config : HttpConfig) (can_realloc : ℕ → Bool) (server : HttpServer) (fd : ℕ)
    (result : Parsed)
    → HasFd fd result
    → ((code : ℕ) → result ≡ refused code → (code ≡ 431) ⊎ (code ≡ 413) ⊎ (code ≡ 500))
    → IsHandled fd (serve_parsed system config server fd result)
unfolding serve_parsed
serve_parsed-IsHandled system config can_realloc server fd undefined has reason = tt
serve_parsed-IsHandled system config can_realloc server fd (refused code) has reason =
    fail_bodyless-IsHandled fd code (error_of_code code (reason code refl))
serve_parsed-IsHandled system config can_realloc server fd (parsed request received) has reason =
    subst (λ x. IsHandled x (serve_version system config server request request.version)) has
      (serve_version-IsHandled system config server request request.version)

-- Whatever a client sends: unless the code runs into undefined behaviour, the connection is killed
-- once, at the end, and at most one response is sent before, on the same connection. With the answer
-- 0 a response is sent, and its status is 200; with -1 the status of a response is 400 or more.
pub http_server_callback-IsHandled :
    (system : System) (config : HttpConfig) (can_realloc : ℕ → Bool) (server : HttpServer)
    (fd buffer_size : ℕ) (buffer : Text)
    → IsHandled fd (http_server_callback system config can_realloc server fd buffer_size buffer)
unfolding http_server_callback
http_server_callback-IsHandled system config can_realloc server fd buffer_size buffer =
    serve_parsed-IsHandled system config can_realloc server fd
      (parse_http_request config can_realloc fd buffer_size buffer)
      (parse-HasFd config can_realloc fd buffer_size buffer)
      (λ code. parse_http_request-code config can_realloc fd buffer_size buffer code)
