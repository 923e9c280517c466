-- ===== src/Http/Routes/Tests.antt =====
-- The theorems on routes at concrete servers and requests.
use geo_ns_core.Common.{
  ℕ, zero, suc, ◌≡◌, ◌↔◌, ◌<◌, length, refl, inl, inr, true, [], ◌∷◌, Option, none, some, map,
  arith,
}
use geo_ns_core.Text.{Text, codes, strn_eq, strtok}
use geo_ns_core.Text.Tokens.{join}
use geo_ns_core.Core.StrMap.{StringMap, create_string_map}
use geo_ns_core.Http.Routes.{
  HttpRoute, HttpServer, callback_home, callback_about, callback_test, set_http_route,
  is_route_exists, root_route, store_segments,
}
use geo_ns_core.Http.Routes.Select.{Selects, is_route_exists-Selects, is_route_exists-overrun_iff}
use geo_ns_core.Http.Routes.Params.{Captures, is_route_exists-Captures}
use geo_ns_core.Http.Routes.Register.{IsServer}
use geo_ns_core.Http.Routes.RoundTrip.{set_http_route-is_route_exists}
use geo_ns_core.Http.Router.{setup_geons_http_router}
use geo_ns_core.Http.Router.Table.{empty_server, Answers, setup_geons_http_router-Answers}

abbrev server : HttpServer
server = record {
  public_dir = codes "/www";
  http_routes = root_route (codes "GET") callback_home ∷ [];
}

server-IsServer : IsServer server
server-IsServer = record { bounded = omega arith; routes = (inl (refl, refl), tt) }

is_route_exists-Selects_example :
    (found : Option ℕ) × (params' : StringMap) × (is_route_exists server
        (some (codes "/a"))
        (some create_string_map)
      ≡ some (found, some params'))
    × Selects server.http_routes (strtok b'/' (codes "/a")) 0 found
unfolding strtok
is_route_exists-Selects_example =
    is_route_exists-Selects server (codes "/a") create_string_map server-IsServer.routes
      (omega arith)

set_http_route-is_route_exists_example :
    (server' : HttpServer) × (params' : StringMap) × (set_http_route
        (some server)
        (some (codes "GET"))
        (some (join b'/' (codes "a" ∷ [])))
        (some callback_about)
      ≡ (some server', 1))
    × (is_route_exists server' (some (join b'/' (codes "a" ∷ []))) (some create_string_map)
        ≡ some (some 1, some params'))
set_http_route-is_route_exists_example =
    set_http_route-is_route_exists server (codes "GET") callback_about (codes "a" ∷ [])
      (codes "a" ∷ []) create_string_map server-IsServer (omega arith)
      (((λ e. cc), omega arith), tt) (((λ e. cc), omega arith), tt) (λ e. cc) (omega arith)
      (inr refl, tt) ((λ a. a), tt)

setup_geons_http_router-Answers_example :
    (server : HttpServer) × (found : Option ℕ) × (params' : StringMap) × (setup_geons_http_router
        (some (empty_server (codes "/www")))
      ≡ some server)
    × (map (λ (r : HttpRoute). r.callback) server.http_routes
        ≡ callback_home ∷ callback_about ∷ callback_test ∷ [])
    × (is_route_exists server (some (codes "/about")) (some create_string_map)
        ≡ some (found, some params'))
    × Answers (strtok b'/' (codes "/about")) found
unfolding strtok
setup_geons_http_router-Answers_example =
    setup_geons_http_router-Answers (codes "/www") (codes "/about") create_string_map (omega arith)

abbrev named : HttpRoute
named = record {
  segment = record { value = codes "n"; is_parametric = true } ∷ [];
  segment_size = 1;
  callback = callback_test;
  method = codes "GET";
}

abbrev named_server : HttpServer
named_server = record { public_dir = codes "/www"; http_routes = named ∷ [] }

abbrev bound : StringMap
bound = record { nodes = record { key = codes "n"; value = codes "v" } ∷ []; size = 1 }

is_route_exists-Captures_example : Captures named.segment (codes "v" ∷ []) bound
unfolding strtok is_route_exists create_string_map strn_eq store_segments
is_route_exists-Captures_example =
    is_route_exists-Captures named_server (codes "/v") create_string_map bound 0 named refl refl
      ((λ p. tt), tt)

-- "/a" as often as said.
abbrev many : ℕ → Text
many zero = []
many (suc n) = b'/' ∷ b'a' ∷ many n

is_route_exists-overrun_iff_example :
    (is_route_exists server (some (many 129)) (some create_string_map) ≡ none)
    ↔ (128 < length (strtok b'/' (many 129)))
unfolding strtok
is_route_exists-overrun_iff_example =
    is_route_exists-overrun_iff server (many 129) create_string_map server-IsServer.routes
