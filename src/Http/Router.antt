-- ===== src/Http/Router.antt =====
-- src/libs/http/routes/router.c and router.h: the registration of the program's routes.
pub mod Table
use geo_ns_core.Common.{ℕ, Option, none, some}
use geo_ns_core.Text.{Text, codes}
use geo_ns_core.Http.Routes.{
  Callback, callback_home, callback_about, callback_test, HttpServer, set_http_route,
}

-- The functions named by a method. Their result is that of `set_http_route`, which they drop.
abbrev registered : HttpServer → Text → Text → Callback → Option HttpServer
registered server method route callback =
    (set_http_route (some server) (some method) (some route) (some callback)).0

unfoldable pub get : HttpServer → Text → Callback → Option HttpServer
get server route callback = registered server (codes "GET") route callback

unfoldable pub post : HttpServer → Text → Callback → Option HttpServer
post server route callback = registered server (codes "POST") route callback

unfoldable pub put : HttpServer → Text → Callback → Option HttpServer
put server route callback = registered server (codes "PUT") route callback

unfoldable pub patch : HttpServer → Text → Callback → Option HttpServer
patch server route callback = registered server (codes "PATCH") route callback

unfoldable pub delete : HttpServer → Text → Callback → Option HttpServer
delete server route callback = registered server (codes "DELETE") route callback

unfoldable pub head : HttpServer → Text → Callback → Option HttpServer
head server route callback = registered server (codes "HEAD") route callback

unfoldable pub options : HttpServer → Text → Callback → Option HttpServer
options server route callback = registered server (codes "OPTIONS") route callback

unfoldable pub route : HttpServer → Text → Text → Callback → Option HttpServer
route server method path callback = registered server method path callback

infixl 5 ◌>>=◌
abbrev ◌>>=◌ : Option HttpServer → (HttpServer → Option HttpServer) → Option HttpServer
none >>= f = none
some server >>= f = f server

unfoldable pub setup_geons_http_router : Option HttpServer → Option HttpServer
unfolding get route
setup_geons_http_router none = none
setup_geons_http_router (some server) = do
  with_home ← route server (codes "GET|POST") (codes "/") callback_home
  with_about ← get with_home (codes "/about") callback_about
  get with_about (codes "/users/{username}") callback_test
