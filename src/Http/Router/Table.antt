-- ===== src/Http/Router/Table.antt =====
-- The table of routes that `setup_geons_http_router` builds, and what a request finds in it.
use geo_ns_core.Common.{
  map, ℕ, ◌≤◌, ◌≡◌, ◌≢◌, refl, ◌∙◌, ap, ◌⊎◌, inl, inr, true, false, List, [], ◌∷◌, Option, none,
  some, arith, length, All,
}
use geo_ns_core.Text.{Text, codes, strtok, strn_eq}
use geo_ns_core.Text.Tokens.{IsToken, join, strtok-join}
use geo_ns_core.Core.StrMap.{StringMap, string_map_get}
use geo_ns_core.Http.Routes.{
  RouteSegment, HttpRoute, HttpServer, callback_home, callback_about, callback_test,
  max_req_segments, root_route, set_http_route, segment_of, is_route_exists,
}
use geo_ns_core.Http.Routes.Match.{IsRoute}
use geo_ns_core.Http.Routes.Select.{Selects, is_route_exists-Selects}
use geo_ns_core.Http.Routes.Params.{is_route_exists-Captures}
use geo_ns_core.Http.Router.{setup_geons_http_router}

abbrev fixed : Text → RouteSegment
fixed value = record { value = value; is_parametric = false }

abbrev pub web_routes : List HttpRoute
web_routes =
    root_route (codes "GET|POST") callback_home
    ∷ record {
      segment = fixed (codes "about") ∷ [];
      segment_size = 1;
      callback = callback_about;
      method = codes "GET";
    }
    ∷ record {
      segment =
          fixed (codes "users") ∷ record { value = codes "username"; is_parametric = true } ∷ [];
      segment_size = 2;
      callback = callback_test;
      method = codes "GET";
    }
    ∷ []

abbrev pub empty_server : Text → HttpServer
empty_server public_dir = record { public_dir = public_dir; http_routes = [] }

abbrev pub web_server : Text → HttpServer
web_server public_dir = record { public_dir = public_dir; http_routes = web_routes }

pub setup_table :
    (public_dir : Text)
    → setup_geons_http_router (some (empty_server public_dir)) ≡ some (web_server public_dir)
unfolding setup_geons_http_router set_http_route segment_of strtok strn_eq
setup_table public_dir = refl

-- The segments that a request may have, and the index of the route that answers it.
abbrev pub Answers : List Text → Option ℕ → Type 0
Answers parts none =
    (parts ≢ [])
    × (parts ≢ codes "about" ∷ [])
    × ((name : Text) → parts ≢ codes "users" ∷ name ∷ [])
Answers parts (some i) =
    ((i ≡ 0) × (parts ≡ []))
    ⊎ ((i ≡ 1) × (parts ≡ codes "about" ∷ []))
    ⊎ ((i ≡ 2) × ((name : Text) × (parts ≡ codes "users" ∷ name ∷ [])))

Selects-Answers :
    (parts : List Text) (found : Option ℕ) → Selects web_routes parts 0 found → Answers parts found
Selects-Answers [] found (inl (_, e)) = rw e (inl (refl, refl))
Selects-Answers [] found (inr (n, _)) = absurd (n tt)
Selects-Answers (p ∷ []) found (inl (a, _)) = absurd a
Selects-Answers (p ∷ []) found (inr (_, inl ((inl literal, _), e))) = cc
Selects-Answers (p ∷ []) found (inr (_, inl ((inr about, _), e))) = rw e (inr (inl (refl, cc)))
Selects-Answers (p ∷ []) found (inr (_, inr (n, inl (a, _)))) = absurd a.1
Selects-Answers (p ∷ []) found (inr (_, inr (n, inr (_, e)))) =
    rw e ((λ h. cc), (λ h. n (inr (ground arith), tt)), (λ name h. cc))
Selects-Answers (p ∷ q ∷ []) found (inl (a, _)) = absurd a
Selects-Answers (p ∷ q ∷ []) found (inr (_, inl (a, _))) = absurd a.1
Selects-Answers (p ∷ q ∷ []) found (inr (_, inr (_, inl ((inl literal, _), e)))) = cc
Selects-Answers (p ∷ q ∷ []) found (inr (_, inr (_, inl ((inr users, _), e)))) =
    rw e (inr (inr (refl, (q, cc))))
Selects-Answers (p ∷ q ∷ []) found (inr (_, inr (_, inr (n, e)))) =
    rw e ((λ h. cc), (λ h. cc), (λ name h. n (inr (ground arith), (inl refl, tt))))
Selects-Answers (p ∷ q ∷ r ∷ ps) found (inl (a, _)) = absurd a
Selects-Answers (p ∷ q ∷ r ∷ ps) found (inr (_, inl (a, _))) = absurd a.1
Selects-Answers (p ∷ q ∷ r ∷ ps) found (inr (_, inr (_, inl (a, _)))) = absurd a.1.1
Selects-Answers (p ∷ q ∷ r ∷ ps) found (inr (_, inr (_, inr (_, e)))) =
    rw e ((λ h. cc), (λ h. cc), (λ name h. cc))

web_routes-IsRoute : All IsRoute web_routes
web_routes-IsRoute = (inl (refl, refl), (inr (omega arith, refl), (inr (omega arith, refl), tt)))

-- On a server with no route, the setup registers the three routes of the program. A request with at
-- most 128 segments then finds the home page exactly when it has no segment, the about page for
-- "about", the test page for "users" and any name, and nothing otherwise.
pub setup_geons_http_router-Answers :
    (public_dir uri : Text) (params : StringMap)
    → length (strtok b'/' uri) ≤ max_req_segments
    → (server : HttpServer) × (found : Option ℕ) × (params' : StringMap) × (setup_geons_http_router
          (some (empty_server public_dir))
        ≡ some server)
      × (map (λ (r : HttpRoute). r.callback) server.http_routes
          ≡ callback_home ∷ callback_about ∷ callback_test ∷ [])
      × (is_route_exists server (some uri) (some params) ≡ some (found, some params'))
      × Answers (strtok b'/' uri) found
setup_geons_http_router-Answers public_dir uri params b =
    let (found, params', e, s) =
      is_route_exists-Selects (web_server public_dir) uri params web_routes-IsRoute b in
    (
      web_server public_dir,
      found,
      params',
      setup_table public_dir,
      refl,
      e,
      Selects-Answers (strtok b'/' uri) found s,
    )

abbrev user_path : Text → List Text
user_path name = codes "users" ∷ name ∷ []

Answers-user : (name : Text) (found : Option ℕ) → Answers (user_path name) found → found ≡ some 2
Answers-user name none (_, _, n) = absurd (n name refl)
Answers-user name (some i) (inl (_, e)) = cc
Answers-user name (some i) (inr (inl (_, e))) = cc
Answers-user name (some i) (inr (inr (e, _))) = cc

user_path-IsToken : (name : Text) → IsToken b'/' name → All (IsToken b'/') (user_path name)
user_path-IsToken name t = (((λ e. cc), omega arith), (t, tt))

-- A request for "/users/NAME", where NAME is not empty and has no slash, finds the user page, and its
-- parameter "username" is NAME.
user_page_parameter :
    (public_dir name : Text) (params : StringMap)
    → IsToken b'/' name
    → (server : HttpServer) × (params' : StringMap) × (setup_geons_http_router
          (some (empty_server public_dir))
        ≡ some server)
      × (is_route_exists server (some (join b'/' (codes "users" ∷ name ∷ []))) (some params)
          ≡ some (some 2, some params'))
      × (string_map_get params' (codes "username") ≡ some name)
user_page_parameter public_dir name params t =
    let server = web_server public_dir in
    let uri = join b'/' (user_path name) in
    let split = strtok-join b'/' (user_path name) (user_path-IsToken name t) in
    let (found, params', e, s) =
      is_route_exists-Selects server uri params web_routes-IsRoute (rw split (omega arith)) in
    let two = Answers-user name found (Selects-Answers (user_path name) found (rw split at s)) in
    let e' : is_route_exists server (some uri) (some params) ≡ some (some 2, some params') =
      e ∙ ap (λ f. some (f, some params')) two in
    let captured =
      is_route_exists-Captures server uri params params' 2 _ e' refl ((λ e. cc), ((λ e. tt), tt)) in
    let captured' = rw split at captured in
    (server, params', setup_table public_dir, e', captured'.1.0 refl)
