-- ===== src/Http/Routes/Register.antt =====
-- Registering a route: what it adds, what it refuses, and that a request for the path finds it.
use geo_ns_core.Common.{
  ℕ, suc, ◌%◌, ◌<◌, ◌≤◌, ◌≡◌, ◌≢◌, refl, sym, ap, ◌⊎◌, inl, inr, true, false, List, [], ◌∷◌, ◌++◌,
  map, some, arith, length, length-append, All, All-append, ◌==◌, Bool-cases, leb,
}
use mathlib.Core.Path.{subst}
use native.Mathlib.Decide.{ℕ_discrete, dec_lt}
use geo_ns_core.Text.{Text, codes, strtok, strn_eq}
use geo_ns_core.Http.Routes.{
  HttpRoute, HttpServer, Callback, ushort_mod, max_http_routes, segment_of, root_route, path_route,
  add_route, set_http_route,
}
use geo_ns_core.Http.Routes.Match.{IsRoute}

-- The array holds at most 128 routes, each of them well formed.
pub record IsServer (server : HttpServer) : Type 0 where
  pub bounded : length server.http_routes ≤ max_http_routes
  pub routes : All IsRoute server.http_routes

pub length-map : {A B : Type 0} (f : A → B) (xs : List A) → length (map f xs) ≡ length xs
length-map f [] = refl
length-map f (x ∷ xs) = ap suc (length-map f xs)

-- The three ways through `set_http_route` behind its null tests.
module _ (server : HttpServer) (method route_str : Text) (callback : Callback) where
  add_route_full :
      max_http_routes ≤ length server.http_routes
      → add_route server method route_str callback ≡ (server, 0)
  unfolding add_route
  add_route_full h = ground arith

  add_route_root :
      length server.http_routes < max_http_routes
      → strn_eq 2 route_str (codes "/") ≡ true
      → add_route server method route_str callback
        ≡ (record server { http_routes = server.http_routes ++ root_route method callback ∷ [] }, 1)
  add_route_root h e =
      let room : leb max_http_routes (length server.http_routes) ≡ false = ground arith in
      unfold add_route in rw (room, e)

  add_route_empty :
      strn_eq 2 route_str (codes "/") ≡ false
      → length (strtok b'/' route_str) % ushort_mod ≡ 0
      → add_route server method route_str callback ≡ (server, 0)
  unfolding add_route
  add_route_empty e z = rw (e, z) (ground arith)

  pub add_route_path :
      length server.http_routes < max_http_routes
      → strn_eq 2 route_str (codes "/") ≡ false
      → length (strtok b'/' route_str) % ushort_mod ≢ 0
      → add_route server method route_str callback ≡ (
        record server {
          http_routes =
              server.http_routes ++ path_route method (strtok b'/' route_str) callback ∷ [];
        },
        1,
      )
  add_route_path h e z =
      let room : leb max_http_routes (length server.http_routes) ≡ false = ground arith in
      let some_part : (length (strtok b'/' route_str) % ushort_mod == 0) ≡ false = ground arith in
      unfold add_route in rw (room, e, some_part)

root_route-IsRoute : (method : Text) (callback : Callback) → IsRoute (root_route method callback)
root_route-IsRoute method callback = inl (refl, refl)

pub path_route-IsRoute :
    (method : Text) (parts : List Text) (callback : Callback)
    → length parts < ushort_mod
    → parts ≢ []
    → IsRoute (path_route method parts callback)
path_route-IsRoute method [] callback b h = absurd (h refl)
path_route-IsRoute method (part ∷ parts) callback b h =
    inr (omega arith, omega (arith, length-map segment_of (part ∷ parts)))

pub append-IsServer :
    (server : HttpServer) (route : HttpRoute)
    → IsServer server
    → length server.http_routes < max_http_routes
    → IsRoute route
    → IsServer (record server { http_routes = server.http_routes ++ route ∷ [] })
append-IsServer server route v h r = record {
  bounded = omega (arith, length-append server.http_routes (route ∷ []));
  routes = All-append IsRoute server.http_routes (route ∷ []) v.routes (r, tt);
}

-- What a call adds: nothing when it answers 0, one route at the end when it answers 1.
pub record IsRegistered (server server' : HttpServer) (method : Text) (callback : Callback)
    : Type 0 where
  pub route : HttpRoute
  pub appended : server'.http_routes ≡ server.http_routes ++ route ∷ []
  pub method_kept : route.method ≡ method
  pub callback_kept : route.callback ≡ callback
  pub well_formed : IsRoute route

abbrev pub Outcome : HttpServer → Text → Callback → HttpServer × ℕ → Type 0
Outcome server method callback (server', result) =
    ((result ≡ 0) × (server' ≡ server))
    ⊎ ((result ≡ 1)
        × (length server.http_routes < max_http_routes)
        × IsRegistered server server' method callback)

pub add_route-Outcome :
    (server : HttpServer) (method route_str : Text) (callback : Callback)
    → length (strtok b'/' route_str) < ushort_mod
    → Outcome server method callback (add_route server method route_str callback)
add_route-Outcome server method route_str callback b =
    elim (dec_lt (length server.http_routes) max_http_routes) [
      | no full ↦
          rw (add_route_full server method route_str callback (omega arith)) (inl (refl, refl))
      | yes room ↦ elim (Bool-cases (strn_eq 2 route_str (codes "/"))) [
        | inl root ↦ rw (add_route_root server method route_str callback room root) (
            inr (
              refl,
              room,
              record {
                route = root_route method callback;
                appended = refl;
                method_kept = refl;
                callback_kept = refl;
                well_formed = root_route-IsRoute method callback;
              },
            ))
        | inr path ↦ elim (ℕ_discrete (length (strtok b'/' route_str) % ushort_mod) 0) [
          | yes z ↦ rw (add_route_empty server method route_str callback path z) (inl (refl, refl))
          | no z ↦ rw (add_route_path server method route_str callback room path z) (
              inr (
                refl,
                room,
                record {
                  route = path_route method (strtok b'/' route_str) callback;
                  appended = refl;
                  method_kept = refl;
                  callback_kept = refl;
                  well_formed =
                      path_route-IsRoute method (strtok b'/' route_str) callback b
                        (λ e. omega (arith, ap length e));
                },
              ))
        ]
      ]
    ]

Outcome-IsServer :
    (server : HttpServer) (method : Text) (callback : Callback) (r : HttpServer × ℕ)
    → r.0.public_dir ≡ server.public_dir
    → IsServer server
    → Outcome server method callback r
    → IsServer r.0
Outcome-IsServer server method callback (server', result) p v (inl (zero_result, same)) =
    subst IsServer (sym same) v
Outcome-IsServer server method callback (server', result) p v (inr (one_result, room, g)) =
    let w = append-IsServer server g.route v room g.well_formed in
    record { bounded = rw g.appended w.bounded; routes = rw g.appended w.routes }

add_route-public_dir :
    (server : HttpServer) (method route_str : Text) (callback : Callback)
    → (add_route server method route_str callback).0.public_dir ≡ server.public_dir
unfolding add_route
add_route-public_dir server method route_str callback = ground arith

-- With no null pointer and fewer than 65536 segments in the path, `set_http_route` keeps the table of
-- routes well formed and within its 128 places. It answers 0 and leaves the server as it was, or 1
-- and appends one route with the method and the callback that it was given.
set_http_route-Outcome :
    (server : HttpServer) (method route_str : Text) (callback : Callback)
    → IsServer server
    → length (strtok b'/' route_str) < ushort_mod
    → (server' : HttpServer) × (result : ℕ) × (set_http_route
          (some server)
          (some method)
          (some route_str)
          (some callback)
        ≡ (some server', result))
      × IsServer server'
      × Outcome server method callback (server', result)
unfolding set_http_route
set_http_route-Outcome server method route_str callback v b =
    let o = add_route-Outcome server method route_str callback b in
    (
      (add_route server method route_str callback).0,
      (add_route server method route_str callback).1,
      refl,
      Outcome-IsServer server method callback (add_route server method route_str callback)
          (add_route-public_dir server method route_str callback) v o,
      o,
    )
