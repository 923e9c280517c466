-- ===== src/Http/Routes/RoundTrip.antt =====
-- A request for a registered path finds the route.
use geo_ns_core.Common.{
  ℕ, suc, ◌+◌, ◌<◌, ◌≤◌, ◌≡◌, ◌≢◌, refl, ◌∙◌, ap, ◌⊎◌, inl, inr, true, false, List, [], ◌∷◌, ◌++◌,
  map, Option, some, arith, length, All,
}
use native.Mathlib.Nat.{zero-add}
use geo_ns_core.Text.{Text, codes, strn_eq}
use geo_ns_core.Text.Tokens.{IsToken, join, strtok-join}
use geo_ns_core.Core.StrMap.{StringMap}
use geo_ns_core.Http.Routes.{
  HttpRoute, HttpServer, Callback, ushort_mod, max_http_routes, max_req_segments, is_parametric_str,
  create_route_segment, segment_of, path_route, add_route, set_http_route, is_route_exists,
}
use geo_ns_core.Http.Routes.Match.{Matches, Accepts, path_segments_path}
use geo_ns_core.Http.Routes.Select.{Selects, is_route_exists-Selects}
use geo_ns_core.Http.Routes.Register.{IsServer, append-IsServer, path_route-IsRoute, add_route_path}

-- A request fits a pattern part by part: a part in braces takes anything, another only itself.
abbrev pub Fits : List Text → List Text → Type 0
Fits [] [] = Unit
Fits [] (q ∷ qs) = ⊥
Fits (p ∷ ps) [] = ⊥
Fits (p ∷ ps) (q ∷ qs) = ((is_parametric_str p ≡ true) ⊎ (p ≡ q)) × Fits ps qs

segment_of-accepts :
    (p q : Text)
    → (is_parametric_str p ≡ true) ⊎ (p ≡ q)
    → ((segment_of p).is_parametric ≡ true) ⊎ ((segment_of p).value ≡ q)
unfolding segment_of create_route_segment
segment_of-accepts p q h = ground arith

Fits-Matches : (ps qs : List Text) → Fits ps qs → Matches (map segment_of ps) qs
Fits-Matches [] [] h = tt
Fits-Matches [] (q ∷ qs) h = absurd h
Fits-Matches (p ∷ ps) [] h = absurd h
Fits-Matches (p ∷ ps) (q ∷ qs) h = (segment_of-accepts p q h.0, Fits-Matches ps qs h.1)

Selects-last :
    (routes : List HttpRoute) (route : HttpRoute) (qs : List Text) (i : ℕ) (found : Option ℕ)
    → All (λ r. ¬ Accepts r qs) routes
    → Accepts route qs
    → Selects (routes ++ route ∷ []) qs i found
    → found ≡ some (i + length routes)
Selects-last [] route qs i found h a (inl (_, e)) = ground arith
Selects-last [] route qs i found h a (inr (n, _)) = absurd (n a)
Selects-last (r ∷ routes) route qs i found h a (inl (b, _)) = absurd (h.0 b)
Selects-last (r ∷ routes) route qs i found h a (inr (_, s)) =
    ground (arith, Selects-last routes route qs (suc i) found h.1 a s)

not_root_path :
    (ps : List Text)
    → All (IsToken b'/') ps
    → ps ≢ []
    → strn_eq 2 (join b'/' ps) (codes "/") ≡ false
unfolding strn_eq
not_root_path [] h ne = absurd (ne refl)
not_root_path ([] ∷ ps) h ne = absurd (h.0.0 refl)
not_root_path ((c ∷ p) ∷ ps) h ne = refl

Fits-length : (ps qs : List Text) → Fits ps qs → length ps ≡ length qs
Fits-length [] [] h = refl
Fits-length [] (q ∷ qs) h = absurd h
Fits-length (p ∷ ps) [] h = absurd h
Fits-length (p ∷ ps) (q ∷ qs) h = ap suc (Fits-length ps qs h.1)

path_route-Accepts :
    (method : Text) (ps qs : List Text) (callback : Callback)
    → ps ≢ []
    → length ps < ushort_mod
    → Fits ps qs
    → Accepts (path_route method ps callback) qs
path_route-Accepts method [] qs callback ne b fits = absurd (ne refl)
path_route-Accepts method (p ∷ ps) qs callback ne b fits =
    rw (path_segments_path (path_route method (p ∷ ps) callback) (omega arith))
      (Fits-Matches (p ∷ ps) qs fits)

length_pos : (ps : List Text) → ps ≢ [] → 0 < length ps
length_pos [] ne = absurd (ne refl)
length_pos (p ∷ ps) ne = omega arith

-- A path of at least one part is registered on a well formed server that has room; then a request of
-- at most 128 parts that fits it, and that no earlier route accepts, finds the new route.
pub set_http_route-is_route_exists :
    (server : HttpServer) (method : Text) (callback : Callback) (ps qs : List Text)
    (params : StringMap)
    → IsServer server
    → length server.http_routes < max_http_routes
    → All (IsToken b'/') ps
    → All (IsToken b'/') qs
    → ps ≢ []
    → length qs ≤ max_req_segments
    → Fits ps qs
    → All (λ r. ¬ Accepts r qs) server.http_routes
    → (server' : HttpServer) × (params' : StringMap) × (set_http_route
          (some server)
          (some method)
          (some (join b'/' ps))
          (some callback)
        ≡ (some server', 1))
      × (is_route_exists server' (some (join b'/' qs)) (some params)
          ≡ some (some (length server.http_routes), some params'))
set_http_route-is_route_exists server method callback ps qs params v room tp tq ne bq fits
      none_before =
    let same_length = Fits-length ps qs fits in
    let short : length ps < ushort_mod = omega arith in
    let split = strtok-join b'/' ps tp in
    let route = path_route method ps callback in
    let server' : HttpServer = record server { http_routes = server.http_routes ++ route ∷ [] } in
    let added : add_route server method (join b'/' ps) callback ≡ (server', 1) = rw (
      add_route_path server method (join b'/' ps) callback room (not_root_path ps tp ne)
          (rw split (omega (arith, length_pos ps ne))),
      split,
    ) in
    let v' : IsServer server' =
      append-IsServer server route v room (path_route-IsRoute method ps callback short ne) in
    let (found, params', e, s) =
      is_route_exists-Selects server' (join b'/' qs) params v'.routes
        (rw (strtok-join b'/' qs tq) bq) in
    let s' : Selects (server.http_routes ++ route ∷ []) qs 0 found =
      rw (strtok-join b'/' qs tq) at s in
    let last =
      Selects-last server.http_routes route qs 0 found none_before
        (path_route-Accepts method ps qs callback ne short fits) s' in
    (
      server',
      params',
      unfold set_http_route in rw added,
      e ∙ ap (λ f. some (f, some params')) (last ∙ ap some (zero-add _)),
    )
