-- ===== src/Http/Routes/Params.antt =====
-- The parameters of a route that is found.
use geo_ns_core.Common.{
  ℕ, zero, suc, ◌+◌, ◌%◌, ◌≤◌, ◌≡◌, ◌≢◌, refl, inl, inr, sym, ◌⊎◌, true, false, List, [], ◌∷◌,
  Option, some, arith, length, All, get_elem?, Bool-cases,
}
use geo_ns_core.Text.{Text, strtok}
use geo_ns_core.Text.Laws.{str_eq_iff}
use geo_ns_core.Core.StrMap.{StringMap, put, string_map_get}
use geo_ns_core.Core.StrMap.Lookup.{get-put}
use native.Mathlib.Decide.{ℕ_discrete, dec_le}
use native.Mathlib.Nat.{zero-add}
use mathlib.Core.Path.{subst}
use geo_ns_core.Http.Routes.Select.{
  find_route_differ, find_route_hit, find_route_miss, is_root, uri_of_is_root, strtok_root,
  lookup_route_path, is_route_exists-overrun,
}
use geo_ns_core.Http.Routes.{
  RouteSegment, HttpRoute, HttpServer, ushort_mod, max_req_segments, match_segments, find_route,
  is_route_exists,
}

abbrev pub IsUnused : Text → List RouteSegment → Type 0
IsUnused name rs = All (λ r. r.is_parametric ≡ true → r.value ≢ name) rs

abbrev pub HasDistinctNames : List RouteSegment → Type 0
HasDistinctNames [] = Unit
HasDistinctNames (r ∷ rs) = (r.is_parametric ≡ true → IsUnused r.value rs) × HasDistinctNames rs

-- Each parametric segment names the part of the request at its place.
abbrev pub Captures : List RouteSegment → List Text → StringMap → Type 0
Captures rs [] params = Unit
Captures [] (part ∷ parts) params = Unit
Captures (r ∷ rs) (part ∷ parts) params =
    (r.is_parametric ≡ true → string_map_get params r.value ≡ some part) × Captures rs parts params

match_segments-get :
    (name : Text) (rs : List RouteSegment) (parts : List Text) (params : StringMap)
    → IsUnused name rs
    → string_map_get (match_segments rs parts params).1 name ≡ string_map_get params name
unfolding match_segments
match_segments-get name [] [] params h = refl
match_segments-get name [] (part ∷ parts) params h = refl
match_segments-get name (r ∷ rs) [] params h = refl
match_segments-get name (r ∷ rs) (part ∷ parts) params h = ground (
  arith,
  str_eq_iff r.value name,
  get-put params r.value name part,
  match_segments-get name rs parts params h.1,
  match_segments-get name rs parts (put params r.value part) h.1,
)

module _ (r : RouteSegment) (rs : List RouteSegment) (part : Text) (parts : List Text)
    (params : StringMap) where
  match_segments_parametric :
      r.is_parametric ≡ true
      → match_segments (r ∷ rs) (part ∷ parts) params
        ≡ match_segments rs parts (put params r.value part)
  unfolding match_segments
  match_segments_parametric e = ground arith

  match_segments_literal :
      r.is_parametric ≡ false
      → (match_segments (r ∷ rs) (part ∷ parts) params).0 ≡ true
      → match_segments (r ∷ rs) (part ∷ parts) params ≡ match_segments rs parts params
  unfolding match_segments
  match_segments_literal e h = ground arith

match_segments-Captures :
    (rs : List RouteSegment) (parts : List Text) (params : StringMap)
    → HasDistinctNames rs
    → (match_segments rs parts params).0 ≡ true
    → Captures rs parts (match_segments rs parts params).1
match_segments-Captures [] [] params d e = tt
match_segments-Captures [] (part ∷ parts) params d e = tt
match_segments-Captures (r ∷ rs) [] params d e = tt
match_segments-Captures (r ∷ rs) (part ∷ parts) params d e = elim (Bool-cases r.is_parametric) [
  | inl p ↦
      let step = match_segments_parametric r rs part parts params p in
      let m = put params r.value part in
      rw step (
        (λ _. ground (
          arith,
          match_segments-get r.value rs parts m (d.0 p),
          get-put params r.value r.value part,
          str_eq_iff r.value r.value,
        )),
        match_segments-Captures rs parts m d.1 (rw step at e),
      )
  | inr p ↦
      let step = match_segments_literal r rs part parts params p e in
      rw step ((λ q. cc), match_segments-Captures rs parts params d.1 (rw step at e))
]

-- An index that is found lies behind the start.
find_route-ge :
    (routes : List HttpRoute) (i n : ℕ) (parts : List Text) (params : StringMap)
    → (find_route routes i parts params).0 ≡ some n
    → i ≤ n
unfolding find_route
find_route-ge [] i n parts params e = cc
find_route-ge (route ∷ routes) i n parts params e = ground (
  arith,
  find_route-ge routes (suc i) n parts params,
  find_route-ge routes (suc i) n parts (match_segments route.segment parts params).1,
)

-- A round of the loop finds the route by its segments, or goes on with some map.
find_route_round :
    (route : HttpRoute) (routes : List HttpRoute) (i : ℕ) (parts : List Text) (params : StringMap)
    → (((match_segments route.segment parts params).0 ≡ true)
        × (find_route (route ∷ routes) i parts params
            ≡ (some i, (match_segments route.segment parts params).1)))
      ⊎ ((params' : StringMap) × (find_route (route ∷ routes) i parts params
            ≡ find_route routes (suc i) parts params'))
find_route_round route routes i parts params =
    elim (ℕ_discrete route.segment_size (length parts % ushort_mod)) [
      | no differ ↦ inr (params, find_route_differ route routes i parts params differ)
      | yes same ↦ elim (Bool-cases (match_segments route.segment parts params).0) [
        | inl hit ↦ inl (hit, find_route_hit route routes i parts params same hit)
        | inr miss ↦ inr (_, find_route_miss route routes i parts params same miss)
      ]
    ]

find_route-Captures :
    (routes : List HttpRoute) (i k : ℕ) (parts : List Text) (params : StringMap) (route : HttpRoute)
    → (find_route routes i parts params).0 ≡ some (i + k)
    → get_elem? routes k ≡ some route
    → HasDistinctNames route.segment
    → Captures route.segment parts (find_route routes i parts params).1
find_route-Captures [] i k parts params route e h d = cc
find_route-Captures (r ∷ routes) i zero parts params route e h d =
    elim (find_route_round r routes i parts params) [
      | inl (hit, step) ↦
          let same : r ≡ route = cc in
          rw step (
            subst
              (λ (x : HttpRoute).
                Captures x.segment parts (match_segments r.segment parts params).1)
              same
              (match_segments-Captures r.segment parts params
                (subst (λ (x : HttpRoute). HasDistinctNames x.segment) (sym same) d) hit))
      | inr (params', step) ↦
          absurd (omega (arith, find_route-ge routes (suc i) (i + 0) parts params' (rw step at e)))
    ]
find_route-Captures (r ∷ routes) i (suc k) parts params route e h d =
    elim (find_route_round r routes i parts params) [
      | inl (hit, step) ↦ let e' : some i ≡ some (i + suc k) = rw step at e in absurd (ground arith)
      | inr (params', step) ↦
          let e' : (find_route routes (suc i) parts params').0 ≡ some (i + suc k) = rw step at e in
          rw step (find_route-Captures routes (suc i) k parts params' route (ground arith) h d)
    ]

is_route_exists_path :
    (server : HttpServer) (uri : Text) (params : StringMap)
    → is_root uri ≡ false
    → length (strtok b'/' uri) ≤ max_req_segments
    → {found : Option ℕ} {params' : StringMap}
    → is_route_exists server (some uri) (some params) ≡ some (found, some params')
    → ((find_route server.http_routes 0 (strtok b'/' uri) params).0 ≡ found)
      × ((find_route server.http_routes 0 (strtok b'/' uri) params).1 ≡ params')
unfolding is_route_exists
is_route_exists_path server uri params other fits e =
    ground (arith, lookup_route_path server uri params other fits)

-- When the lookup finds a route whose parameter names are distinct, each of them is bound in the map
-- to the segment of the URI at its place, whatever the routes tried before have left there.
pub is_route_exists-Captures :
    (server : HttpServer) (uri : Text) (params params' : StringMap) (k : ℕ) (route : HttpRoute)
    → is_route_exists server (some uri) (some params) ≡ some (some k, some params')
    → get_elem? server.http_routes k ≡ some route
    → HasDistinctNames route.segment
    → Captures route.segment (strtok b'/' uri) params'
is_route_exists-Captures server uri params params' k route e h d = elim (Bool-cases (is_root uri)) [
  | inl root ↦ rw (uri_of_is_root uri root, strtok_root) tt
  | inr other ↦ elim (dec_le (length (strtok b'/' uri)) max_req_segments) [
    | no more ↦ cc (is_route_exists-overrun server uri params (omega arith))
    | yes fits ↦
        let found = find_route server.http_routes 0 (strtok b'/' uri) params in
        let (e0, e1) = is_route_exists_path server uri params other fits e in
        rw (← e1) (
          find_route-Captures server.http_routes 0 k (strtok b'/' uri) params route
            (rw (zero-add) e0) h d)
  ]
]
