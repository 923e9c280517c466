-- ===== src/Http/Routes.antt =====
-- The routes of src/libs/http/http.c and specs.h: registration and lookup. The linked segments of a
-- route are a list, head first; `http_routes` holds the used entries of the array, so that its
-- length is `size_of_http_routes`. Memory allocation succeeds.
pub mod Register
pub mod RoundTrip
pub mod Match
pub mod Select
pub mod Params
mod Tests
use geo_ns_core.Common.{
  ℕ, suc, ◌+◌, ◌-◌, ◌%◌, ◌^◌, Bool, true, false, ◌&&◌, List, [], ◌∷◌, ◌++◌, map, Option, none, some,
  ltb, leb, ◌==◌, if◌then◌else◌, length, take, drop, get_elem?,
}
use geo_ns_core.Text.{Text, codes, str_eq, strn_eq, strtok, find}
use geo_ns_core.Core.StrMap.{StringMap, put}

pub record RouteSegment : Type 0 where
  pub value : Text
  pub is_parametric : Bool

-- The functions that the program registers.
pub data Callback : Type 0 where
  callback_home callback_about callback_test : Callback

pub record HttpRoute : Type 0 where
  pub segment : List RouteSegment
  pub segment_size : ℕ
  pub callback : Callback
  pub method : Text

pub record HttpServer : Type 0 where
  pub public_dir : Text
  pub http_routes : List HttpRoute

abbrev pub max_http_routes : ℕ
max_http_routes = 128

-- The length of `req_segments`.
abbrev pub max_req_segments : ℕ
max_req_segments = 128

abbrev pub ushort_mod : ℕ
ushort_mod = 2 ^ 16

unfoldable pub create_route_segment : Text → Bool → RouteSegment
create_route_segment segment_value is_parametric = record {
  value = segment_value;
  is_parametric = is_parametric;
}

-- `s[i] == c`, for a byte `c` that is not 0.
abbrev pub byte_is : Text → ℕ → ℕ → Bool
byte_is s i c = elim (get_elem? s i) [ none ↦ false | some b ↦ b == c ]

unfoldable pub is_parametric_str : Text → Bool
is_parametric_str segment_str =
    let seg_len = length segment_str % ushort_mod in
    leb 2 seg_len && byte_is segment_str 0 b'{' && byte_is segment_str (seg_len - 1) b'}'

-- The body of the loop of `set_http_route`.
unfoldable pub segment_of : Text → RouteSegment
unfolding create_route_segment is_parametric_str
segment_of segment_str =
    if is_parametric_str segment_str
    then create_route_segment (take (length segment_str % ushort_mod - 2) (drop 1 segment_str)) true
    else create_route_segment segment_str false

abbrev append_route : HttpServer → HttpRoute → HttpServer
append_route server route = record server { http_routes = server.http_routes ++ route ∷ [] }

abbrev pub root_route : Text → Callback → HttpRoute
root_route method callback = record {
  segment = record { value = codes "/"; is_parametric = false } ∷ [];
  segment_size = 0;
  callback = callback;
  method = method;
}

abbrev pub path_route : Text → List Text → Callback → HttpRoute
path_route method parts callback = record {
  segment = map segment_of parts;
  segment_size = length parts % ushort_mod;
  callback = callback;
  method = method;
}

-- `set_http_route` behind its test for null pointers.
unfoldable pub add_route : HttpServer → Text → Text → Callback → HttpServer × ℕ
add_route server method route_str callback =
    if leb max_http_routes (length server.http_routes)
    then (server, 0)
    else if strn_eq 2 route_str (codes "/")
    then (append_route server (root_route method callback), 1)
    else if length (strtok b'/' route_str) % ushort_mod == 0
    then (server, 0)
    else (append_route server (path_route method (strtok b'/' route_str) callback), 1)

-- `none` is a null pointer.
unfoldable pub set_http_route :
    Option HttpServer → Option Text → Option Text → Option Callback → Option HttpServer × ℕ
unfolding add_route
set_http_route none method route_str callback = (none, 0)
set_http_route (some server) none route_str callback = (some server, 0)
set_http_route (some server) (some method) none callback = (some server, 0)
set_http_route (some server) (some method) (some route_str) none = (some server, 0)
set_http_route (some server) (some method) (some route_str) (some callback) =
    let (server', result) = add_route server method route_str callback in (some server', result)

-- The loop of `is_route_exists` over the segments of one route and of the request.
unfoldable pub match_segments : List RouteSegment → List Text → StringMap → Bool × StringMap
unfolding str_eq put
match_segments rseg [] params = (true, params)
match_segments [] (part ∷ parts) params = (false, params)
match_segments (r ∷ rs) (part ∷ parts) params = elim r.is_parametric [
  | true ↦ match_segments rs parts (put params r.value part)
  | false ↦ elim (str_eq r.value part) [
    | true ↦ match_segments rs parts params
    | false ↦ (false, params)
  ]
]

-- The loop over the routes, from index `i` on: the index of the route that is found, and the map.
unfoldable pub find_route : List HttpRoute → ℕ → List Text → StringMap → Option ℕ × StringMap
unfolding match_segments
find_route [] i parts params = (none, params)
find_route (route ∷ routes) i parts params =
    let skipped = find_route routes (suc i) parts params in
    let (matched, params') = match_segments route.segment parts params in
    let failed = find_route routes (suc i) parts params' in
    if route.segment_size == length parts % ushort_mod
    then (if matched then (some i, params') else failed)
    else skipped

-- The loop for the request of "/". A route of no segment would be a null pointer: `none`.
unfoldable pub find_root : List HttpRoute → ℕ → Option (Option ℕ)
unfolding strn_eq
find_root [] i = some none
find_root (route ∷ routes) i =
    let rest = find_root routes (suc i) in
    if route.segment_size == 0
    then (elim route.segment [
      | [] ↦ none
      | s ∷ _ ↦ if strn_eq 1 s.value (codes "/") then some (some i) else rest
    ])
    else rest

abbrev pub with_params : StringMap → Option (Option ℕ) → Option (Option ℕ × StringMap)
with_params params none = none
with_params params (some found) = some (found, params)

abbrev pub keep_segment : Text → Option (List Text) → Option (List Text)
keep_segment seg none = none
keep_segment seg (some segs) = some (seg ∷ segs)

-- `req_segments[req_count++] = cpy`, from `req_count` on; `none` is a write behind the end of the array,
-- undefined behaviour.
unfoldable pub store_segments : ℕ → List Text → Option (List Text)
store_segments req_count [] = some []
store_segments req_count (seg ∷ segs) =
    let rest = store_segments (req_count + 1) segs in
    if ltb req_count max_req_segments then keep_segment seg rest else none

abbrev pub find_stored : HttpServer → StringMap → Option (List Text) → Option (Option ℕ × StringMap)
find_stored server out_params none = none
find_stored server out_params (some segs) = some (find_route server.http_routes 0 segs out_params)

-- `is_route_exists` behind its test for null pointers. `none` is undefined behaviour.
unfoldable pub lookup_route : HttpServer → Text → StringMap → Option (Option ℕ × StringMap)
unfolding find_root find_route
lookup_route server uri out_params =
    if length uri == 1 && strn_eq 1 uri (codes "/")
    then with_params out_params (find_root server.http_routes 0)
    else find_stored server out_params (store_segments 0 (strtok b'/' uri))

abbrev pub found_in : Option (Option ℕ × StringMap) → Option (Option ℕ × Option StringMap)
found_in none = none
found_in (some (found, params)) = some (found, some params)

-- The URI of the request, and the map; in the arguments `none` is a null pointer.
unfoldable pub is_route_exists :
    HttpServer → Option Text → Option StringMap → Option (Option ℕ × Option StringMap)
unfolding lookup_route
is_route_exists server none out_params = some (none, out_params)
is_route_exists server (some uri) none = some (none, none)
is_route_exists server (some uri) (some params) = found_in (lookup_route server uri params)

-- `strstr(route->method, request->method.name) != NULL`
unfoldable pub is_request_method_allowed : HttpRoute → Text → Bool
unfolding find
is_request_method_allowed route method = elim (find route.method method) [
  | none ↦ false
  | some i ↦ true
]
