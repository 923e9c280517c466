-- ===== src/Http/Routes/Select.antt =====
-- The route that a request gets is the first one that accepts its segments.
use geo_ns_core.Common.{
  ℕ, suc, ◌+◌, ◌↔◌, ◌%◌, ◌<◌, ◌≤◌, ◌≡◌, ◌≢◌, refl, ◌∙◌, ◌⊎◌, inl, inr, Bool, true, false, List, [],
  ◌∷◌, Option, none, some, arith, length, All, ◌==◌, Bool-cases, ◌&&◌, ap, sym, ltb,
}
use geo_ns_core.Text.{Text, codes, strtok, strn_eq}
use geo_ns_core.Core.StrMap.{StringMap}
use native.Mathlib.Decide.{ℕ_discrete, dec_le}
use geo_ns_core.Http.Routes.{
  HttpRoute, HttpServer, ushort_mod, max_req_segments, match_segments, find_route, store_segments,
  find_root, lookup_route, is_route_exists, with_params, found_in,
}
use geo_ns_core.Http.Routes.Match.{
  Accepts, IsRoute, match_segments-Accepts, size_of_Accepts, path_segments_root,
}

-- `found` is the index of the first route that accepts the request, counted from `i`, or there is
-- no such route.
abbrev pub Selects : List HttpRoute → List Text → ℕ → Option ℕ → Type 0
Selects [] parts i found = found ≡ none
Selects (route ∷ routes) parts i found =
    (Accepts route parts × (found ≡ some i))
    ⊎ ((¬ Accepts route parts) × Selects routes parts (suc i) found)

-- The three ways through a round of the loop.
module _ (route : HttpRoute) (routes : List HttpRoute) (i : ℕ) (parts : List Text)
    (params : StringMap) where
  pub find_route_differ :
      route.segment_size ≢ length parts % ushort_mod
      → find_route (route ∷ routes) i parts params ≡ find_route routes (suc i) parts params
  unfolding find_route
  find_route_differ h = ground arith

  pub find_route_hit :
      route.segment_size ≡ length parts % ushort_mod
      → (match_segments route.segment parts params).0 ≡ true
      → find_route (route ∷ routes) i parts params
        ≡ (some i, (match_segments route.segment parts params).1)
  unfolding find_route
  find_route_hit h m = ground arith

  pub find_route_miss :
      route.segment_size ≡ length parts % ushort_mod
      → (match_segments route.segment parts params).0 ≡ false
      → find_route (route ∷ routes) i parts params
        ≡ find_route routes (suc i) parts (match_segments route.segment parts params).1
  unfolding find_route
  find_route_miss h m = ground arith

pub find_route-Selects :
    (routes : List HttpRoute) (i : ℕ) (parts : List Text) (params : StringMap)
    → All IsRoute routes
    → length parts < ushort_mod
    → Selects routes parts i (find_route routes i parts params).0
find_route-Selects [] i parts params h b = unfold find_route in refl
find_route-Selects (route ∷ routes) i parts params (h, hs) b =
    elim (ℕ_discrete route.segment_size (length parts)) [
      | no differ ↦ rw (find_route_differ route routes i parts params (λ e. differ (omega arith))) (
          inr (
            (λ a. differ (size_of_Accepts route parts h a)),
            find_route-Selects routes (suc i) parts params hs b,
          ))
      | yes same ↦ elim (Bool-cases (match_segments route.segment parts params).0) [
        | inl hit ↦
            rw (find_route_hit route routes i parts params (omega arith) hit)
              (inl ((match_segments-Accepts route parts params h same).0 hit, refl))
        | inr miss ↦ rw (find_route_miss route routes i parts params (omega arith) miss) (
            inr (
              (λ a. cc ((match_segments-Accepts route parts params h same).1 a)),
              find_route-Selects routes (suc i) parts _ hs b,
            ))
      ]
    ]

find_root_here :
    (route : HttpRoute) (routes : List HttpRoute) (i : ℕ)
    → route.segment_size ≡ 0
    → route.segment ≡ record { value = codes "/"; is_parametric = false } ∷ []
    → find_root (route ∷ routes) i ≡ some (some i)
unfolding find_root
find_root_here route routes i size list = rw (size, list)

find_root_next :
    (route : HttpRoute) (routes : List HttpRoute) (i : ℕ)
    → route.segment_size ≢ 0
    → find_root (route ∷ routes) i ≡ find_root routes (suc i)
unfolding find_root
find_root_next route routes i size = ground arith

find_root-Selects :
    (routes : List HttpRoute) (i : ℕ)
    → All IsRoute routes
    → (found : Option ℕ) × (find_root routes i ≡ some found) × Selects routes [] i found
find_root-Selects [] i h = (none, unfold find_root in refl, refl)
find_root-Selects (route ∷ routes) i (inl (size, list), hs) = (
  some i,
  find_root_here route routes i size list,
  inl (rw (path_segments_root route size) tt, refl),
)
find_root-Selects (route ∷ routes) i (inr (size, list), hs) =
    let (found, e, s) = find_root-Selects routes (suc i) hs in
    (
      found,
      find_root_next route routes i size ∙ e,
      inr ((λ a. size (size_of_Accepts route [] (inr (size, list)) a)), s),
    )

abbrev pub is_root : Text → Bool
is_root uri = length uri == 1 && strn_eq 1 uri (codes "/")

pub uri_of_is_root : (uri : Text) → is_root uri ≡ true → uri ≡ codes "/"
unfolding strn_eq
uri_of_is_root [] h = cc
uri_of_is_root (c ∷ []) h = ground arith
uri_of_is_root (c ∷ d ∷ uri) h = ground arith

store_segments-fits :
    (i : ℕ) (segs : List Text)
    → i + length segs ≤ max_req_segments
    → store_segments i segs ≡ some segs
unfolding store_segments
store_segments-fits i [] b = refl
store_segments-fits i (seg ∷ segs) b =
    let room : ltb i max_req_segments ≡ true = ground arith in
    rw (room, store_segments-fits (i + 1) segs (omega arith)) refl

store_segments-overrun :
    (i : ℕ) (segs : List Text)
    → i ≤ max_req_segments
    → max_req_segments < i + length segs
    → store_segments i segs ≡ none
unfolding store_segments
store_segments-overrun i [] le b = absurd (omega arith)
store_segments-overrun i (seg ∷ segs) le b = elim (Bool-cases (ltb i max_req_segments)) [
  | inl room ↦ rw (room, store_segments-overrun (i + 1) segs (ground arith) (omega arith)) refl
  | inr full ↦ rw full refl
]

lookup_route_root :
    (server : HttpServer) (uri : Text) (params : StringMap)
    → is_root uri ≡ true
    → lookup_route server uri params ≡ with_params params (find_root server.http_routes 0)
unfolding lookup_route
lookup_route_root server uri params h = rw h

pub lookup_route_path :
    (server : HttpServer) (uri : Text) (params : StringMap)
    → is_root uri ≡ false
    → length (strtok b'/' uri) ≤ max_req_segments
    → lookup_route server uri params
      ≡ some (find_route server.http_routes 0 (strtok b'/' uri) params)
lookup_route_path server uri params h b =
    let t = store_segments-fits 0 (strtok b'/' uri) (omega arith) in
    unfold lookup_route in rw (h, t)

pub strtok_root : strtok b'/' (codes "/") ≡ []
unfolding strtok
strtok_root = refl

-- With well formed routes and at most 128 segments in the URI the lookup finds the first route that
-- accepts the segments, or none if no route does.
pub lookup_route-Selects :
    (server : HttpServer) (uri : Text) (params : StringMap)
    → All IsRoute server.http_routes
    → length (strtok b'/' uri) ≤ max_req_segments
    → (found : Option ℕ) × (params' : StringMap) × (lookup_route server uri params
        ≡ some (found, params'))
      × Selects server.http_routes (strtok b'/' uri) 0 found
lookup_route-Selects server uri params h b = elim (Bool-cases (is_root uri)) [
  | inl root ↦
      let (found, e, s) = find_root-Selects server.http_routes 0 h in
      (
        found,
        params,
        lookup_route_root server uri params root ∙ ap (with_params params) e,
        rw (uri_of_is_root uri root, strtok_root) s,
      )
  | inr other ↦ (
    _,
    _,
    lookup_route_path server uri params other b,
    find_route-Selects server.http_routes 0 (strtok b'/' uri) params h (omega arith),
  )
]

-- On a table of well formed routes, a request with at most 128 segments finds the first route that
-- accepts its segments, or none where none accepts them.
pub is_route_exists-Selects :
    (server : HttpServer) (uri : Text) (params : StringMap)
    → All IsRoute server.http_routes
    → length (strtok b'/' uri) ≤ max_req_segments
    → (found : Option ℕ) × (params' : StringMap) × (is_route_exists server (some uri) (some params)
        ≡ some (found, some params'))
      × Selects server.http_routes (strtok b'/' uri) 0 found
unfolding is_route_exists
is_route_exists-Selects server uri params h b =
    let (found, params', e, s) = lookup_route-Selects server uri params h b in
    (found, params', ap found_in e, s)

pub is_route_exists-overrun :
    (server : HttpServer) (uri : Text) (params : StringMap)
    → max_req_segments < length (strtok b'/' uri)
    → is_route_exists server (some uri) (some params) ≡ none
unfolding is_route_exists lookup_route
is_route_exists-overrun server uri params b = elim (Bool-cases (is_root uri)) [
  | inl root ↦ absurd (no_segments (uri_of_is_root uri root))
  | inr other ↦
      let t = store_segments-overrun 0 (strtok b'/' uri) (omega arith) (omega arith) in
      rw (other, t)
]
  where
    no_segments : uri ≡ codes "/" → ⊥
    no_segments e = omega (arith, ap (λ u. length (strtok b'/' u)) e, ap length strtok_root)

some-none {ℓ} : {A : Type ℓ} {a : A} → some a ≡ none → ⊥
some-none e = cc

-- With well formed routes the lookup is undefined exactly when the URI has more than 128 segments: then
-- a segment is written past the end of `req_segments`.
pub is_route_exists-overrun_iff :
    (server : HttpServer) (uri : Text) (params : StringMap)
    → All IsRoute server.http_routes
    → (is_route_exists server (some uri) (some params) ≡ none) ↔ (128 < length (strtok b'/' uri))
is_route_exists-overrun_iff server uri params h = elim (dec_le (length (strtok b'/' uri)) 128) [
  | yes fits ↦
      let (found, params', e, s) = is_route_exists-Selects server uri params h fits in
      (
        (λ n.
            let clash : some (found, some params') ≡ none = (sym e) ∙ n in
            absurd (some-none clash)),
        is_route_exists-overrun server uri params,
      )
  | no more ↦ ((λ e. omega arith), is_route_exists-overrun server uri params)
]
