-- ===== src/Http/Routes/Match.antt =====
-- When a route accepts the segments of a request, and what the loop over the segments decides.
use geo_ns_core.Common.{
  ◌≡◌, ◌≢◌, refl, ◌∙◌, ◌↔◌, ◌⊎◌, inl, inr, true, false, List, [], ◌∷◌, arith, length, ◌==◌,
  if◌then◌else◌,
}
use geo_ns_core.Text.{Text, codes}
use geo_ns_core.Text.Laws.{str_eq_iff}
use geo_ns_core.Core.StrMap.{StringMap, put}
use geo_ns_core.Http.Routes.{RouteSegment, HttpRoute, match_segments}

-- A parametric segment accepts any part of the request, a literal one its own text.
abbrev pub Matches : List RouteSegment → List Text → Type 0
Matches [] [] = Unit
Matches [] (part ∷ parts) = ⊥
Matches (r ∷ rs) [] = ⊥
Matches (r ∷ rs) (part ∷ parts) = ((r.is_parametric ≡ true) ⊎ (r.value ≡ part)) × Matches rs parts

-- The route "/" has one segment in its list and size 0: it is the route of no segment.
abbrev pub path_segments : HttpRoute → List RouteSegment
path_segments route = if route.segment_size == 0 then [] else route.segment

abbrev pub Accepts : HttpRoute → List Text → Type 0
Accepts route parts = Matches (path_segments route) parts

-- The size of a route is the length of its list, or it is the route "/".
abbrev pub IsRoute : HttpRoute → Type 0
IsRoute route =
    ((route.segment_size ≡ 0)
      × (route.segment ≡ record { value = codes "/"; is_parametric = false } ∷ []))
    ⊎ ((route.segment_size ≢ 0) × (route.segment_size ≡ length route.segment))

pub Matches-length :
    (rs : List RouteSegment) (parts : List Text) → Matches rs parts → length rs ≡ length parts
Matches-length [] [] h = refl
Matches-length [] (part ∷ parts) h = absurd h
Matches-length (r ∷ rs) [] h = absurd h
Matches-length (r ∷ rs) (part ∷ parts) h = omega (arith, Matches-length rs parts h.1)

pub match_segments_iff :
    (rs : List RouteSegment) (parts : List Text) (params : StringMap)
    → length rs ≡ length parts
    → ((match_segments rs parts params).0 ≡ true) ↔ Matches rs parts
unfolding match_segments
match_segments_iff [] [] params e = ((λ _. tt), (λ _. refl))
match_segments_iff [] (part ∷ parts) params e = absurd (omega arith)
match_segments_iff (r ∷ rs) [] params e = absurd (omega arith)
match_segments_iff (r ∷ rs) (part ∷ parts) params e = ground (
  arith,
  str_eq_iff r.value part,
  match_segments_iff rs parts params,
  match_segments_iff rs parts (put params r.value part),
)

pub path_segments_root : (route : HttpRoute) → route.segment_size ≡ 0 → path_segments route ≡ []
path_segments_root route e = ground arith

pub path_segments_path :
    (route : HttpRoute) → route.segment_size ≢ 0 → path_segments route ≡ route.segment
path_segments_path route e = ground arith

-- A route whose size is that of the request accepts it exactly when the loop says so.
pub match_segments-Accepts :
    (route : HttpRoute) (parts : List Text) (params : StringMap)
    → IsRoute route
    → (route.segment_size ≡ length parts)
    → ((match_segments route.segment parts params).0 ≡ true) ↔ Accepts route parts
match_segments-Accepts route [] params h e =
    rw (path_segments_root route e) ((λ _. tt), (λ _. unfold match_segments in ground arith))
match_segments-Accepts route (part ∷ parts) params h e =
    rw (path_segments_path route (omega arith))
      (match_segments_iff route.segment (part ∷ parts) params (ground arith))

pub size_of_Accepts :
    (route : HttpRoute) (parts : List Text)
    → IsRoute route
    → Accepts route parts
    → route.segment_size ≡ length parts
size_of_Accepts route parts (inl h) a =
    let m : Matches [] parts = rw (path_segments_root route h.0) at a in
    h.0 ∙ Matches-length [] parts m
size_of_Accepts route parts (inr h) a =
    let m : Matches route.segment parts = rw (path_segments_path route h.0) at a in
    h.1 ∙ Matches-length route.segment parts m
