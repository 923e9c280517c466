-- ===== src/Http/Status/Phrases.antt =====
-- Every code of the table gets its own phrase, and any other code the fallback.
use geo_ns_core.Common.{ℕ, ◌≡◌, refl, ◌≢◌, ◌<◌, List, [], ◌∷◌, arith, All}
use geo_ns_core.Text.{codes}
use geo_ns_core.Http.Status.{HttpStatusCode, http_statuses, find_phrase, get_reason_phrase}

-- The codes rise strictly from above `n`.
abbrev Ascending : ℕ → List HttpStatusCode → Type 0
Ascending n [] = Unit {0}
Ascending n (e ∷ es) = (n < e.code) × Ascending e.code es

Ascending-above : (n : ℕ) (es : List HttpStatusCode) → Ascending n es → All (λ e. n < e.code) es
Ascending-above n [] h = tt
Ascending-above n (e ∷ es) h = (h.0, All-weaken es (Ascending-above e.code es h.1))
  where
    All-weaken :
        (xs : List HttpStatusCode) → All (λ x. e.code < x.code) xs → All (λ x. n < x.code) xs
    All-weaken [] k = tt
    All-weaken (x ∷ xs) k = (omega arith, All-weaken xs k.1)

find_phrase-skip :
    (e : HttpStatusCode) (es xs : List HttpStatusCode)
    → All (λ x. e.code < x.code) xs
    → All (λ x. find_phrase es x.code ≡ x.reason_phrase) xs
    → All (λ x. find_phrase (e ∷ es) x.code ≡ x.reason_phrase) xs
unfolding find_phrase
find_phrase-skip e es [] h k = tt
find_phrase-skip e es (x ∷ xs) h k = (ground arith, find_phrase-skip e es xs h.1 k.1)

find_phrase-entry :
    (n : ℕ) (es : List HttpStatusCode)
    → Ascending n es
    → All (λ x. find_phrase es x.code ≡ x.reason_phrase) es
find_phrase-entry n [] h = tt
find_phrase-entry n (e ∷ es) h = (
  unfold find_phrase in ground arith,
  find_phrase-skip e es es (Ascending-above e.code es h.1) (find_phrase-entry e.code es h.1),
)

-- The table lists no code twice, so each of its codes gets the phrase beside it.
get_reason_phrase-entry : All (λ e. get_reason_phrase e.code ≡ e.reason_phrase) http_statuses
unfolding get_reason_phrase
get_reason_phrase-entry = find_phrase-entry 0 http_statuses (omega arith)

find_phrase-unknown :
    (code : ℕ) (es : List HttpStatusCode)
    → All (λ e. e.code ≢ code) es
    → find_phrase es code ≡ codes "Unknown Status Code"
unfolding find_phrase
find_phrase-unknown code [] h = refl
find_phrase-unknown code (e ∷ es) h = ground (arith, find_phrase-unknown code es h.1)

-- A code that the table does not list gets "Unknown Status Code".
get_reason_phrase-unknown :
    (code : ℕ)
    → All (λ e. e.code ≢ code) http_statuses
    → get_reason_phrase code ≡ codes "Unknown Status Code"
unfolding get_reason_phrase
get_reason_phrase-unknown code h = find_phrase-unknown code http_statuses h
