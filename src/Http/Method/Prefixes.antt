-- ===== src/Http/Method/Prefixes.antt =====
-- The method tests decide whether the method, in upper case, begins with one of the names.
use geo_ns_core.Common.{
  ℕ, ◌≡◌, ◌≢◌, refl, ◌↔◌, ◌⊎◌, inl, inr, true, false, List, [], ◌∷◌, ◌++◌, map, arith, length,
  Bool-cases,
}
use geo_ns_core.Text.{Text, codes, strn_eq, toupper}
use geo_ns_core.Text.Laws.{strn_eq-append, prefix_of_strn_eq}
use geo_ns_core.Http.Method.{
  body_less_methods, standard_methods, has_prefix, is_body_required, is_standard_http_method,
}

abbrev pub Begins : List Text → Text → Type 0
Begins [] s = ⊥
Begins (name ∷ names) s = ((rest : Text) × (s ≡ name ++ rest)) ⊎ Begins names s

pub toupper_idem : (c : ℕ) → toupper (toupper c) ≡ toupper c
unfolding toupper
toupper_idem c = ground arith

pub map-toupper_idem : (s : Text) → map toupper (map toupper s) ≡ map toupper s
map-toupper_idem [] = refl
map-toupper_idem (c ∷ s) = cc (toupper_idem c, map-toupper_idem s)

Begins-has_prefix :
    (names : List Text) (s : Text) → (has_prefix names s).0 ≡ true → Begins names (map toupper s)
unfolding has_prefix
Begins-has_prefix [] s e = cc
Begins-has_prefix (name ∷ names) s e =
    elim (Bool-cases (strn_eq (length name) (map toupper s) name)) [
      | inl hit ↦ inl (prefix_of_strn_eq (map toupper s) name hit)
      | inr miss ↦
          let b : Begins names (map toupper (map toupper s)) =
            Begins-has_prefix names (map toupper s) (ground arith) in
          inr (rw (map-toupper_idem s) at b)
    ]

has_prefix_of_Begins :
    (names : List Text) (s : Text) → Begins names (map toupper s) → (has_prefix names s).0 ≡ true
unfolding has_prefix
has_prefix_of_Begins [] s b = absurd b
has_prefix_of_Begins (name ∷ names) s (inl (rest, e)) =
    let hit : strn_eq (length name) (map toupper s) name ≡ true = rw e (strn_eq-append name rest) in
    rw hit
has_prefix_of_Begins (name ∷ names) s (inr b) =
    let b' : Begins names (map toupper (map toupper s)) = rw (map-toupper_idem s) b in
    ground (arith, has_prefix_of_Begins names (map toupper s) b')

has_prefix-method :
    (names : List Text) (s : Text) → names ≢ [] → (has_prefix names s).1 ≡ map toupper s
unfolding has_prefix
has_prefix-method [] s h = absurd (h refl)
has_prefix-method (name ∷ []) s h = ground arith
has_prefix-method (name ∷ n ∷ names) s h =
    ground (arith, has_prefix-method (n ∷ names) (map toupper s) (λ e. cc), map-toupper_idem s)

-- The names that count, and one that is two methods in one.
abbrev pub counted_methods : List Text
counted_methods =
    codes "GET"
    ∷ codes "HEAD"
    ∷ codes "POST"
    ∷ (codes "PATCH" ++ codes "PUT")
    ∷ codes "DELETE"
    ∷ codes "CONNECT"
    ∷ codes "OPTIONS"
    ∷ codes "TRACE"
    ∷ []

-- A method counts as standard exactly when it begins, in upper case, with GET, HEAD, POST, DELETE,
-- CONNECT, OPTIONS or TRACE, or with PATCH and PUT written together; so PATCH and PUT do not count, but
-- PATCHPUT does. The method is left in upper case.
pub is_standard_http_method_iff :
    (method : Text)
    → (((is_standard_http_method method).0 ≡ true) ↔ Begins counted_methods (map toupper method))
      × ((is_standard_http_method method).1 ≡ map toupper method)
      × ((is_standard_http_method (codes "PATCH")).0 ≡ false)
      × ((is_standard_http_method (codes "PUT")).0 ≡ false)
      × ((is_standard_http_method (codes "PATCHPUT")).0 ≡ true)
unfolding is_standard_http_method
is_standard_http_method_iff method = (
  (Begins-has_prefix counted_methods method, has_prefix_of_Begins counted_methods method),
  has_prefix-method counted_methods method (λ e. cc),
  refl,
  refl,
  refl,
)

-- A request has no body exactly when its method begins, in upper case, with one of the four names.
is_body_required_iff :
    (method : Text)
    → (((is_body_required method).0 ≡ false) ↔ Begins body_less_methods (map toupper method))
      × ((is_body_required method).1 ≡ map toupper method)
unfolding is_body_required
is_body_required_iff method = (
  (
    (λ e. Begins-has_prefix body_less_methods method (ground arith)),
    (λ b. ground (arith, has_prefix_of_Begins body_less_methods method b)),
  ),
  has_prefix-method body_less_methods method (λ e. cc),
)

-- The case of the letters does not matter.
has_prefix-upper :
    (names : List Text) (s : Text) → (has_prefix names (map toupper s)).0 ≡ (has_prefix names s).0
unfolding has_prefix
has_prefix-upper [] s = refl
has_prefix-upper (name ∷ names) s = rw (map-toupper_idem s)

is_standard_http_method-upper :
    (method : Text)
    → (is_standard_http_method (map toupper method)).0 ≡ (is_standard_http_method method).0
unfolding is_standard_http_method
is_standard_http_method-upper method = has_prefix-upper standard_methods method

-- PUT and PATCH, in any case of their letters, are not counted as standard.
is_standard_http_method-put_patch :
    (method : Text)
    → (map toupper method ≡ codes "PUT") ⊎ (map toupper method ≡ codes "PATCH")
    → (is_standard_http_method method).0 ≡ false
unfolding is_standard_http_method
is_standard_http_method-put_patch method (inl h) =
    rw (← is_standard_http_method-upper method) (rw h refl)
is_standard_http_method-put_patch method (inr h) =
    rw (← is_standard_http_method-upper method) (rw h refl)
