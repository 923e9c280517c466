-- ===== src/Http/Method.antt =====
-- The method tests of src/libs/http/parser/parser.c. Each returns its answer and the method, which it
-- turns to upper case in place.
pub mod Prefixes
use geo_ns_core.Common.{
  ℕ, Bool, true, false, not, List, [], ◌∷◌, map, Option, none, some, if◌then◌else◌, length,
}
use geo_ns_core.Text.{Text, codes, strn_eq, toupper, tolower}

-- `none` is the null pointer; the number is the result.
unfoldable pub to_upper_string : Option Text → Option Text × ℕ
unfolding toupper
to_upper_string none = (none, 0)
to_upper_string (some string) = (some (map toupper string), 1)

unfoldable pub to_lower_string : Option Text → Option Text × ℕ
unfolding tolower
to_lower_string none = (none, 0)
to_lower_string (some string) = (some (map tolower string), 1)

abbrev pub body_less_methods : List Text
body_less_methods = codes "GET" ∷ codes "HEAD" ∷ codes "DELETE" ∷ codes "OPTIONS" ∷ []

-- A comma is missing in the source: "PATCH" "PUT" is one string.
abbrev pub standard_methods : List Text
standard_methods =
    codes "GET"
    ∷ codes "HEAD"
    ∷ codes "POST"
    ∷ codes "PATCHPUT"
    ∷ codes "DELETE"
    ∷ codes "CONNECT"
    ∷ codes "OPTIONS"
    ∷ codes "TRACE"
    ∷ []

-- The loop of both functions: whether one of the names is a prefix of the method.
unfoldable pub has_prefix : List Text → Text → Bool × Text
unfolding toupper strn_eq
has_prefix [] method = (false, method)
has_prefix (name ∷ names) method =
    let upper = map toupper method in
    let rest = has_prefix names upper in
    if strn_eq (length name) upper name then (true, upper) else rest

unfoldable pub is_body_required : Text → Bool × Text
unfolding has_prefix
is_body_required method =
    let (found, upper) = has_prefix body_less_methods method in (not found, upper)

unfoldable pub is_standard_http_method : Text → Bool × Text
unfolding has_prefix
is_standard_http_method method = has_prefix standard_methods method
