-- ===== src/Http/Header/Fields.antt =====
-- What `get_http_header_value` finds in a block of header lines.
use geo_ns_core.Common.{
  ◌≡◌, ◌≢◌, refl, List, [], ◌∷◌, ◌++◌, Option, none, some, arith, All, All-append, append_assoc,
  append-ne-nil, if◌then◌else◌,
}
use geo_ns_core.Text.{Text, codes, strn_eq, strtok}
use geo_ns_core.Text.Tokens.{IsClear, IsToken, strtok-line}
use geo_ns_core.Text.Strtol.{skip_spaces}
use geo_ns_core.Http.Response.{crlf, header_line}
use geo_ns_core.Http.Header.{
  cut_colon, match_header, pointer_size, find_header, get_http_header_value,
}

-- A name holds no colon and no end of line, a value no end of line.
abbrev pub IsField : Text × Text → Type 0
IsField (name, value) = (name ≢ []) × IsClear b':' name × IsClear 10 name × IsClear 10 value

abbrev pub lines_of : List (Text × Text) → Text
lines_of [] = []
lines_of ((name, value) ∷ fields) = header_line name value ++ lines_of fields

-- The value of the first field whose name agrees with the wanted one in its first 8 bytes. The
-- carriage return of its line belongs to it.
abbrev pub first_field : Text → List (Text × Text) → Option Text
first_field header_name [] = none
first_field header_name ((name, value) ∷ fields) =
    if strn_eq pointer_size header_name name
    then some (skip_spaces (value ++ 13 ∷ []))
    else first_field header_name fields

cut_colon-append :
    (name rest : Text) → IsClear b':' name → cut_colon (name ++ b':' ∷ rest) ≡ some (name, rest)
unfolding cut_colon
cut_colon-append [] rest h = refl
cut_colon-append (c ∷ name) rest h = ground (arith, cut_colon-append name rest h.1)

-- A line without its line feed.
abbrev bare_line : Text → Text → Text
bare_line name value = name ++ (codes ": " ++ (value ++ 13 ∷ []))

skip_spaces_space : (s : Text) → skip_spaces (32 ∷ s) ≡ skip_spaces s
unfolding skip_spaces
skip_spaces_space s = refl

match_header_lem :
    (name value : Text)
    → name ≢ []
    → IsClear b':' name
    → match_header (bare_line name value) ≡ some (name, skip_spaces (value ++ 13 ∷ []))
unfolding match_header
match_header_lem [] value ne h = absurd (ne refl)
match_header_lem (c ∷ name) value ne h =
    rw (
      cut_colon-append (c ∷ name) (32 ∷ (value ++ 13 ∷ [])) h,
      skip_spaces_space (value ++ 13 ∷ []),
    )

bare_line-IsToken : (name value : Text) → IsField (name, value) → IsToken 10 (bare_line name value)
bare_line-IsToken name value f = (
  append-ne-nil name _ f.0,
  All-append _ name _ f.2
      (omega arith, (omega arith, All-append _ value (13 ∷ []) f.3 (omega arith, tt))),
)

header_line-bare :
    (name value rest : Text) → header_line name value ++ rest ≡ bare_line name value ++ 10 ∷ rest
header_line-bare name value rest = simp append_assoc

find_header_line :
    (header_name line field value : Text) (lines : List Text)
    → match_header line ≡ some (field, value)
    → find_header header_name (line ∷ lines) ≡ (
        if strn_eq pointer_size header_name field
        then some value
        else find_header header_name lines)
unfolding find_header
find_header_line header_name line field value lines e = rw (e, find_header) refl

find_header_blank :
    (header_name rest : Text) → find_header header_name (strtok 10 (crlf ++ rest)) ≡ none
find_header_blank header_name rest =
    rw (strtok-line 10 (13 ∷ []) rest ((λ e. cc), (omega arith, tt)))
      (unfold find_header match_header cut_colon in refl)

find_header-fields :
    (header_name : Text) (fields : List (Text × Text)) (rest : Text)
    → All IsField fields
    → find_header header_name (strtok 10 (lines_of fields ++ (crlf ++ rest)))
      ≡ first_field header_name fields
find_header-fields header_name [] rest h = find_header_blank header_name rest
find_header-fields header_name ((name, value) ∷ fields) rest (f, h) = rw (
  append_assoc (header_line name value) (lines_of fields) (crlf ++ rest),
  header_line-bare name value (lines_of fields ++ (crlf ++ rest)),
  strtok-line 10 (bare_line name value) (lines_of fields ++ (crlf ++ rest))
      (bare_line-IsToken name value f),
  find_header_line header_name (bare_line name value) name _ _
      (match_header_lem name value f.0 f.1),
  find_header-fields header_name fields rest h,
)

-- In a block of well formed header lines and the blank line that ends it, the lookup gives the value
-- of the first field whose name agrees with the wanted one in its first 8 bytes.
pub get_http_header_value-fields :
    (header_name : Text) (fields : List (Text × Text)) (rest : Text)
    → All IsField fields
    → get_http_header_value (lines_of fields ++ (crlf ++ rest)) header_name
      ≡ first_field header_name fields
unfolding get_http_header_value
get_http_header_value-fields header_name fields rest h =
    find_header-fields header_name fields rest h

-- A well formed Content-Type that stands first is taken for the Content-Length, whatever follows.
pub content_type_shadows :
    (value : Text) (fields : List (Text × Text)) (rest : Text)
    → All IsField ((codes "Content-Type", value) ∷ fields)
    → get_http_header_value
        (lines_of ((codes "Content-Type", value) ∷ fields) ++ (crlf ++ rest))
        (codes "Content-Length")
      ≡ some (skip_spaces (value ++ 13 ∷ []))
unfolding strn_eq
content_type_shadows value fields rest h =
    get_http_header_value-fields (codes "Content-Length") ((codes "Content-Type", value) ∷ fields)
      rest h
