-- ===== src/Http/Header.antt =====
-- `get_http_header_value` of src/libs/http/http.c. The regular expression of a line,
-- "^([^:]+):[[:space:]]*(.*)$", is read as POSIX defines it. Memory allocation succeeds and the
-- expression compiles.
pub mod Fields
use geo_ns_core.Common.{
  ℕ, Bool, true, false, List, [], ◌∷◌, Option, none, some, ◌==◌, if◌then◌else◌,
}
use geo_ns_core.Text.{Text, strn_eq, strtok}
use geo_ns_core.Text.Strtol.{skip_spaces}

abbrev before : ℕ → Option (Text × Text) → Option (Text × Text)
before c none = none
before c (some (name, rest)) = some (c ∷ name, rest)

-- A text cut at its first colon.
unfoldable pub cut_colon : Text → Option (Text × Text)
cut_colon [] = none
cut_colon (c ∷ s) = if c == b':' then some ([], s) else before c (cut_colon s)

abbrev pub groups : Option (Text × Text) → Option (Text × Text)
groups none = none
groups (some ([], rest)) = none
groups (some (c ∷ name, rest)) = some (c ∷ name, skip_spaces rest)

-- The two groups that `regexec` gives for a line.
unfoldable pub match_header : Text → Option (Text × Text)
unfolding cut_colon
match_header line = groups (cut_colon line)

-- `sizeof(header_field_name)`, the size of a pointer.
abbrev pub pointer_size : ℕ
pointer_size = 8

-- The loop: a line that does not match ends it.
unfoldable pub find_header : Text → List Text → Option Text
unfolding match_header
find_header header_name [] = none
find_header header_name (line ∷ lines) = elim (match_header line) [
  | none ↦ none
  | some (field, value) ↦
      if strn_eq pointer_size header_name field then some value else find_header header_name lines
]

unfoldable pub get_http_header_value : Text → Text → Option Text
unfolding find_header
get_http_header_value headers header_name = find_header header_name (strtok 10 headers)
