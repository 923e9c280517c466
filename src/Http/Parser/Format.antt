-- ===== src/Http/Parser/Format.antt =====
-- Requests written out as HTTP asks: their words, and where their blank line stands.
use geo_ns_core.Common.{
  ◌+◌, ◌≡◌, refl, ◌∙◌, ap, some, arith, List, [], ◌∷◌, ◌++◌, All, All-append, length, length-append,
  append_assoc,
}
use geo_ns_core.Text.{Text, codes, find, strtok, strn_eq}
use geo_ns_core.Text.Tokens.{IsClear, IsToken, strtok-line, strtok-token}
use geo_ns_core.Text.Find.{blank_line, find_behind_line, find-blank_line, StartsBlank, shifted}
use geo_ns_core.Http.Response.{crlf, header_line}
use geo_ns_core.Http.Header.Fields.{IsField, lines_of}
use geo_ns_core.Http.Parser.{
  HttpVersion, http_0_9, http_1_0, http_1_1, http_2_0, http_3_0, unknown, version_of,
}

abbrev pub version_text : HttpVersion → Text
version_text http_0_9 = codes "HTTP/0.9"
version_text http_1_0 = codes "HTTP/1.0"
version_text http_1_1 = codes "HTTP/1.1"
version_text http_2_0 = codes "HTTP/2.0"
version_text http_3_0 = codes "HTTP/3.0"
version_text unknown = codes "HTTP/9.9"

pub version_of-text :
    (version : HttpVersion) → version_of (version_text version ++ 13 ∷ []) ≡ version
unfolding version_of strn_eq
version_of-text http_0_9 = refl
version_of-text http_1_0 = refl
version_of-text http_1_1 = refl
version_of-text http_2_0 = refl
version_of-text http_3_0 = refl
version_of-text unknown = refl

-- A request line without its line feed.
abbrev pub first_line : Text → Text → HttpVersion → Text
first_line method uri version = method ++ b' ' ∷ (uri ++ b' ' ∷ (version_text version ++ 13 ∷ []))

-- A request: the first line, the header lines, the blank line and the body.
abbrev pub request_text : Text → Text → HttpVersion → List (Text × Text) → Text → Text
request_text method uri version fields body =
    first_line method uri version ++ 10 ∷ (lines_of fields ++ (crlf ++ body))

-- A word of the request line.
abbrev pub IsWord : Text → Type 0
IsWord word = IsToken b' ' word × IsClear 10 word

pub version_line-IsToken : (version : HttpVersion) → IsToken b' ' (version_text version ++ 13 ∷ [])
version_line-IsToken http_0_9 = ((λ e. cc), omega arith)
version_line-IsToken http_1_0 = ((λ e. cc), omega arith)
version_line-IsToken http_1_1 = ((λ e. cc), omega arith)
version_line-IsToken http_2_0 = ((λ e. cc), omega arith)
version_line-IsToken http_3_0 = ((λ e. cc), omega arith)
version_line-IsToken unknown = ((λ e. cc), omega arith)

pub first_line-words :
    (method uri : Text) (version : HttpVersion)
    → IsWord method
    → IsWord uri
    → strtok b' ' (first_line method uri version)
      ≡ method ∷ uri ∷ (version_text version ++ 13 ∷ []) ∷ []
first_line-words method uri version hm hu = rw (
  strtok-line b' ' method (uri ++ b' ' ∷ (version_text version ++ 13 ∷ [])) hm.0,
  strtok-line b' ' uri (version_text version ++ 13 ∷ []) hu.0,
  strtok-token b' ' (version_text version ++ 13 ∷ []) (version_line-IsToken version),
)

-- A line without its end, and what follows it.
abbrev stem : Text → Text → Text
stem name value = name ++ (codes ": " ++ value)

header_line-stem :
    (name value rest : Text)
    → header_line name value ++ rest ≡ (stem name value ++ 13 ∷ []) ++ 10 ∷ rest
header_line-stem name value rest = simp append_assoc

stem-IsClear : (name value : Text) → IsField (name, value) → IsClear 10 (stem name value)
stem-IsClear name value f = All-append _ name _ f.2 (omega arith, (omega arith, f.3))

not-StartsBlank :
    (name value rest : Text)
    → IsField (name, value)
    → ¬ StartsBlank (header_line name value ++ rest)
unfolding strn_eq
not-StartsBlank [] value rest f h = f.0 refl
not-StartsBlank (c ∷ []) value rest f h = ground arith
not-StartsBlank (c ∷ d ∷ name) value rest f h = ground arith

length-header_line :
    (name value : Text) → length (header_line name value) ≡ length (stem name value) + 2
length-header_line name value = simp length-append (omega arith)

-- The blank line of a block of header lines is the one behind the last of them.
pub find_blank-fields :
    (t : Text) (fields : List (Text × Text)) (body : Text)
    → IsClear 10 t
    → All IsField fields
    → find ((t ++ 13 ∷ []) ++ 10 ∷ (lines_of fields ++ (crlf ++ body))) blank_line
      ≡ some (length t + length (lines_of fields))
find_blank-fields t [] body c h =
    rw (append_assoc t (13 ∷ []) (10 ∷ 13 ∷ 10 ∷ body))
      (find-blank_line t body c ∙ ap some (omega arith))
find_blank-fields t ((name, value) ∷ fields) body c (f, h) =
    let rest = lines_of fields ++ (crlf ++ body) in
    rw (append_assoc (header_line name value) (lines_of fields) (crlf ++ body)) (
      find_behind_line (t ++ 13 ∷ []) (header_line name value ++ rest)
        (All-append _ t (13 ∷ []) c (omega arith, tt)) (not-StartsBlank name value rest f)
      ∙ ap (λ x. shifted (length (t ++ 13 ∷ []) + 1) (find x blank_line))
          (header_line-stem name value rest)
      ∙ ap (shifted (length (t ++ 13 ∷ []) + 1))
          (find_blank-fields (stem name value) fields body (stem-IsClear name value f) h)
      ∙ ap some (
          omega (
            arith,
            length-append t (13 ∷ []),
            length-append (header_line name value) (lines_of fields),
            length-header_line name value,
          )))
