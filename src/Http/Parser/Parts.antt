-- ===== src/Http/Parser/Parts.antt =====
-- The parts of a request that is written out as HTTP asks, as `parse_http_request` of
-- src/libs/http/parser/parser.c finds them: its words, its offsets and its block of headers.
use geo_ns_core.Common.{
  ℕ, ◌+◌, ◌-◌, ◌%◌, ◌<◌, ◌≤◌, ◌≡◌, refl, ◌∙◌, sym, ap, Bool, false, some, arith, ltb, take, drop,
  List, [], ◌∷◌, ◌++◌, All, All-append, length, length-append, append_assoc, append-ne-nil, lt→ltb,
  take-append_add, drop-append,
}
use geo_ns_core.Text.{Text, find, strtok}
use geo_ns_core.Text.Tokens.{IsClear, IsToken, strtok-line}
use geo_ns_core.Text.Find.{blank_line, find_line_feed}
use geo_ns_core.Http.Response.{crlf}
use geo_ns_core.Http.Header.Fields.{IsField, lines_of}
use geo_ns_core.Http.Parser.{
  HttpConfig, HttpVersion, RequestLine, ushort_mod, base_http_request_header_size, finish_request,
  parse_at, parse_request_line, fill_request_line, method_of, max_http_method_length,
  max_http_uri_length, max_request_line,
}
use geo_ns_core.Http.Parser.Format.{
  version_text, version_of-text, first_line, request_text, IsWord, first_line-words,
  find_blank-fields,
}

version_text-IsClear : (version : HttpVersion) → IsClear 10 (version_text version)
version_text-IsClear HttpVersion.http_0_9 = omega arith
version_text-IsClear HttpVersion.http_1_0 = omega arith
version_text-IsClear HttpVersion.http_1_1 = omega arith
version_text-IsClear HttpVersion.http_2_0 = omega arith
version_text-IsClear HttpVersion.http_3_0 = omega arith
version_text-IsClear HttpVersion.unknown = omega arith

-- A request that fits the fields of the parser.
pub record IsRequest (method uri : Text) (version : HttpVersion) (fields : List (Text × Text))
    : Type 0 where
  pub method_word : IsWord method
  pub uri_word : IsWord uri
  pub short_method : length method < max_http_method_length
  pub short_uri : length uri < max_http_uri_length
  pub short_line : length (first_line method uri version) < max_request_line
  pub named_fields : All IsField fields
  pub short_headers : length (lines_of fields) + 3 ≤ base_http_request_header_size

module _ (method uri : Text) (version : HttpVersion) where
  abbrev pub line_stem : Text
  line_stem = method ++ b' ' ∷ (uri ++ b' ' ∷ version_text version)

  first_line-stem : first_line method uri version ≡ line_stem ++ 13 ∷ []
  first_line-stem = simp append_assoc

  line_stem-IsClear : IsClear 10 method → IsClear 10 uri → IsClear 10 line_stem
  line_stem-IsClear m u =
      All-append _ method _ m
        (omega arith, All-append _ uri _ u (omega arith, version_text-IsClear version))

  abbrev pub request_line_of : RequestLine
  request_line_of = record { method = method_of method; uri = uri; version = version }

  first_line-IsToken : IsWord method → IsWord uri → IsToken 10 (first_line method uri version)
  first_line-IsToken m u = (
    append-ne-nil method _ m.0.0,
    rw first_line-stem (All-append _ line_stem _ (line_stem-IsClear m.1 u.1) (omega arith, tt)),
  )

  pub parse_request_line-words :
      (fields : List (Text × Text)) (body : Text)
      → IsRequest method uri version fields
      → parse_request_line (strtok 10 (request_text method uri version fields body))
        ≡ some request_line_of
  unfolding parse_request_line fill_request_line
  parse_request_line-words fields body r = rw (
    strtok-line 10 (first_line method uri version) (lines_of fields ++ (crlf ++ body))
        (first_line-IsToken r.method_word r.uri_word),
    lt→ltb (length (first_line method uri version)) max_request_line r.short_line,
    first_line-words method uri version r.method_word r.uri_word,
    lt→ltb (length method) max_http_method_length r.short_method,
    lt→ltb (length uri) max_http_uri_length r.short_uri,
    version_of-text version,
  )

  pub find_line-request :
      (fields : List (Text × Text)) (body : Text)
      → IsRequest method uri version fields
      → find (request_text method uri version fields body) (10 ∷ [])
        ≡ some (length (first_line method uri version))
  find_line-request fields body r =
      find_line_feed (first_line method uri version) (lines_of fields ++ (crlf ++ body))
        (first_line-IsToken r.method_word r.uri_word).1

  pub find_blank-request :
      (fields : List (Text × Text)) (body : Text)
      → IsRequest method uri version fields
      → find (request_text method uri version fields body) blank_line
        ≡ some (length line_stem + length (lines_of fields))
  find_blank-request fields body r = rw first_line-stem (
      find_blank-fields line_stem fields body (line_stem-IsClear r.method_word.1 r.uri_word.1)
        r.named_fields)

  pub length-first_line : length (first_line method uri version) ≡ length line_stem + 1
  length-first_line = ap length first_line-stem ∙ length-append line_stem (13 ∷ [])

  -- The bytes of the header block, the blank line and the first byte behind it.
  abbrev pub header_block : List (Text × Text) → Text → Text
  header_block fields body = lines_of fields ++ (crlf ++ take 1 body)

  pub header_bytes :
      (fields : List (Text × Text)) (body : Text)
      → take (length (lines_of fields) + 3) (
          drop
            (length (first_line method uri version) + 1)
            (request_text method uri version fields body))
        ≡ header_block fields body
  header_bytes fields body =
      let rest = lines_of fields ++ (crlf ++ body) in
      let line = first_line method uri version in
      ap (take (length (lines_of fields) + 3)) (
        ap (drop (length line + 1)) (sym (append_assoc line (10 ∷ []) rest))
        ∙ drop-append (line ++ 10 ∷ []) rest (length line + 1) (sym (length-append line (10 ∷ []))))
      ∙ take-append_add (lines_of fields) (crlf ++ body) (length (lines_of fields)) 3
          (length (lines_of fields) + 3) refl refl

pub parse_at-short :
    (config : HttpConfig) (can_realloc : ℕ → Bool) (fd buffer_size : ℕ) (buffer : Text) (b e n : ℕ)
    → b + 4 ≡ e + n
    → b + 4 < ushort_mod
    → n ≤ base_http_request_header_size
    → parse_at config can_realloc fd buffer_size buffer b e
      ≡ finish_request config can_realloc fd buffer_size
          (parse_request_line (strtok 10 buffer))
          e
          (e + n)
          n
          (take n (drop (e + 1) buffer))
parse_at-short config can_realloc fd buffer_size buffer b e n sum short few =
    let line_offset : e % ushort_mod ≡ e = omega arith in
    let headers_offset : (b + 4) % ushort_mod ≡ e + n = omega arith in
    let size : (e + n + ushort_mod - e) % ushort_mod ≡ n = omega arith in
    let small : ltb base_http_request_header_size n ≡ false = ground arith in
    unfold parse_at in rw (line_offset, headers_offset, size, small) refl
