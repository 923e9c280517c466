-- ===== src/Http/Parser.antt =====
-- `parse_http_request` of src/libs/http/parser/parser.c. Buffers are read as C strings; where the
-- code computes with a null pointer, or reads a field that `strncpy` has left without its 0, the
-- model answers `undefined`. Allocation of the request succeeds; `can_realloc` says of which sizes
-- `realloc` gives a buffer.
pub mod Refused
pub mod Block
pub mod Format
pub mod Parts
pub mod RoundTrip
pub mod Descriptor
use geo_ns_core.Common.{
  ℕ, ◌+◌, ◌-◌, ◌%◌, ◌^◌, Bool, true, false, ◌&&◌, not, List, [], ◌∷◌, Option, none, some, ltb, leb,
  ◌==◌, if◌then◌else◌, length, take, drop,
}
use geo_ns_core.Text.{Text, codes, strn_eq, find, strtok}
use geo_ns_core.Text.Strtol.{strtol, size_mod}
use geo_ns_core.Http.Method.{is_body_required}
use geo_ns_core.Http.Header.{get_http_header_value}

pub data HttpVersion : Type 0 where
  http_0_9 http_1_0 http_1_1 http_2_0 http_3_0 unknown : HttpVersion

-- The switches of `HTTPConfig`.
pub record HttpConfig : Type 0 where
  pub accept_any_method : Bool
  pub directory_indexing : Bool
  pub trim_large_headers : Bool
  pub trim_large_body : Bool
  pub server_port : ℕ

pub record HttpMethod : Type 0 where
  pub name : Text
  pub needs_body : Bool

pub record RequestLine : Type 0 where
  pub method : HttpMethod
  pub uri : Text
  pub version : HttpVersion

pub record HttpRequest : Type 0 where
  pub request_line : RequestLine
  pub open request_line use *
  pub request_line_offset : ℕ
  pub headers_size : ℕ
  pub headers : Text
  pub headers_offset : ℕ
  pub body_size : ℕ
  pub fd : ℕ

-- `refused`: the status was sent and the connection killed. `parsed`: the request, and the size of the
-- receive that empties the socket, if there is one.
pub data Parsed : Type 0 where
  undefined : Parsed
  refused : ℕ → Parsed
  parsed : HttpRequest → Option ℕ → Parsed

abbrev pub max_http_method_length : ℕ
max_http_method_length = 16

abbrev pub max_http_uri_length : ℕ
max_http_uri_length = 2048

abbrev pub max_http_version_length : ℕ
max_http_version_length = 8

abbrev pub max_http_request_size : ℕ
max_http_request_size = 2 ^ 31 - 1

abbrev pub base_http_request_header_size : ℕ
base_http_request_header_size = 1023

abbrev pub ushort_mod : ℕ
ushort_mod = 2 ^ 16

-- The chain of `strncmp` on the third token.
unfoldable pub version_of : Text → HttpVersion
version_of token =
    if strn_eq max_http_version_length (codes "HTTP/0.9") token
    then http_0_9
    else if strn_eq max_http_version_length (codes "HTTP/1.0") token
    then http_1_0
    else if strn_eq max_http_version_length (codes "HTTP/1.1") token
    then http_1_1
    else if strn_eq max_http_version_length (codes "HTTP/2.0") token
    then http_2_0
    else if strn_eq max_http_version_length (codes "HTTP/3.0") token
    then http_3_0
    else unknown

-- The method token, which `is_body_required` turns to upper case.
abbrev pub method_of : Text → HttpMethod
method_of token =
    let (required, name) = is_body_required token in record { name = name; needs_body = required }

-- What `calloc` leaves in a field that no token fills.
abbrev pub no_method : HttpMethod
no_method = record { name = []; needs_body = false }

-- The tokens of the request line; `none`: a token does not fit its field.
unfoldable pub fill_request_line : List Text → Option RequestLine
unfolding version_of
fill_request_line [] = some (record { method = no_method; uri = []; version = http_0_9 })
fill_request_line (m ∷ []) =
    if ltb (length m) max_http_method_length
    then some (record { method = method_of m; uri = []; version = http_0_9 })
    else none
fill_request_line (m ∷ u ∷ []) =
    if ltb (length m) max_http_method_length && ltb (length u) max_http_uri_length
    then some (record { method = method_of m; uri = u; version = http_0_9 })
    else none
fill_request_line (m ∷ u ∷ v ∷ more) =
    if ltb (length m) max_http_method_length && ltb (length u) max_http_uri_length
    then some (record { method = method_of m; uri = u; version = version_of v })
    else none

-- The size of `request_line`.
abbrev pub max_request_line : ℕ
max_request_line = max_http_method_length + max_http_uri_length + max_http_version_length

-- The first line of the request, if there is one.
unfoldable pub parse_request_line : List Text → Option RequestLine
unfolding fill_request_line
parse_request_line [] = fill_request_line []
parse_request_line (line ∷ lines) =
    if ltb (length line) max_request_line then fill_request_line (strtok b' ' line) else none

-- The body size that the headers announce.
abbrev size_or_zero : Option ℕ → ℕ
size_or_zero none = 0
size_or_zero (some n) = n

unfoldable pub content_length : Text → ℕ
content_length headers = elim (get_http_header_value headers (codes "Content-Length")) [
  | none ↦ 0
  | some value ↦ size_or_zero (strtol value)
]

-- The request once its first line is read.
abbrev pub request_of : ℕ → RequestLine → ℕ → ℕ → ℕ → Text → HttpRequest
request_of fd line line_offset headers_offset headers_size headers = record {
  request_line = line;
  request_line_offset = line_offset;
  headers_size = headers_size;
  headers = headers;
  headers_offset = headers_offset;
  body_size = if line.method.needs_body then content_length headers else 0;
  fd = fd;
}

module _ (config : HttpConfig) (can_realloc : ℕ → Bool) where
  unfoldable pub realloc_buffer : HttpRequest → ℕ → Parsed
  realloc_buffer request size = if can_realloc size then parsed request (some size) else refused 500

  -- The part of the function that receives the body. `buffer_size` is signed: a sum from 2 ^ 63 on
  -- is negative and not too large.
  unfoldable pub receive_body : HttpRequest → Parsed
  unfolding realloc_buffer
  receive_body request =
      let buffer_size = (request.headers_offset + request.body_size) % size_mod in
      let too_large = ltb max_http_request_size buffer_size && ltb buffer_size (2 ^ 63) in
      if too_large && not config.trim_large_body
      then refused 413
      else realloc_buffer request (if too_large then max_http_request_size else buffer_size)

  -- What follows the request line. `buffer_size` is that of the connection.
  unfoldable pub finish_request : ℕ → ℕ → Option RequestLine → ℕ → ℕ → ℕ → Text → Parsed
  unfolding receive_body content_length
  finish_request fd buffer_size none line_offset headers_offset headers_size headers = undefined
  finish_request fd buffer_size (some line) line_offset headers_offset headers_size headers =
      let request = request_of fd line line_offset headers_offset headers_size headers in
      if not line.method.needs_body
      then parsed request (some buffer_size)
      else if request.body_size == 0
      then parsed request none
      else receive_body request

  -- The function from the offsets on.
  unfoldable pub parse_at : ℕ → ℕ → Text → ℕ → ℕ → Parsed
  unfolding finish_request parse_request_line
  parse_at fd buffer_size buffer body_start end_of_request_line =
      let line_offset = end_of_request_line % ushort_mod in
      let headers_offset = (body_start + 4) % ushort_mod in
      let headers_size = (headers_offset + ushort_mod - line_offset) % ushort_mod in
      let large = ltb base_http_request_header_size headers_size in
      if large && not config.trim_large_headers
      then refused 431
      else (let kept = (if large then base_http_request_header_size else headers_size) in
          finish_request fd buffer_size (parse_request_line (strtok 10 buffer)) line_offset
            headers_offset kept (take kept (drop (line_offset + 1) buffer)))

  unfoldable pub parse_http_request : ℕ → ℕ → Text → Parsed
  unfolding parse_at
  parse_http_request fd buffer_size buffer = elim (find buffer (13 ∷ 10 ∷ 13 ∷ 10 ∷ [])) [
    | none ↦ undefined
    | some body_start ↦ elim (find buffer (10 ∷ [])) [
      | none ↦ undefined
      | some end_of_request_line ↦ parse_at fd buffer_size buffer body_start end_of_request_line
    ]
  ]
