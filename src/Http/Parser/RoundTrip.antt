-- ===== src/Http/Parser/RoundTrip.antt =====
-- A request that is written out as HTTP asks is read back.
use geo_ns_core.Common.{
  ℕ, ◌+◌, ◌%◌, ◌≤◌, ◌≡◌, ◌≢◌, refl, ◌∙◌, Bool, true, false, some, arith, ltb, ◌==◌, take, List, [],
  ◌∷◌, ◌++◌, All, length,
}
use geo_ns_core.Text.{Text, codes}
use geo_ns_core.Http.Header.Fields.{IsField, lines_of, first_field, get_http_header_value-fields}
use geo_ns_core.Text.Decimal.{decimal}
use geo_ns_core.Text.Strtol.{skip_spaces, strtol-skip_spaces, strtol-decimal, long_max, size_mod}
use geo_ns_core.Http.Method.{is_body_required}
use geo_ns_core.Http.Parser.{
  HttpConfig, HttpVersion, HttpRequest, request_of, content_length, receive_body, realloc_buffer,
  max_http_request_size, parsed, finish_request, parse_http_request,
}
use geo_ns_core.Http.Parser.Refused.{parse_http_request_found}
use geo_ns_core.Http.Parser.Format.{first_line, request_text}
use geo_ns_core.Http.Parser.Parts.{
  IsRequest, request_line_of, parse_request_line-words, find_line-request, find_blank-request,
  length-first_line, header_block, header_bytes, parse_at-short,
}

module _ (config : HttpConfig) (can_realloc : ℕ → Bool) (method uri : Text)
    (version : HttpVersion) where
  abbrev request_with : ℕ → List (Text × Text) → Text → HttpRequest
  request_with fd fields body =
      request_of fd (request_line_of method uri version) (length (first_line method uri version))
        (length (first_line method uri version) + (length (lines_of fields) + 3))
        (length (lines_of fields) + 3) (header_block method uri version fields body)

  -- What the parser makes of a request that fits: the offsets and the header block.
  parse_http_request-parts :
      (fd buffer_size : ℕ) (fields : List (Text × Text)) (body : Text)
      → IsRequest method uri version fields
      → parse_http_request config can_realloc fd buffer_size
          (request_text method uri version fields body)
        ≡ finish_request config can_realloc fd buffer_size
            (some (request_line_of method uri version))
            (length (first_line method uri version))
            (length (first_line method uri version) + (length (lines_of fields) + 3))
            (length (lines_of fields) + 3)
            (header_block method uri version fields body)
  parse_http_request-parts fd buffer_size fields body r =
      let buffer = request_text method uri version fields body in
      let line = length (first_line method uri version) in
      let size = length (lines_of fields) + 3 in
      let stem_line = length-first_line method uri version in
      parse_http_request_found config can_realloc fd buffer_size buffer _ _
        (find_blank-request method uri version fields body r)
        (find_line-request method uri version fields body r)
      ∙ parse_at-short config can_realloc fd buffer_size buffer _ line size
          (omega (arith, stem_line)) (omega (arith, stem_line, r.short_line, r.short_headers))
          r.short_headers
      ∙ (λ i.
          finish_request config can_realloc fd buffer_size
            (parse_request_line-words method uri version fields body r i) line (line + size) size
            (header_bytes method uri version fields body i))

  -- A request whose method needs no body, written out as HTTP asks with parts that fit their fields,
  -- is read back: the request has the method in upper case, the address, the version, the offsets of
  -- the parts and the block of headers, its body is empty, and the connection's buffer is emptied.
  pub parse_http_request-bodiless :
      (fd buffer_size : ℕ) (fields : List (Text × Text)) (body : Text)
      → IsRequest method uri version fields
      → (is_body_required method).0 ≡ false
      → parse_http_request config can_realloc fd buffer_size
          (request_text method uri version fields body)
        ≡ parsed
            (record {
              request_line = record {
                method = record { name = (is_body_required method).1; needs_body = false };
                uri = uri;
                version = version;
              };
              request_line_offset = length (first_line method uri version);
              headers_size = length (lines_of fields) + 3;
              headers = header_block method uri version fields body;
              headers_offset =
                  length (first_line method uri version) + (length (lines_of fields) + 3);
              body_size = 0;
              fd = fd;
            })
            (some buffer_size)
  parse_http_request-bodiless fd buffer_size fields body r bodiless =
      parse_http_request-parts fd buffer_size fields body r
      ∙ unfold finish_request in rw bodiless refl

  content_length-announced :
      (fields : List (Text × Text)) (body : Text) (n : ℕ)
      → All IsField fields
      → first_field (codes "Content-Length") fields ≡ some (skip_spaces (decimal n ++ 13 ∷ []))
      → n ≤ long_max
      → content_length (header_block method uri version fields body) ≡ n
  content_length-announced fields body n named announced small =
      let found =
        get_http_header_value-fields (codes "Content-Length") fields (take 1 body) named
        ∙ announced in
      let value =
        strtol-skip_spaces (decimal n ++ 13 ∷ []) ∙ strtol-decimal n (13 ∷ []) small refl in
      unfold content_length in rw (found, value, content_length) refl

  -- A request whose method needs a body, written out as HTTP asks with parts that fit their fields,
  -- and whose first field that agrees with Content-Length in 8 bytes announces `n` bytes, is read back
  -- with a body of `n` bytes, when `n` is not 0, the whole does not exceed the largest request and its
  -- buffer can be had; the receive has that size.
  pub parse_http_request-body :
      (fd buffer_size : ℕ) (fields : List (Text × Text)) (body : Text) (n : ℕ)
      → IsRequest method uri version fields
      → (is_body_required method).0 ≡ true
      → first_field (codes "Content-Length") fields ≡ some (skip_spaces (decimal n ++ 13 ∷ []))
      → n ≢ 0
      → length (first_line method uri version) + (length (lines_of fields) + 3) + n
        ≤ max_http_request_size
      → can_realloc (length (first_line method uri version) + (length (lines_of fields) + 3) + n)
        ≡ true
      → parse_http_request config can_realloc fd buffer_size
          (request_text method uri version fields body)
        ≡ parsed
            (record {
              request_line = record {
                method = record { name = (is_body_required method).1; needs_body = true };
                uri = uri;
                version = version;
              };
              request_line_offset = length (first_line method uri version);
              headers_size = length (lines_of fields) + 3;
              headers = header_block method uri version fields body;
              headers_offset =
                  length (first_line method uri version) + (length (lines_of fields) + 3);
              body_size = n;
              fd = fd;
            })
            (some (length (first_line method uri version) + (length (lines_of fields) + 3) + n))
  parse_http_request-body fd buffer_size fields body n r required announced full small given =
      let size = length (first_line method uri version) + (length (lines_of fields) + 3) in
      let total : (size + n) % size_mod ≡ size + n = omega arith in
      let fits : ltb max_http_request_size (size + n) ≡ false = ground arith in
      let some_bytes : (n == 0) ≡ false = ground arith in
      parse_http_request-parts fd buffer_size fields body r
      ∙ unfold finish_request receive_body realloc_buffer in
        rw
          (
            required,
            content_length-announced fields body n r.named_fields announced (omega arith),
            some_bytes,
            total,
            fits,
            given,
          )
          refl
