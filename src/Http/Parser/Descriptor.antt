-- ===== src/Http/Parser/Descriptor.antt =====
-- The descriptor of the request that is parsed.
use geo_ns_core.Common.{
  ℕ, ◌+◌, ◌-◌, ◌%◌, ◌≡◌, inl, inr, Bool, not, ◌&&◌, Option, none, some, arith, ltb, Bool-cases,
  Option-cases,
}
use geo_ns_core.Text.{Text, find, strtok}
use geo_ns_core.Http.Parser.{
  HttpConfig, RequestLine, Parsed, parsed, parse_http_request, finish_request, receive_body,
  realloc_buffer, parse_at, parse_request_line, ushort_mod, base_http_request_header_size,
}
use geo_ns_core.Http.Parser.Refused.{parse_http_request_found, line_end_of_blank}
use geo_ns_core.Text.Find.{blank_line}

abbrev pub HasFd : ℕ → Parsed → Type 0
HasFd fd (parsed request received) = request.fd ≡ fd
HasFd fd _ = Unit

module _ (config : HttpConfig) (can_realloc : ℕ → Bool) where
  finish_request-HasFd :
      (fd buffer_size : ℕ) (line : Option RequestLine) (lo ho hs : ℕ) (headers : Text)
      → HasFd fd (finish_request config can_realloc fd buffer_size line lo ho hs headers)
  unfolding finish_request receive_body realloc_buffer
  finish_request-HasFd fd buffer_size none lo ho hs headers = tt
  finish_request-HasFd fd buffer_size (some line) lo ho hs headers = ground arith

  parse_at-HasFd :
      (fd buffer_size : ℕ) (buffer : Text) (b e : ℕ)
      → HasFd fd (parse_at config can_realloc fd buffer_size buffer b e)
  unfolding parse_at
  parse_at-HasFd fd buffer_size buffer b e =
      let size = ((b + 4) % ushort_mod + ushort_mod - e % ushort_mod) % ushort_mod in
      let large = ltb base_http_request_header_size size in
      elim (Bool-cases (large && not config.trim_large_headers)) [
        | inl too_large ↦ rw too_large tt
        | inr fits ↦
            rw fits
              (finish_request-HasFd fd buffer_size (parse_request_line (strtok 10 buffer)) _ _ _ _)
      ]

  -- A request that is parsed has the descriptor of its connection.
  pub parse-HasFd :
      (fd buffer_size : ℕ) (buffer : Text)
      → HasFd fd (parse_http_request config can_realloc fd buffer_size buffer)
  parse-HasFd fd buffer_size buffer = elim (Option-cases (find buffer blank_line)) [
    | inl no_blank ↦ unfold parse_http_request in rw (no_blank, parse_http_request) tt
    | inr (b, hb) ↦
        let (e, he, le) = line_end_of_blank buffer b hb in
        rw (parse_http_request_found config can_realloc fd buffer_size buffer b e hb he)
          (parse_at-HasFd fd buffer_size buffer b e)
  ]
