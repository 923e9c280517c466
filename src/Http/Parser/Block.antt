-- ===== src/Http/Parser/Block.antt =====
-- Where the headers of a request stand in the buffer.
use Prim.Native.Nat.{min}
use mathlib.Core.Path.{subst}
use geo_ns_core.Common.{
  ℕ, ◌+◌, ◌-◌, ◌%◌, ◌<◌, ◌≤◌, ◌≡◌, ◌∙◌, sym, inl, inr, Bool, not, ◌&&◌, Option, none, some, arith,
  ltb, if◌then◌else◌, take, drop, Bool-cases, [], ◌∷◌,
}
use geo_ns_core.Text.{Text, find, strtok}
use geo_ns_core.Text.Find.{blank_line}
use geo_ns_core.Http.Parser.{
  HttpConfig, HttpRequest, RequestLine, Parsed, parsed, ushort_mod, base_http_request_header_size,
  receive_body, finish_request, parse_at, parse_http_request, parse_request_line, realloc_buffer,
}
use geo_ns_core.Http.Parser.Refused.{line_end_of_blank, parse_http_request_found}

-- The fields that a request takes over from the parts before it.
abbrev HasParts : ℕ → ℕ → ℕ → ℕ → Text → Parsed → Type 0
HasParts fd lo ho hs headers (parsed request received) =
    (request.fd ≡ fd)
    × (request.request_line_offset ≡ lo)
    × (request.headers_offset ≡ ho)
    × (request.headers_size ≡ hs)
    × (request.headers ≡ headers)
HasParts fd lo ho hs headers _ = Unit

module _ (config : HttpConfig) (can_realloc : ℕ → Bool) where
  finish_request-HasParts :
      (fd buffer_size : ℕ) (line : Option RequestLine) (lo ho hs : ℕ) (headers : Text)
      → HasParts fd lo ho hs headers
          (finish_request config can_realloc fd buffer_size line lo ho hs headers)
  unfolding finish_request receive_body realloc_buffer
  finish_request-HasParts fd buffer_size none lo ho hs headers = tt
  finish_request-HasParts fd buffer_size (some line) lo ho hs headers = ground arith

  abbrev kept_size : ℕ → ℕ → ℕ
  kept_size b e =
      let size = ((b + 4) % ushort_mod + ushort_mod - e % ushort_mod) % ushort_mod in
      if ltb base_http_request_header_size size then base_http_request_header_size else size

  parse_at-HasParts :
      (fd buffer_size : ℕ) (buffer : Text) (b e : ℕ)
      → HasParts fd
          (e % ushort_mod)
          ((b + 4) % ushort_mod)
          (kept_size b e)
          (take (kept_size b e) (drop (e % ushort_mod + 1) buffer))
          (parse_at config can_realloc fd buffer_size buffer b e)
  unfolding parse_at
  parse_at-HasParts fd buffer_size buffer b e =
      let size = ((b + 4) % ushort_mod + ushort_mod - e % ushort_mod) % ushort_mod in
      let large = ltb base_http_request_header_size size in
      elim (Bool-cases (large && not config.trim_large_headers)) [
        | inl too_large ↦ rw too_large tt
        | inr fits ↦ rw fits (
            finish_request-HasParts fd buffer_size (parse_request_line (strtok 10 buffer))
              (e % ushort_mod) ((b + 4) % ushort_mod) (kept_size b e)
              (take (kept_size b e) (drop (e % ushort_mod + 1) buffer)))
      ]

  -- The blank line stands at `b`, and `b + 4` fits 16 bits. Then the first line ends at some `e`, at most
  -- `b + 1`; the request keeps these offsets, and its headers are the bytes from `e + 1` on, as many as
  -- `b + 4 - e` but at most 1023. As the first of them is that at `e + 1`, the last is that at `b + 4`:
  -- the first byte behind the blank line is among them.
  pub parse_http_request-headers :
      (fd buffer_size : ℕ) (buffer : Text) (b : ℕ) (request : HttpRequest) (received : Option ℕ)
      → find buffer blank_line ≡ some b
      → b + 4 < ushort_mod
      → parse_http_request config can_realloc fd buffer_size buffer ≡ parsed request received
      → (e : ℕ) × (find buffer (10 ∷ []) ≡ some e)
        × (e ≤ b + 1)
        × (request.fd ≡ fd)
        × (request.request_line_offset ≡ e)
        × (request.headers_offset ≡ b + 4)
        × (request.headers_size ≡ min (b + 4 - e) base_http_request_header_size)
        × (request.headers ≡ take request.headers_size (drop (e + 1) buffer))
  parse_http_request-headers fd buffer_size buffer b request received hb fits h =
      let (e, he, le) = line_end_of_blank buffer b hb in
      let parts : HasParts fd (e % ushort_mod) ((b + 4) % ushort_mod) (kept_size b e)
          (take (kept_size b e) (drop (e % ushort_mod + 1) buffer)) (parsed request received) =
        subst
          (HasParts fd (e % ushort_mod) ((b + 4) % ushort_mod) (kept_size b e)
            (take (kept_size b e) (drop (e % ushort_mod + 1) buffer)))
          (sym (parse_http_request_found config can_realloc fd buffer_size buffer b e hb he) ∙ h)
          (parse_at-HasParts fd buffer_size buffer b e) in
      let line_offset : e % ushort_mod ≡ e = omega arith in
      (
        e,
        he,
        omega arith,
        parts.0,
        parts.1 ∙ line_offset,
        omega (arith, parts.2),
        parts.3 ∙ ground arith,
        parts.4 ∙ (λ i. take (sym parts.3 i) (drop (line_offset i + 1) buffer)),
      )
