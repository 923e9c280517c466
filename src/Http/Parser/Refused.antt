-- ===== src/Http/Parser/Refused.antt =====
-- Which requests the parser refuses, and on which it is undefined.
use geo_ns_core.Common.{
  ℕ, zero, suc, ◌+◌, ◌-◌, ◌%◌, ◌≤◌, ◌<◌, ◌≡◌, sym, ◌∙◌, take, ◌≢◌, refl, ◌⊎◌, inl, inr, Bool, true,
  false, ◌&&◌, not, [], ◌∷◌, Option, none, some, arith, drop, if◌then◌else◌, ◌^◌, Bool-cases,
  Option-cases, ltb, ◌==◌,
}
use mathlib.Core.Path.{subst}
use geo_ns_core.Text.{Text, strn_eq, find, strtok}
use geo_ns_core.Text.Find.{find_sound, find_complete, blank_line}
use geo_ns_core.Http.Parser.{
  HttpConfig, HttpRequest, RequestLine, request_of, Parsed, parsed, realloc_buffer,
  max_http_request_size, undefined, refused, base_http_request_header_size, receive_body,
  finish_request, parse_at, parse_http_request, parse_request_line,
}

feed_in_blank :
    (s : Text) (i : ℕ)
    → strn_eq 4 (drop i s) blank_line ≡ true
    → strn_eq 1 (drop (suc i) s) (10 ∷ []) ≡ true
unfolding strn_eq
feed_in_blank [] zero h = cc
feed_in_blank [] (suc i) h = cc
feed_in_blank (c ∷ []) zero h = ground arith
feed_in_blank (c ∷ d ∷ s) zero h = ground arith
feed_in_blank (c ∷ s) (suc i) h = feed_in_blank s i h

-- Where a blank line stands, the first line ends no later than its first line feed.
pub line_end_of_blank :
    (buffer : Text) (b : ℕ)
    → find buffer blank_line ≡ some b
    → (e : ℕ) × (find buffer (10 ∷ []) ≡ some e) × (e ≤ suc b)
line_end_of_blank buffer b h =
    find_complete buffer (10 ∷ []) (suc b)
      (feed_in_blank buffer b (find_sound buffer blank_line b h))

pub parse_http_request_found :
    (config : HttpConfig) (can_realloc : ℕ → Bool) (fd buffer_size : ℕ) (buffer : Text) (b e : ℕ)
    → find buffer blank_line ≡ some b
    → find buffer (10 ∷ []) ≡ some e
    → parse_http_request config can_realloc fd buffer_size buffer
      ≡ parse_at config can_realloc fd buffer_size buffer b e
unfolding parse_http_request
parse_http_request_found config can_realloc fd buffer_size buffer b e hb he =
    rw (hb, he, parse_http_request) refl

module _ (config : HttpConfig) (can_realloc : ℕ → Bool) where
  abbrev RefusedFor : (ℕ → Type 0) → Parsed → Type 0
  RefusedFor P (refused code) = P code
  RefusedFor P _ = Unit

  -- The size of the headers and the body, and the size of the buffer that is asked for.
  abbrev pub whole_size : HttpRequest → ℕ
  whole_size request = (request.headers_offset + request.body_size) % 2 ^ 64

  abbrev pub asked_size : HttpRequest → ℕ
  asked_size request =
      if ltb max_http_request_size (whole_size request) && ltb (whole_size request) (2 ^ 63)
      then max_http_request_size
      else whole_size request

  -- Why a request with a body is refused.
  abbrev pub BodyReason : HttpRequest → ℕ → Type 0
  BodyReason request code =
      ((code ≡ 413)
        × (config.trim_large_body ≡ false)
        × (max_http_request_size < whole_size request)
        × (whole_size request < 2 ^ 63))
      ⊎ ((code ≡ 500) × (can_realloc (asked_size request) ≡ false))

  -- The size of the block of headers, from the end of the first line to behind the blank line.
  abbrev pub block_size : ℕ → ℕ → ℕ
  block_size blank line_end = ((blank + 4) % 2 ^ 16 + 2 ^ 16 - line_end % 2 ^ 16) % 2 ^ 16

  abbrev pub kept_size : ℕ → ℕ → ℕ
  kept_size blank line_end =
      if ltb base_http_request_header_size (block_size blank line_end)
      then base_http_request_header_size
      else block_size blank line_end

  -- The request as far as it is known when its body is received.
  abbrev pub request_at : ℕ → Text → ℕ → ℕ → RequestLine → HttpRequest
  request_at fd buffer blank line_end line =
      request_of fd line (line_end % 2 ^ 16) ((blank + 4) % 2 ^ 16) (kept_size blank line_end)
        (take (kept_size blank line_end) (drop (line_end % 2 ^ 16 + 1) buffer))

  -- Why a request is refused whose blank line and first line feed stand there.
  abbrev pub Reason : ℕ → Text → ℕ → ℕ → ℕ → Type 0
  Reason fd buffer blank line_end code =
      ((code ≡ 431)
        × (config.trim_large_headers ≡ false)
        × (base_http_request_header_size < block_size blank line_end))
      ⊎ ((line : RequestLine) × (parse_request_line (strtok 10 buffer) ≡ some line)
          × (line.method.needs_body ≡ true)
          × BodyReason (request_at fd buffer blank line_end line) code)

  realloc_buffer-Reason :
      (request : HttpRequest) (n : ℕ)
      → RefusedFor
          (λ code. (code ≡ 500) × (can_realloc n ≡ false))
          (realloc_buffer config can_realloc request n)
  realloc_buffer-Reason request n = elim (Bool-cases (can_realloc n)) [
    | inl given ↦ unfold realloc_buffer in rw given tt
    | inr refused_size ↦ unfold realloc_buffer in rw refused_size (refl, refl)
  ]

  weaken :
      (P Q : ℕ → Type 0) (outcome : Parsed)
      → ((code : ℕ) → P code → Q code)
      → RefusedFor P outcome
      → RefusedFor Q outcome
  weaken P Q (refused code) h r = h code r
  weaken P Q undefined h r = tt
  weaken P Q (parsed request n) h r = tt

  receive_body-Reason :
      (request : HttpRequest)
      → RefusedFor (BodyReason request) (receive_body config can_realloc request)
  receive_body-Reason request =
      let size = whole_size request in
      let large = ltb max_http_request_size size && ltb size (2 ^ 63) in
      elim (Bool-cases (large && not config.trim_large_body)) [
        | inl too_large ↦
            unfold receive_body in
            rw too_large (inl (refl, (ground arith), (ground arith), (ground arith)))
        | inr fits ↦
            unfold receive_body in
            rw fits (
              weaken _ _ (realloc_buffer config can_realloc request (asked_size request))
                (λ code r. inr r) (realloc_buffer-Reason request (asked_size request)))
      ]

  finish_request-Reason :
      (fd buffer_size : ℕ) (buffer : Text) (b e : ℕ) (found : Option RequestLine)
      → parse_request_line (strtok 10 buffer) ≡ found
      → RefusedFor (Reason fd buffer b e) (
          finish_request config can_realloc fd buffer_size found
            (e % 2 ^ 16)
            ((b + 4) % 2 ^ 16)
            (kept_size b e)
            (take (kept_size b e) (drop (e % 2 ^ 16 + 1) buffer)))
  unfolding finish_request
  finish_request-Reason fd buffer_size buffer b e none is = tt
  finish_request-Reason fd buffer_size buffer b e (some line) is =
      let request = request_at fd buffer b e line in
      elim (Bool-cases (not line.method.needs_body)) [
        | inl bodiless ↦ rw bodiless tt
        | inr body ↦ elim (Bool-cases (request.body_size == 0)) [
          | inl empty ↦ rw (body, empty) tt
          | inr full ↦
              rw (body, full)
                (weaken _ _ (receive_body config can_realloc request)
                  (λ code r. inr (line, is, (ground arith), r)) (receive_body-Reason request))
        ]
      ]

  parse_at-Reason :
      (fd buffer_size : ℕ) (buffer : Text) (b e : ℕ)
      → RefusedFor (Reason fd buffer b e) (parse_at config can_realloc fd buffer_size buffer b e)
  unfolding parse_at
  parse_at-Reason fd buffer_size buffer b e =
      let large = ltb base_http_request_header_size (block_size b e) in
      elim (Bool-cases (large && not config.trim_large_headers)) [
        | inl too_large ↦ rw too_large (inl (refl, (ground arith), (ground arith)))
        | inr fits ↦ rw fits (
            finish_request-Reason fd buffer_size buffer b e (parse_request_line (strtok 10 buffer))
              refl)
      ]

  -- A request is refused only with 431, when large headers are not trimmed and its block of headers is
  -- larger than the limit; or, when it needs a body, with 413, when large bodies are not trimmed and it is
  -- larger than the limit, or with 500, when the buffer for it, or for the limit if it is larger, could
  -- not be had.
  pub parse_http_request-Reason :
      (fd buffer_size : ℕ) (buffer : Text) (code : ℕ)
      → parse_http_request config can_realloc fd buffer_size buffer ≡ refused code
      → (blank : ℕ) × (line_end : ℕ) × (find buffer blank_line ≡ some blank)
        × (find buffer (10 ∷ []) ≡ some line_end)
        × Reason fd buffer blank line_end code
  parse_http_request-Reason fd buffer_size buffer code h =
      elim (Option-cases (find buffer blank_line)) [
        | inl no_blank ↦
            let never : parse_http_request config can_realloc fd buffer_size buffer ≡ undefined =
              unfold parse_http_request in rw (no_blank, parse_http_request) refl in
            cc
        | inr (b, hb) ↦
            let (e, he, le) = line_end_of_blank buffer b hb in
            let same =
              parse_http_request_found config can_realloc fd buffer_size buffer b e hb he in
            (
              b,
              e,
              hb,
              he,
              subst (RefusedFor (Reason fd buffer b e)) (sym same ∙ h)
                  (parse_at-Reason fd buffer_size buffer b e),
            )
      ]

  pub parse_http_request-code :
      (fd buffer_size : ℕ) (buffer : Text) (code : ℕ)
      → parse_http_request config can_realloc fd buffer_size buffer ≡ refused code
      → (code ≡ 431) ⊎ (code ≡ 413) ⊎ (code ≡ 500)
  parse_http_request-code fd buffer_size buffer code h =
      code_of fd buffer (parse_http_request-Reason fd buffer_size buffer code h)
    where
      code_of :
          (fd : ℕ) (buffer : Text)
          → ((blank : ℕ) × (line_end : ℕ) × (find buffer blank_line ≡ some blank)
              × (find buffer (10 ∷ []) ≡ some line_end)
              × Reason fd buffer blank line_end code)
          → (code ≡ 431) ⊎ (code ≡ 413) ⊎ (code ≡ 500)
      code_of fd buffer (b, e, hb, he, inl r) = inl r.0
      code_of fd buffer (b, e, hb, he, inr (line, hl, hn, inl r)) = inr (inl r.0)
      code_of fd buffer (b, e, hb, he, inr (line, hl, hn, inr r)) = inr (inr r.0)

  finish_request-defined :
      (fd buffer_size : ℕ) (line : RequestLine) (lo ho hs : ℕ) (headers : Text)
      → finish_request config can_realloc fd buffer_size (some line) lo ho hs headers ≢ undefined
  unfolding finish_request receive_body realloc_buffer
  finish_request-defined fd buffer_size line lo ho hs headers = ground arith

  parse_at-defined :
      (fd buffer_size : ℕ) (buffer : Text) (b e : ℕ) (line : RequestLine)
      → parse_request_line (strtok 10 buffer) ≡ some line
      → parse_at config can_realloc fd buffer_size buffer b e ≢ undefined
  unfolding parse_at
  parse_at-defined fd buffer_size buffer b e line h =
      rw h (ground (arith, finish_request-defined fd buffer_size line))

  -- The parser is undefined only when the buffer holds no blank line, or when a part of the first line
  -- does not fit its field; and without a blank line it is undefined.
  parse_http_request-undefined :
      (fd buffer_size : ℕ) (buffer : Text)
      → (parse_http_request config can_realloc fd buffer_size buffer ≡ undefined
          → (find buffer blank_line ≡ none) ⊎ (parse_request_line (strtok 10 buffer) ≡ none))
        × (find buffer blank_line ≡ none
            → parse_http_request config can_realloc fd buffer_size buffer ≡ undefined)
  parse_http_request-undefined fd buffer_size buffer = (to, from)
    where
      from :
          find buffer blank_line ≡ none
          → parse_http_request config can_realloc fd buffer_size buffer ≡ undefined
      from h = unfold parse_http_request in rw (h, parse_http_request) refl

      to :
          parse_http_request config can_realloc fd buffer_size buffer ≡ undefined
          → (find buffer blank_line ≡ none) ⊎ (parse_request_line (strtok 10 buffer) ≡ none)
      to h = elim (Option-cases (find buffer blank_line)) [
        | inl no_blank ↦ inl no_blank
        | inr (b, hb) ↦ elim (Option-cases (parse_request_line (strtok 10 buffer))) [
          | inl no_line ↦ inr no_line
          | inr (line, hl) ↦
              let (e, he, le) = line_end_of_blank buffer b hb in
              absurd (
                parse_at-defined fd buffer_size buffer b e line hl (
                  rw (parse_http_request_found config can_realloc fd buffer_size buffer b e hb he)
                    at h))
        ]
      ]
