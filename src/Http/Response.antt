-- ===== src/Http/Response.antt =====
-- Responses: src/libs/http/response/response.c and the response functions of src/libs/http/http.c.
-- A buffer is the list of its bytes, and a write past its end is `none`. Memory allocation succeeds.
pub mod Bytes
use geo_ns_core.Common.{
  ℕ, zero, suc, ◌+◌, ◌-◌, List, [], ◌∷◌, ◌++◌, Option, none, some, ltb, leb, if◌then◌else◌, length,
  take, drop,
}
use geo_ns_core.Text.{Text, codes}
use geo_ns_core.Text.Decimal.{decimal}
use geo_ns_core.Http.Status.{get_reason_phrase}

pub record HttpResponse : Type 0 where
  pub status_code : ℕ
  pub reason_phrase : Text
  pub headers : Option Text
  pub body : Option (List ℕ)
  pub body_size : ℕ

abbrev pub crlf : Text
crlf = 13 ∷ 10 ∷ []

abbrev pub http_version : Text
http_version = codes "HTTP/1.1"

-- GEONS_WEBSERVER_INFO of a Linux build.
abbrev pub webserver_info : Text
webserver_info = codes "GeoNSWS/0.1.0 (GNU/Linux)"

-- "%s: %s\r\n"
abbrev pub header_line : Text → Text → Text
header_line name value = name ++ (codes ": " ++ (value ++ crlf))

-- `value` is what the format and its arguments print; `none` is a null pointer, the outer one of
-- `headers` among them. The result is the new `*headers` with the answer.
unfoldable pub set_http_response_header :
    Option (Option Text) → Option Text → Option Text → Option (Option Text) × ℕ
set_http_response_header none name value = (none, 0)
set_http_response_header (some headers) none value = (some headers, 0)
set_http_response_header (some headers) (some name) none = (some headers, 0)
set_http_response_header (some none) (some name) (some value) =
    (some (some (header_line name value)), 1)
set_http_response_header (some (some headers)) (some name) (some value) =
    (some (some (headers ++ header_line name value)), 1)

unfoldable pub create_http_response : ℕ → Text → Option (List ℕ) → ℕ → Option Text → HttpResponse
create_http_response status reason_phrase body body_size headers = record {
  status_code = status;
  reason_phrase = reason_phrase;
  headers = headers;
  body = body;
  body_size = body_size;
}

-- `headers != NULL ? *headers : NULL`
abbrev pub deref : Option (Option Text) → Option Text
deref none = none
deref (some headers) = headers

-- The response that `send_http_status_bodyless` sends.
unfoldable pub status_bodyless : ℕ → Option (Option Text) → HttpResponse
unfolding create_http_response
status_bodyless status_code headers =
    create_http_response status_code (get_reason_phrase status_code) (some []) 0 (deref headers)

-- The response that `send_http_status` sends.
unfoldable pub status_body : ℕ → List ℕ → ℕ → Option (Option Text) → HttpResponse
unfolding create_http_response
status_body status_code body body_size headers =
    create_http_response status_code (get_reason_phrase status_code)
      (some (if ltb 0 body_size then body else [])) body_size (deref headers)

abbrev pub header_text : Option Text → Text
header_text none = []
header_text (some headers) = headers

-- `snprintf` of a text into a buffer of `size` bytes: what stands in front of the 0.
abbrev pub snprintf : ℕ → Text → Text
snprintf size text = take (size - 1) text

abbrev pub server_header : Text
server_header = snprintf 64 (codes "Server: " ++ webserver_info)

-- "%s %d %s\r\n%s\r\n%s\r\n"
unfoldable pub response_head : HttpResponse → Text
response_head response =
    http_version
    ++ (codes " "
        ++ (decimal response.status_code
            ++ (codes " "
                ++ (response.reason_phrase
                    ++ (crlf
                        ++ (server_header ++ (crlf ++ (header_text response.headers ++ crlf))))))))

unfoldable pub headers_size : HttpResponse → ℕ
headers_size response =
    length http_version
    + 5
    + length response.reason_phrase
    + 2
    + length server_header
    + 2
    + length (header_text response.headers)
    + 2

abbrev pub zeros : ℕ → List ℕ
zeros zero = []
zeros (suc n) = 0 ∷ zeros n

-- Bytes written at an offset of a buffer.
unfoldable pub write_at : List ℕ → ℕ → List ℕ → Option (List ℕ)
write_at buffer offset bytes =
    if leb (offset + length bytes) (length buffer)
    then some (take offset buffer ++ (bytes ++ drop (offset + length bytes) buffer))
    else none

infixl 5 ◌>>=◌
abbrev pub ◌>>=◌ : Option (List ℕ) → (List ℕ → Option (List ℕ)) → Option (List ℕ)
none >>= f = none
some buffer >>= f = f buffer

-- `memcpy` of the body behind the head, where there is a body.
abbrev pub copy_body : List ℕ → ℕ → Option (List ℕ) → ℕ → Option (List ℕ)
copy_body buffer written none body_size = some buffer
copy_body buffer written (some body) body_size =
    if ltb 0 body_size then write_at buffer written (take body_size body) else some buffer

-- The buffer of `send_http_response`: the head is printed, the body is copied behind it, and the size
-- of both is sent.
unfoldable pub fill_buffer : Text → ℕ → Option (List ℕ) → ℕ → Option (List ℕ)
fill_buffer head size body body_size = do
  printed ← write_at (zeros (size + body_size + 1)) 0 (snprintf (size + 1) head ++ 0 ∷ [])
  filled ← copy_body printed (length head) body body_size
  some (take (size + body_size) filled)

-- The bytes that `send_http_response` hands to `send_message`; `none` is a write past the buffer.
unfoldable pub send_http_response : HttpResponse → Option (List ℕ)
send_http_response response =
    fill_buffer (response_head response) (headers_size response) response.body response.body_size
