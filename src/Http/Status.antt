-- ===== src/Http/Status.antt =====
-- The status table of src/libs/http/http.c and `get_reason_phrase`.
pub mod Phrases
use Prim.Native.String.{String}
use geo_ns_core.Common.{ℕ, List, [], ◌∷◌, ◌==◌, if◌then◌else◌}
use geo_ns_core.Text.{Text, codes}

pub record HttpStatusCode : Type 0 where
  pub code : ℕ
  pub reason_phrase : Text

abbrev status : ℕ → String → HttpStatusCode
status n s = record { code = n; reason_phrase = codes s }

abbrev pub http_statuses : List HttpStatusCode
http_statuses =
    status 100 "Continue"
    ∷ status 101 "Switching Protocols"
    ∷ status 102 "Processing"
    ∷ status 103 "Early Hints"
    ∷ status 200 "OK"
    ∷ status 201 "Created"
    ∷ status 202 "Accepted"
    ∷ status 203 "Non-Authoritative Information"
    ∷ status 204 "No Content"
    ∷ status 205 "Reset Content"
    ∷ status 206 "Partial Content"
    ∷ status 207 "Multi-Status"
    ∷ status 208 "Already Reported"
    ∷ status 226 "IM Used"
    ∷ status 300 "Multiple Choices"
    ∷ status 301 "Moved Permanently"
    ∷ status 302 "Found"
    ∷ status 303 "See Other"
    ∷ status 304 "Not Modified"
    ∷ status 305 "Use Proxy"
    ∷ status 307 "Temporary Redirect"
    ∷ status 308 "Permanent Redirect"
    ∷ status 400 "Bad Request"
    ∷ status 401 "Unauthorized"
    ∷ status 402 "Payment Required"
    ∷ status 403 "Forbidden"
    ∷ status 404 "Not Found"
    ∷ status 405 "Method Not Allowed"
    ∷ status 406 "Not Acceptable"
    ∷ status 407 "Proxy Authentication Required"
    ∷ status 408 "Request Timeout"
    ∷ status 409 "Conflict"
    ∷ status 410 "Gone"
    ∷ status 411 "Length Required"
    ∷ status 412 "Precondition Failed"
    ∷ status 413 "Payload Too Large"
    ∷ status 414 "URI Too Long"
    ∷ status 415 "Unsupported Media Type"
    ∷ status 416 "Range Not Satisfiable"
    ∷ status 417 "Expectation Failed"
    ∷ status 418 "I'm a Teapot"
    ∷ status 421 "Misdirected Request"
    ∷ status 422 "Unprocessable Entity"
    ∷ status 423 "Locked"
    ∷ status 424 "Failed Dependency"
    ∷ status 425 "Too Early"
    ∷ status 426 "Upgrade Required"
    ∷ status 428 "Precondition Required"
    ∷ status 429 "Too Many Requests"
    ∷ status 431 "Request Header Fields Too Large"
    ∷ status 451 "Unavailable For Legal Reasons"
    ∷ status 500 "Internal Server Error"
    ∷ status 501 "Not Implemented"
    ∷ status 502 "Bad Gateway"
    ∷ status 503 "Service Unavailable"
    ∷ status 504 "Gateway Timeout"
    ∷ status 505 "HTTP Version Not Supported"
    ∷ status 506 "Variant Also Negotiates"
    ∷ status 507 "Insufficient Storage"
    ∷ status 508 "Loop Detected"
    ∷ status 510 "Not Extended"
    ∷ status 511 "Network Authentication Required"
    ∷ []

-- The loop of `get_reason_phrase` over the entries from index `i` on.
unfoldable pub find_phrase : List HttpStatusCode → ℕ → Text
find_phrase [] status_code = codes "Unknown Status Code"
find_phrase (e ∷ es) status_code =
    if e.code == status_code then e.reason_phrase else find_phrase es status_code

unfoldable pub get_reason_phrase : ℕ → Text
unfolding find_phrase
get_reason_phrase status_code = find_phrase http_statuses status_code
