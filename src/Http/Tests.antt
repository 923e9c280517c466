-- ===== src/Http/Tests.antt =====
-- The theorems on src/libs/http at concrete requests, routes and responses.
use geo_ns_core.Http.Callback.Thread.{handle_client-closes_twice}
use geo_ns_core.Socket.Balance.{closes}
use geo_ns_core.Socket.{SocketConnection, connection_established, handle_client}
use geo_ns_core.Common.{
  ℕ, ◌≡◌, ◌≤◌, ◌+◌, ◌-◌, refl, ◌↔◌, Bool, true, false, List, [], ◌∷◌, ◌++◌, none, some, map, arith,
  take, drop,
}
use geo_ns_core.Text.{Text, codes, strn_eq, find, strtok, toupper}
use geo_ns_core.Text.Decimal.{decimal, decimal_from}
use geo_ns_core.Text.Strtol.{skip_spaces, strtol}
use geo_ns_core.Io.{System, FileKind}
use geo_ns_core.Socket.{success}
use geo_ns_core.Http.Method.{is_standard_http_method, is_body_required}
use geo_ns_core.Http.Method.Prefixes.{Begins, counted_methods, is_standard_http_method_iff}
use geo_ns_core.Http.Parser.{HttpConfig, http_1_1, HttpRequest, parsed, parse_http_request}
use geo_ns_core.Http.Parser.Block.{parse_http_request-headers}
use geo_ns_core.Http.Parser.Refused.{Reason, parse_http_request-Reason}
use geo_ns_core.Text.Find.{blank_line}
use Prim.Native.Nat.{min}
use geo_ns_core.Http.Parser.Format.{request_text}
use geo_ns_core.Http.Parser.Parts.{IsRequest}
use geo_ns_core.Http.Parser.RoundTrip.{parse_http_request-body, parse_http_request-bodiless}
use geo_ns_core.Http.Header.{get_http_header_value}
use geo_ns_core.Http.Header.Fields.{lines_of, content_type_shadows}
use geo_ns_core.Http.Response.{crlf, HttpResponse, response_head, send_http_response}
use geo_ns_core.Http.Response.Bytes.{send_http_response-bytes}
use geo_ns_core.Http.Router.Table.{empty_server, web_server, setup_table}
use geo_ns_core.Http.Callback.{http_server_callback, handled, sent, killed, page, home_body}
use geo_ns_core.Http.Callback.Answer.{IsHandled, http_server_callback-IsHandled}
use geo_ns_core.Http.Callback.Home.{http_server_callback-home}

abbrev config : HttpConfig
config = record {
  accept_any_method = false;
  directory_indexing = false;
  trim_large_headers = false;
  trim_large_body = false;
  server_port = 8000;
}

abbrev can_realloc : ℕ → Bool
can_realloc size = true

abbrev system : System
system = record {
  kind = λ path. FileKind.missing;
  content = λ path. none;
  entries = λ path. none;
  mime_type = λ path. none;
  has_memory = λ size. true;
}

abbrev public_dir : Text
public_dir = codes "/www"

abbrev host : List (Text × Text)
host = (codes "Host", codes "node") ∷ []

abbrev get_text : Text
get_text = request_text (codes "GET") (codes "/") http_1_1 host []

get_IsRequest : IsRequest (codes "GET") (codes "/") http_1_1 host
get_IsRequest = record {
  method_word = (((λ e. cc), omega arith), omega arith);
  uri_word = (((λ e. cc), omega arith), omega arith);
  short_method = omega arith;
  short_uri = omega arith;
  short_line = omega arith;
  named_fields = (((λ e. cc), omega arith, omega arith, omega arith), tt);
  short_headers = omega arith;
}

http_server_callback-IsHandled_example :
    IsHandled 5
      (http_server_callback system config can_realloc (empty_server public_dir) 5 4095 get_text)
http_server_callback-IsHandled_example =
    http_server_callback-IsHandled system config can_realloc (empty_server public_dir) 5 4095
      get_text

http_server_callback-home_example :
    http_server_callback system config can_realloc (web_server public_dir) 5 4095 get_text
    ≡ handled (sent 5 (page (codes "text/html") home_body) ∷ killed 5 ∷ []) success
http_server_callback-home_example =
    http_server_callback-home system config can_realloc public_dir (web_server public_dir) 5 4095
      host [] (setup_table public_dir) get_IsRequest

-- The connection on the descriptor 5.
abbrev client : SocketConnection
client = record {
  address = 100;
  fd = 5;
  peer_info = none;
  connection_status = connection_established;
  buffer_size_limit = 4095;
  buffer = none;
}

handle_client-closes_twice_example :
    closes 5
      (handle_client true
        (record { buffer_size = 40; callback_result = success; callback_closes = 5 ∷ [] } ∷ [])
        client
        (client ∷ [])).1
    ≡ 2
handle_client-closes_twice_example =
    handle_client-closes_twice system config can_realloc (web_server public_dir) 4095 40 get_text
      (sent 5 (page (codes "text/html") home_body) ∷ killed 5 ∷ []) success [] [] client [] refl tt
      (http_server_callback-home system config can_realloc public_dir (web_server public_dir) 5 4095
        host [] (setup_table public_dir) get_IsRequest)

parse_http_request-bodiless_example :
    parse_http_request config can_realloc 5 4095 get_text
    ≡ parsed
        (record {
          request_line = record {
            method = record { name = codes "GET"; needs_body = false };
            uri = codes "/";
            version = http_1_1;
          };
          request_line_offset = 15;
          headers_size = 15;
          headers = lines_of host ++ crlf;
          headers_offset = 30;
          body_size = 0;
          fd = 5;
        })
        (some 4095)
unfolding is_body_required strn_eq toupper
parse_http_request-bodiless_example =
    parse_http_request-bodiless config can_realloc (codes "GET") (codes "/") http_1_1 5 4095 host []
      get_IsRequest refl

abbrev five : List (Text × Text)
five = (codes "Content-Length", codes "5") ∷ []

abbrev post_text : Text
post_text = request_text (codes "POST") (codes "/about") http_1_1 five (codes "hello")

post_IsRequest : IsRequest (codes "POST") (codes "/about") http_1_1 five
post_IsRequest = record {
  method_word = (((λ e. cc), omega arith), omega arith);
  uri_word = (((λ e. cc), omega arith), omega arith);
  short_method = omega arith;
  short_uri = omega arith;
  short_line = omega arith;
  named_fields = (((λ e. cc), omega arith, omega arith, omega arith), tt);
  short_headers = omega arith;
}

parse_http_request-body_example :
    parse_http_request config can_realloc 5 4095 post_text
    ≡ parsed
        (record {
          request_line = record {
            method = record { name = codes "POST"; needs_body = true };
            uri = codes "/about";
            version = http_1_1;
          };
          request_line_offset = 21;
          headers_size = 22;
          headers = lines_of five ++ (crlf ++ codes "h");
          headers_offset = 43;
          body_size = 5;
          fd = 5;
        })
        (some 48)
unfolding is_body_required strn_eq toupper decimal decimal_from skip_spaces
parse_http_request-body_example =
    parse_http_request-body config can_realloc (codes "POST") (codes "/about") http_1_1 5 4095 five
      (codes "hello") 5 post_IsRequest refl refl (omega arith) (omega arith) refl

abbrev get_request : HttpRequest
get_request = record {
  request_line = record {
    method = record { name = codes "GET"; needs_body = false };
    uri = codes "/";
    version = http_1_1;
  };
  request_line_offset = 15;
  headers_size = 15;
  headers = lines_of host ++ crlf;
  headers_offset = 30;
  body_size = 0;
  fd = 5;
}

blank_at : find get_text blank_line ≡ some 26
unfolding find strn_eq
blank_at = refl

get_parsed : parse_http_request config can_realloc 5 4095 get_text ≡ parsed get_request (some 4095)
unfolding is_body_required strn_eq toupper
get_parsed =
    parse_http_request-bodiless config can_realloc (codes "GET") (codes "/") http_1_1 5 4095 host []
      get_IsRequest refl

parse_http_request-headers_example :
    (e : ℕ) × (find get_text (10 ∷ []) ≡ some e)
    × (e ≤ 27)
    × (get_request.fd ≡ 5)
    × (get_request.request_line_offset ≡ e)
    × (get_request.headers_offset ≡ 30)
    × (get_request.headers_size ≡ min (30 - e) 1023)
    × (get_request.headers ≡ take 15 (drop (e + 1) get_text))
parse_http_request-headers_example =
    parse_http_request-headers config can_realloc 5 4095 get_text 26 get_request (some 4095)
      blank_at (omega arith) get_parsed

-- A method that needs a body, whose buffer is refused.
abbrev no_realloc : ℕ → Bool
no_realloc size = false

parse_http_request-Reason_example :
    (blank : ℕ) × (line_end : ℕ) × (find post_text blank_line ≡ some blank)
    × (find post_text (10 ∷ []) ≡ some line_end)
    × Reason config no_realloc 5 post_text blank line_end 500
unfolding parse_http_request strn_eq is_body_required find strtok get_http_header_value strtol
parse_http_request-Reason_example =
    parse_http_request-Reason config no_realloc 5 4095 post_text 500 refl

content_type_shadows_example :
    get_http_header_value
      (lines_of ((codes "Content-Type", codes "a") ∷ five) ++ (crlf ++ []))
      (codes "Content-Length")
    ≡ some (97 ∷ 13 ∷ [])
unfolding skip_spaces
content_type_shadows_example =
    content_type_shadows (codes "a") five []
      ((((λ e. cc), omega arith, omega arith, omega arith)), post_IsRequest.named_fields)

abbrev hello : HttpResponse
hello = record {
  status_code = 200;
  reason_phrase = codes "OK";
  headers = none;
  body = some (codes "hello");
  body_size = 5;
}

send_http_response-bytes_example :
    send_http_response hello ≡ some (response_head hello ++ codes "hello")
send_http_response-bytes_example =
    send_http_response-bytes hello (codes "hello") (omega arith) (omega arith) refl refl

is_standard_http_method_iff_example :
    (((is_standard_http_method (codes "get")).0 ≡ true)
      ↔ Begins counted_methods (map toupper (codes "get")))
    × ((is_standard_http_method (codes "get")).1 ≡ map toupper (codes "get"))
    × ((is_standard_http_method (codes "PATCH")).0 ≡ false)
    × ((is_standard_http_method (codes "PUT")).0 ≡ false)
    × ((is_standard_http_method (codes "PATCHPUT")).0 ≡ true)
is_standard_http_method_iff_example = is_standard_http_method_iff (codes "get")
