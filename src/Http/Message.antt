-- ===== src/Http/Message.antt =====
-- frontend/src/http.h, http_reader.h and fe_server.h: requests, responses, how a response is written,
-- and the strings of JSON.
use ncloud.Common.{
  ℕ, ◌+◌, ◌/◌, ◌%◌, Option, none, some, List, [], ◌∷◌, ◌++◌, map, Bytes, codes, length, Bool, true,
  false, ltb, leb, ◌==◌, ◌&&◌, not, if◌then◌else◌, bytes_eq,
}
use ncloud.Common.Decimal.{to_string}
use ncloud.Common.Dict.{Dict, lookup, insert}
use ncloud.Common.Search.{find_behind}
use ncloud.Password.{hex_digit}
use ncloud.Http.Chunked.{send_http_chunked_body, http_chunk_prefix}

pub record HttpRequest : Type 0 where
  pub method : Bytes
  pub path : Bytes
  pub query : Bytes
  pub version : Bytes
  pub headers : Dict Bytes
  pub cookies : Dict Bytes
  pub query_params : Dict Bytes
  pub body : Bytes
  pub remote_addr : Bytes

pub record HttpResponse : Type 0 where
  pub status_code : ℕ
  pub status_text : Bytes
  pub headers : Dict Bytes
  pub set_cookies : List Bytes
  pub body : Bytes
  pub chunked : Bool

unfoldable pub tolower : ℕ → ℕ
tolower c = if leb b'A' c && leb c b'Z' then c + 32 else c

-- The value of a key, and nothing where it is missing.
unfoldable pub value_of : Option Bytes → Bytes
value_of none = []
value_of (some v) = v

unfoldable pub header : HttpRequest → Bytes → Bytes
header req name = value_of (lookup (map tolower name) req.headers)

unfoldable pub cookie : HttpRequest → Bytes → Bytes
cookie req name = value_of (lookup name req.cookies)

unfoldable pub param : HttpRequest → Bytes → Bytes
param req name = value_of (lookup name req.query_params)

is_some : Option Bytes → Bool
is_some none = false
is_some (some v) = true

-- `find` of a text that is not empty.
unfoldable pub has : Bytes → Bytes → Bool
unfolding is_some
has word text = is_some (find_behind word text)

unfoldable pub is_multipart : HttpRequest → Bool
is_multipart req = has (codes "multipart/form-data") (header req (codes "content-type"))

unfoldable pub keep_alive : HttpRequest → Bool
keep_alive req =
    let conn = map tolower (header req (codes "connection")) in
    if bytes_eq req.version (codes "HTTP/1.1")
    then not (has (codes "close") conn)
    else has (codes "keep-alive") conn

unfoldable pub ok_page : Bytes → Bytes → HttpResponse
ok_page body content_type = record {
  status_code = 200;
  status_text = codes "OK";
  headers = insert (codes "Content-Type") content_type [];
  set_cookies = [];
  body = body;
  chunked = false;
}

unfoldable pub json : Bytes → HttpResponse
json body = ok_page body (codes "application/json")

unfoldable pub redirect : Bytes → ℕ → HttpResponse
redirect location code = record {
  status_code = code;
  status_text = if code == 301 then codes "Moved Permanently" else codes "Found";
  headers = insert (codes "Location") location [];
  set_cookies = [];
  body = [];
  chunked = false;
}

unfoldable pub error_page : ℕ → Bytes → HttpResponse
error_page code msg = record {
  status_code = code;
  status_text = msg;
  headers = insert (codes "Content-Type") (codes "text/html; charset=utf-8") [];
  set_cookies = [];
  body =
      codes "<html><body><h1>" ++ (to_string code ++ (b' ' ∷ (msg ++ codes "</h1></body></html>")));
  chunked = false;
}

unfoldable pub cookie_text : Bytes → Bytes → Bytes → Bool → ℕ → Bytes
cookie_text name value path http_only max_age =
    name
    ++ (b'='
        ∷ (value
            ++ (codes "; Path="
                ++ (path
                    ++ (codes "; Max-Age="
                        ++ (to_string max_age
                            ++ (if http_only then codes "; HttpOnly" else [])))))))

unfoldable pub set_cookie : Bytes → Bytes → Bytes → Bool → ℕ → HttpResponse → HttpResponse
set_cookie name value path http_only max_age resp = record resp {
  set_cookies = resp.set_cookies ++ (cookie_text name value path http_only max_age ∷ []);
}

-- One character of a string of JSON.
unfoldable pub json_char : ℕ → Bytes
json_char c =
    if c == b'"'
    then codes "\\\""
    else if c == b'\\'
    then codes "\\\\"
    else if c == 10
    then codes "\\n"
    else if c == 13
    then codes "\\r"
    else if c == 9
    then codes "\\t"
    else if ltb c 32
    then codes "\\u00" ++ (hex_digit (c / 16) ∷ hex_digit (c % 16) ∷ [])
    else c ∷ []

unfoldable pub json_chars : Bytes → Bytes
json_chars [] = []
json_chars (c ∷ s) = json_char c ++ json_chars s

unfoldable pub json_str : Bytes → Bytes
json_str s = b'"' ∷ (json_chars s ++ (b'"' ∷ []))

crlf : Bytes → Bytes
crlf s = s ++ (13 ∷ 10 ∷ [])

connection : Option Bytes → Bytes
connection none = codes "close"
connection (some v) = v

header_lines : Dict Bytes → Bytes
unfolding crlf
header_lines [] = []
header_lines ((k, v) ∷ headers) =
    let rest = header_lines headers in
    if bytes_eq k (codes "Connection") then rest else crlf (k ++ (codes ": " ++ v)) ++ rest

cookie_lines : List Bytes → Bytes
unfolding crlf
cookie_lines [] = []
cookie_lines (c ∷ cookies) = crlf (codes "Set-Cookie: " ++ c) ++ cookie_lines cookies

-- The lines up to the empty one.
unfoldable pub response_head : HttpResponse → Bytes
unfolding crlf connection header_lines cookie_lines
response_head resp =
    crlf (codes "HTTP/1.1 " ++ (to_string resp.status_code ++ (b' ' ∷ resp.status_text)))
    ++ (crlf (codes "Server: NCloud/1.0")
        ++ (crlf (codes "Connection: " ++ connection (lookup (codes "Connection") resp.headers))
            ++ ((if resp.chunked
                  then crlf (codes "Transfer-Encoding: chunked")
                  else crlf (codes "Content-Length: " ++ to_string (length resp.body)))
                ++ (header_lines resp.headers
                    ++ (cookie_lines resp.set_cookies
                        ++ (crlf (codes "Access-Control-Allow-Origin: *") ++ crlf []))))))

-- What is written, where no write fails.
unfoldable pub send_http_response : HttpResponse → Bool → Bytes
send_http_response resp is_head =
    if is_head
    then response_head resp
    else if resp.chunked
    then response_head resp ++ send_http_chunked_body resp.body
    else response_head resp ++ resp.body

unfoldable pub sse_message : Bytes → Bytes → Bytes
sse_message [] payload = codes "data: " ++ (payload ++ (10 ∷ 10 ∷ []))
sse_message (c ∷ event) payload =
    codes "event: " ++ ((c ∷ event) ++ (10 ∷ (codes "data: " ++ (payload ++ (10 ∷ 10 ∷ [])))))

unfoldable pub send_sse_event : Bytes → Bytes → Bytes
unfolding crlf
send_sse_event event payload =
    let msg = sse_message event payload in crlf (http_chunk_prefix (length msg)) ++ crlf msg
