-- ===== src/Http/Reader.antt =====
-- frontend/src/http_reader.h: `read_http_request` over the bytes of a connection. It gives what is
-- written to the peer in between, where no write fails, and the request with what is still unread.
use ncloud.Common.{
  ℕ, zero, suc, Option, none, some, [], ◌∷◌, ◌++◌, map, Bytes, codes, length, Bool, ltb, ◌&&◌,
  if◌then◌else◌, bytes_eq,
}
use ncloud.Common.Decimal.{to_string, read_word}
use ncloud.Common.Dict.{Dict, insert}
use ncloud.Common.Search.{split_first}
use ncloud.Codec.{read_exact}
use ncloud.Protocol.{read_line}
use ncloud.Http.Text.{parse_urlencoded, parse_cookies, skip_blanks, http_parse_size_t}
use ncloud.Http.Chunked.{max_request_body_bytes, read_chunked_body}
use ncloud.Http.Message.{HttpRequest, tolower, header, has}

-- The path up to the question mark, with the query behind it.
with_path : Bytes → Bytes → Bytes × Option Bytes → HttpRequest
with_path method version (path, none) = record {
  method = method;
  path = path;
  query = [];
  version = version;
  headers = [];
  cookies = [];
  query_params = [];
  body = [];
  remote_addr = [];
}
with_path method version (path, some query) = record {
  method = method;
  path = path;
  query = query;
  version = version;
  headers = [];
  cookies = [];
  query_params = parse_urlencoded query;
  body = [];
  remote_addr = [];
}

of_words : Bytes → Bytes → Bytes → Option HttpRequest
unfolding with_path
of_words [] path version = none
of_words (m ∷ method) [] version = none
of_words (m ∷ method) (p ∷ path) version =
    some (with_path (m ∷ method) version (split_first b'?' (p ∷ path)))

-- The line `METHOD path version`.
unfoldable pub request_line : Bytes → Option HttpRequest
unfolding of_words
request_line line =
    let method = read_word line in
    let path = read_word method.1 in
    let version = read_word path.1 in of_words method.0 path.0 version.0

-- A value of blanks alone stays as it is.
trimmed : Bytes → Bytes
trimmed value = if bytes_eq (skip_blanks value) [] then value else skip_blanks value

unfoldable pub add_header : Bytes × Option Bytes → Dict Bytes → Dict Bytes
unfolding trimmed
add_header (key, none) headers = headers
add_header (key, some value) headers = insert (map tolower key) (trimmed value) headers

-- The lines up to an empty one; a line takes at least one byte.
unfoldable pub read_headers : ℕ → Dict Bytes → Bytes → Option (Dict Bytes × Bytes)
unfolding add_header
read_headers zero headers s = none
read_headers (suc fuel) headers s = elim (read_line s) [
  | none ↦ none
  | some (line, rest) ↦
      if bytes_eq line []
      then some (headers, rest)
      else read_headers fuel (add_header (split_first b':' line) headers) rest
]

with_cookies : Bytes → HttpRequest → HttpRequest
with_cookies [] req = req
with_cookies (c ∷ text) req = record req { cookies = parse_cookies (c ∷ text) }

-- What is written, and the request with what is left of the stream.
abbrev pub Reading : Type 0
Reading = Bytes × Option (HttpRequest × Bytes)

with_body : HttpRequest → Option (Bytes × Bytes) → Option (HttpRequest × Bytes)
with_body req none = none
with_body req (some (body, rest)) = some (record req { body = body }, rest)

abbrev continue_line : Bytes
continue_line = codes "HTTP/1.1 100 Continue\r\n\r\n"

abbrev too_large_body : Bytes
too_large_body = codes "{\"ok\":false,\"error\":\"file exceeds 1023 MB limit\"}"

too_large_page : Bytes
too_large_page =
    codes "HTTP/1.1 413 Content Too Large\r\nContent-Type: application/json\r\nContent-Length: "
    ++ (to_string (length too_large_body)
        ++ (codes "\r\nConnection: close\r\n\r\n" ++ too_large_body))

-- With the length that the request states.
of_length : HttpRequest → Bool → Option ℕ → Bytes → Reading
unfolding with_body too_large_page
of_length req wants_continue none s = ([], none)
of_length req wants_continue (some n) s =
    if ltb max_request_body_bytes n
    then (too_large_page, none)
    else (if wants_continue && ltb 0 n then continue_line else [], with_body req (read_exact n s))

unfoldable pub read_sized : HttpRequest → Bool → Bytes → Bytes → Reading
unfolding of_length
read_sized req wants_continue [] s = ([], some (req, s))
read_sized req wants_continue (c ∷ text) s =
    of_length req wants_continue (http_parse_size_t (c ∷ text) 10) s

unfoldable pub read_body : HttpRequest → Bytes → Reading
unfolding read_sized with_body
read_body req s =
    let transfer_enc = map tolower (header req (codes "transfer-encoding")) in
    let expect = map tolower (header req (codes "expect")) in
    let wants_continue = has (codes "100-continue") expect in
    if has (codes "chunked") transfer_enc
    then (if wants_continue then continue_line else [], with_body req (read_chunked_body s))
    else read_sized req wants_continue (header req (codes "content-length")) s

read_rest : HttpRequest → Option (Dict Bytes × Bytes) → Reading
unfolding with_cookies read_body
read_rest req none = ([], none)
read_rest req (some (headers, s)) =
    let full : HttpRequest = record req { headers = headers } in
    read_body (with_cookies (header full (codes "cookie")) full) s

of_request_line : Option HttpRequest → Bytes → Reading
unfolding read_headers read_rest
of_request_line none s = ([], none)
of_request_line (some req) s = read_rest req (read_headers (suc (length s)) [] s)

of_first_line : Option (Bytes × Bytes) → Reading
unfolding request_line of_request_line
of_first_line none = ([], none)
of_first_line (some (line, s)) =
    if bytes_eq line [] then ([], none) else of_request_line (request_line line) s

unfoldable pub read_http_request : Bytes → Reading
unfolding of_first_line
read_http_request s = of_first_line (read_line s)
