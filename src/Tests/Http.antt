-- ===== src/Tests/Http.antt =====
-- Requests and multipart bodies of the frontend at concrete inputs.
use ncloud.Common.{◌≡◌, refl, none, some, [], ◌∷◌, Bytes, codes, bytes_eq}
use ncloud.Common.Decimal.{read_word, skip_space}
use ncloud.Common.Dict.{lookup, insert}
use ncloud.Common.Search.{find_behind, starts_with, split_first}
use ncloud.Codec.{read_exact}
use ncloud.Protocol.{read_line}
use ncloud.Http.Text.{
  parse_urlencoded, tokens, url_decode, hex_digit_value, parse_cookies, skip_blanks,
  http_parse_size_t, http_trim_copy, trim_end, unsigned, stoul_whole, read_all, digit_below, fits,
}
use ncloud.Http.Reader.{
  read_http_request, request_line, read_headers, add_header, read_body, read_sized,
}
use ncloud.Http.Multipart.{parse_multipart, split_word}
use ncloud.Http.Message.{HttpRequest, has, header, value_of, tolower}

abbrev session_request : Bytes
session_request =
    codes
      "POST /api/login?next=%2Fhome HTTP/1.1\r\nCookie: sid=ab; x=1\r\nContent-Length: 3\r\n\r\na=1rest"

abbrev session_read : HttpRequest
session_read = record {
  method = codes "POST";
  path = codes "/api/login";
  query = codes "next=%2Fhome";
  version = codes "HTTP/1.1";
  headers = (codes "cookie", codes "sid=ab; x=1") ∷ (codes "content-length", codes "3") ∷ [];
  cookies = (codes "sid", codes "ab") ∷ (codes "x", codes "1") ∷ [];
  query_params = (codes "next", codes "/home") ∷ [];
  body = codes "a=1";
  remote_addr = [];
}

session_request_read : read_http_request session_request ≡ ([], some (session_read, codes "rest"))
unfolding read_http_request request_line read_headers add_header read_body read_sized read_line
    read_word bytes_eq has find_behind starts_with header value_of tolower lookup insert split_first
    parse_urlencoded tokens url_decode hex_digit_value parse_cookies skip_blanks http_parse_size_t
    http_trim_copy trim_end skip_space unsigned stoul_whole read_all digit_below fits read_exact
session_request_read = refl

-- The file ends in a line's end of its own, which is lost.
file_cut :
    parse_multipart
      (codes
        "--b\r\nContent-Disposition: form-data; name=\"file\"; filename=\"a.txt\"\r\n\r\nhello\r\n\r\n--b--\r\n")
      (codes "multipart/form-data; boundary=b")
    ≡ some (
        record {
          name = codes "file";
          filename = codes "a.txt";
          content_type = [];
          content = codes "hello";
        }
        ∷ [])
unfolding parse_multipart split_word starts_with split_first bytes_eq
file_cut = refl

-- An empty `Content-Type:` at the end of a part's headers makes the source throw.
type_throws :
    parse_multipart
      (codes
        "--b\r\nContent-Disposition: form-data; name=\"file\"\r\nContent-Type:\r\n\r\nhello\r\n--b--\r\n")
      (codes "multipart/form-data; boundary=b")
    ≡ none
unfolding parse_multipart split_word starts_with split_first bytes_eq
type_throws = refl
