-- ===== src/Tests/Accounts.antt =====
-- Sign-ups and logins of the frontend at concrete inputs.
use ncloud.Common.{◌≡◌, ◌≢◌, refl, none, some, [], ◌∷◌, Bytes, codes, true, arith, All, bytes_eq}
use ncloud.Common.Decimal.{to_string}
use ncloud.Common.Dict.{lookup, insert}
use ncloud.Common.Search.{split_first, starts_with}
use ncloud.Kv.Memory.{Memory, memory, memory-IsLawful, memory-IsUp, cell, write, answer_of}
use ncloud.Password.Hex.{IsByte}
use ncloud.Password.{
  hash_password, hash_with, to_hex, hex_digit, verify_password, is_hashed, constant_time_equals,
  mix,
}
use ncloud.Session.{
  create, create_with, created, store_rows, store_row, session_rows, session_row, generate_sid,
}
use ncloud.Http.Message.{HttpRequest, value_of, set_cookie, json, ok_page, cookie_text}
use ncloud.Http.Text.{parse_urlencoded, tokens, url_decode, hex_digit_value}
use ncloud.Accounts.{
  pwd, form_field, session_answer, with_session, rehash, store_upgraded, logged_in, check_login,
  login, handle_login, with_first_session, store_password, check_signup, sign_up, handle_signup,
}
use ncloud.Accounts.Credentials.{handle_login-handle_signup}
use ncloud.Accounts.Kept.{
  Keeps, Accepts, Refused, handle_login-Accepts, handle_signup-Keeps, handle_signup-Refused,
}

-- The form of a user and a password.
abbrev form : Bytes → HttpRequest
form body = record {
  method = codes "POST";
  path = codes "/api/signup";
  query = [];
  version = codes "HTTP/1.1";
  headers = [];
  cookies = [];
  query_params = [];
  body = body;
  remote_addr = [];
}

abbrev ann : HttpRequest
ann = form (codes "username=ann&password=p%40ss+word")

abbrev random : Bytes
random = codes "sixteen bytes ok"

abbrev empty : Memory
empty = record { cells = []; refusals = [] }

ann_username : form_field ann (codes "username") ≡ codes "ann"
unfolding form_field value_of parse_urlencoded tokens url_decode lookup split_first insert bytes_eq
    hex_digit_value
ann_username = refl

ann_password : form_field ann (codes "password") ≡ codes "p@ss word"
unfolding form_field value_of parse_urlencoded tokens url_decode lookup split_first insert bytes_eq
    hex_digit_value
ann_password = refl

ann_signed_up :
    (handle_signup memory ann (some random) (some random) 1000 empty).0.set_cookies
    ≡ codes "sid=7369787465656e206279746573206f6b; Path=/; Max-Age=86400; HttpOnly" ∷ []
unfolding handle_signup sign_up check_signup store_password with_first_session answer_of cell write
    create create_with created store_rows store_row session_rows session_row generate_sid to_hex
    hex_digit session_answer set_cookie json ok_page cookie_text hash_password hash_with to_string
ann_signed_up = rw (ann_username, ann_password) refl

random-IsByte : All IsByte random
random-IsByte = omega arith

abbrev joined : Memory
joined = (handle_signup memory ann (some random) (some random) 1000 empty).1

abbrev ann_made : Bytes × Memory
ann_made =
    create memory (some random) 2000 (form_field ann (codes "username"))
      (memory.get_status (form_field ann (codes "username")) pwd joined).1

ann_made_sid : ann_made.0 ≡ codes "7369787465656e206279746573206f6b"
unfolding create create_with created store_rows store_row session_rows session_row generate_sid
    to_hex hex_digit write handle_signup sign_up check_signup store_password with_first_session
    answer_of cell hash_password hash_with to_string
ann_made_sid = rw (ann_username, ann_password) refl

handle_login-handle_signup_example :
    (handle_login memory ann none (some random) 2000 joined ≡ with_session memory ann_made)
    × ((handle_login memory ann none (some random) 2000 joined).0.set_cookies ≢ [])
handle_login-handle_signup_example =
    handle_login-handle_signup memory memory-IsLawful ann random (some random) none (some random)
      1000 2000 empty random-IsByte (omega arith) (λ e. cc (ann_signed_up, e))
      (memory-IsUp.answers (form_field ann (codes "username")) pwd joined)
      (λ e. cc (ann_made_sid, e))

-- The password of `ann` stands in the storage as it is.
abbrev plain : Memory
plain = record { cells = (codes "ann", pwd, some (codes "p@ss word")) ∷ []; refusals = true ∷ [] }

plain_accepted : verify_password (codes "p@ss word") (codes "p@ss word") ≡ (true, true)
unfolding verify_password is_hashed starts_with constant_time_equals mix
plain_accepted = refl

ann_logged_in :
    (handle_login memory ann (some random) (some random) 1000 plain).0.set_cookies
    ≡ codes "sid=7369787465656e206279746573206f6b; Path=/; Max-Age=86400; HttpOnly" ∷ []
unfolding handle_login login check_login logged_in with_session rehash store_upgraded starts_with
    answer_of cell write create create_with created store_rows store_row session_rows session_row
    generate_sid to_hex hex_digit session_answer set_cookie json ok_page cookie_text hash_password
    hash_with to_string bytes_eq
ann_logged_in = rw (ann_username, ann_password) (rw plain_accepted refl)

handle_login-Accepts_example :
    Accepts memory memory-IsLawful
      (form_field ann (codes "username"))
      (form_field ann (codes "password"))
      plain
handle_login-Accepts_example =
    handle_login-Accepts memory memory-IsLawful ann (some random) (some random) 1000 plain
      λ e. cc (ann_logged_in, e)

handle_signup-Keeps_example :
    Keeps memory memory-IsLawful
      (codes "ann")
      plain
      (handle_signup memory
        (form (codes "username=bob&password=b"))
        (some random)
        (some random)
        1000
        plain).1
unfolding cell bytes_eq
handle_signup-Keeps_example =
    handle_signup-Keeps memory memory-IsLawful (form (codes "username=bob&password=b"))
      (some random) (some random) 1000 plain (codes "ann") (codes "p@ss word") refl

ann_stored : cell (form_field ann (codes "username")) pwd plain.cells ≡ some (codes "p@ss word")
unfolding cell bytes_eq
ann_stored = rw ann_username refl

handle_signup-Refused_example :
    Refused memory memory-IsLawful plain
      (handle_signup memory ann (some random) (some random) 1000 plain)
handle_signup-Refused_example =
    handle_signup-Refused memory memory-IsLawful ann (some random) (some random) 1000 plain
      (codes "p@ss word") ann_stored
