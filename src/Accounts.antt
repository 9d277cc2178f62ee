-- ===== src/Accounts.antt =====
-- frontend/src/fe_server.cc: login, logout, sign-up and the change of a password, over the storage.
-- The salt of a new credential, the bytes of a new session's number and the time are arguments.
pub mod Credentials
pub mod Kept
use ncloud.Common.{
  ℕ, zero, suc, Option, none, some, List, [], ◌∷◌, ◌++◌, Bytes, codes, length, Bool, true, false,
  not, if◌then◌else◌,
}
use ncloud.Common.Dict.{lookup}
use ncloud.Kv.{Kv, KvReadStatus, found, not_found, unavailable}
use ncloud.Password.{hash_password, verify_password, pbkdf2_iterations}
use ncloud.Session.{create, validate, validate_status, destroy_async}
use ncloud.Http.Text.{parse_urlencoded}
use ncloud.Http.Message.{
  HttpRequest, HttpResponse, value_of, header, param, cookie, json, error_page, set_cookie,
  json_str,
}

abbrev pub pwd : Bytes
pwd = codes "pwd"

-- A field of the form in a request's body.
unfoldable pub form_field : HttpRequest → Bytes → Bytes
form_field req name = value_of (lookup name (parse_urlencoded req.body))

unfoldable pub failed : Bytes → HttpResponse
failed message = json (codes "{\"ok\":false,\"error\":\"" ++ (message ++ codes "\"}"))

unfoldable pub storage_unavailable : HttpResponse
storage_unavailable = failed (codes "Storage temporarily unavailable, please try again")

-- The answer with a session's number, or without one.
unfoldable pub session_answer : Bytes → HttpResponse
session_answer [] = storage_unavailable
session_answer (c ∷ sid) =
    set_cookie (codes "sid") (c ∷ sid) (codes "/") true 86400
      (json (codes "{\"ok\":true,\"sid\":" ++ (json_str (c ∷ sid) ++ codes "}")))

first_of : Bytes → Bytes → Bytes
first_of [] other = other
first_of (c ∷ s) other = c ∷ s

unfoldable pub sid_from_req : HttpRequest → Bytes
unfolding first_of
sid_from_req req =
    first_of (header req (codes "x-session-id"))
      (first_of (param req (codes "sid")) (cookie req (codes "sid")))

module _ (K : Kv) where
  abbrev pub Answer : Type 0
  Answer = HttpResponse × K.State

  unfoldable pub with_session : Bytes × K.State → Answer
  with_session (sid, s) = (session_answer sid, s)

  -- A credential of an older form is stored again; whether that succeeds is not asked.
  unfoldable pub store_upgraded : Bytes → Bytes → K.State → K.State
  store_upgraded username [] s = s
  store_upgraded username (c ∷ upgraded) s = (K.put username pwd (c ∷ upgraded) s).1

  unfoldable pub rehash : Bytes → Bytes → Option Bytes → Bool → K.State → K.State
  unfolding store_upgraded
  rehash username password salt needs_rehash s =
      if needs_rehash
      then store_upgraded username (hash_password password pbkdf2_iterations salt) s
      else s

  unfoldable pub logged_in :
      Bytes → Bytes → Option Bytes → Option Bytes → ℕ → Bool × Bool → K.State → Answer
  unfolding with_session rehash
  logged_in username password salt random now (ok, needs_rehash) s =
      if ok
      then with_session
          (create K random now username (rehash username password salt needs_rehash s))
      else (failed (codes "Invalid username or password"), s)

  unfoldable pub check_login :
      Bytes → Bytes → Option Bytes → Option Bytes → ℕ → KvReadStatus × K.State → Answer
  unfolding logged_in
  check_login username password salt random now (unavailable, s) = (storage_unavailable, s)
  check_login username password salt random now (not_found, s) =
      (failed (codes "Invalid username or password"), s)
  check_login username password salt random now (found stored, s) =
      logged_in username password salt random now (verify_password password stored) s

  unfoldable pub login : Bytes → Bytes → Option Bytes → Option Bytes → ℕ → K.State → Answer
  unfolding check_login
  login [] password salt random now s = (failed (codes "Missing credentials"), s)
  login (u ∷ username) [] salt random now s = (failed (codes "Missing credentials"), s)
  login (u ∷ username) (p ∷ password) salt random now s =
      check_login (u ∷ username) (p ∷ password) salt random now (K.get_status (u ∷ username) pwd s)

  unfoldable pub handle_login : HttpRequest → Option Bytes → Option Bytes → ℕ → K.State → Answer
  unfolding login
  handle_login req salt random now s =
      login (form_field req (codes "username")) (form_field req (codes "password")) salt random now
        s

  unfoldable pub log_out : Bytes → K.State → K.State
  log_out [] s = s
  log_out (c ∷ sid) s = destroy_async K (c ∷ sid) s

  unfoldable pub handle_logout : HttpRequest → K.State → Answer
  unfolding log_out
  handle_logout req s = (
    set_cookie (codes "sid") [] (codes "/") true 0 (json (codes "{\"ok\":true}")),
    log_out (sid_from_req req) s,
  )

  unfoldable pub session_status : KvReadStatus → HttpResponse
  session_status (found user) =
      json (codes "{\"ok\":true,\"authenticated\":true,\"user\":" ++ (json_str user ++ codes "}"))
  session_status not_found = json (codes "{\"ok\":true,\"authenticated\":false}")
  session_status unavailable =
      record (json
        (codes "{\"ok\":false,\"authenticated\":false,\"error\":\"storage unavailable\"}")) {
          status_code = 503;
          status_text = codes "Service Unavailable";
        }

  unfoldable pub handle_session : HttpRequest → ℕ → K.State → Answer
  unfolding session_status
  handle_session req now s =
      let r = validate_status K now (sid_from_req req) s in (session_status r.0, r.1)

  -- A new account that gets no session loses its credential.
  unfoldable pub with_first_session : Bytes → Bytes × K.State → Answer
  with_first_session username ([], s) = (storage_unavailable, (K.del username pwd s).1)
  with_first_session username (c ∷ sid, s) = (session_answer (c ∷ sid), s)

  unfoldable pub store_password : Bytes → Bytes → Option Bytes → ℕ → K.State → Answer
  unfolding with_first_session
  store_password username [] random now s =
      (failed (codes "Could not securely store password, please try again"), s)
  store_password username (c ∷ hash) random now s =
      let r = K.put username pwd (c ∷ hash) s in
      if r.0
      then with_first_session username (create K random now username r.1)
      else (storage_unavailable, r.1)

  unfoldable pub check_signup :
      Bytes → Bytes → Option Bytes → Option Bytes → ℕ → KvReadStatus × K.State → Answer
  unfolding store_password
  check_signup username password salt random now (unavailable, s) = (storage_unavailable, s)
  check_signup username password salt random now (found stored, s) =
      (failed (codes "Username already taken"), s)
  check_signup username password salt random now (not_found, s) =
      store_password username (hash_password password pbkdf2_iterations salt) random now s

  unfoldable pub sign_up : Bytes → Bytes → Option Bytes → Option Bytes → ℕ → K.State → Answer
  unfolding check_signup
  sign_up [] password salt random now s = (failed (codes "Missing fields"), s)
  sign_up (u ∷ username) [] salt random now s = (failed (codes "Missing fields"), s)
  sign_up (u ∷ username) (p ∷ password) salt random now s =
      check_signup (u ∷ username) (p ∷ password) salt random now (K.get_status (u ∷ username) pwd s)

  unfoldable pub handle_signup : HttpRequest → Option Bytes → Option Bytes → ℕ → K.State → Answer
  unfolding sign_up
  handle_signup req salt random now s =
      sign_up (form_field req (codes "username")) (form_field req (codes "password")) salt random
        now s

  abbrev pub unauthorized : HttpResponse
  unauthorized = error_page 401 (codes "Unauthorized")

  unfoldable pub replace_password : Bytes → Bytes → K.State → Answer
  replace_password user [] s =
      (failed (codes "Could not securely store password, please try again"), s)
  replace_password user (c ∷ hash) s =
      let r = K.put user pwd (c ∷ hash) s in
      if r.0 then (json (codes "{\"ok\":true}"), r.1) else (storage_unavailable, r.1)

  unfoldable pub check_change :
      Bytes → Bytes → Bytes → Option Bytes → KvReadStatus × K.State → Answer
  unfolding replace_password
  check_change user old_pw new_pw salt (unavailable, s) = (storage_unavailable, s)
  check_change user old_pw new_pw salt (not_found, s) = (unauthorized, s)
  check_change user old_pw new_pw salt (found stored, s) =
      if (verify_password old_pw stored).0
      then replace_password user (hash_password new_pw pbkdf2_iterations salt) s
      else (failed (codes "Wrong current password"), s)

  -- With the user of the session and the two passwords.
  unfoldable pub change_password : Bytes → Bytes → Bytes → Option Bytes → K.State → Answer
  unfolding check_change
  change_password [] old_pw new_pw salt s = (unauthorized, s)
  change_password (u ∷ user) old_pw [] salt s = (failed (codes "New password cannot be empty"), s)
  change_password (u ∷ user) old_pw (p ∷ new_pw) salt s =
      check_change (u ∷ user) old_pw (p ∷ new_pw) salt (K.get_status (u ∷ user) pwd s)

  unfoldable pub handle_change_password : HttpRequest → Option Bytes → ℕ → K.State → Answer
  unfolding change_password
  handle_change_password req salt now s =
      let session = validate K now (sid_from_req req) s in
      change_password session.0 (form_field req (codes "old_password"))
        (form_field req (codes "new_password")) salt session.1
