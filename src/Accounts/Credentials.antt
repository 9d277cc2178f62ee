-- ===== src/Accounts/Credentials.antt =====
-- frontend/src/fe_server.cc: what logins and sign-ups do with the stored credentials.
use ncloud.Common.{
  ℕ, zero, suc, ◌+◌, ◌<◌, ◌≡◌, ◌≢◌, refl, ap, sym, subst, ◌∙◌, Option, some, List, [], ◌∷◌, Bytes,
  codes, length, Bool, true, false, ltb, arith, bytes_eq, All, if_elim,
}
use ncloud.Common.Decimal.{to_string}
use ncloud.Kv.{Kv, KvReadStatus, found, not_found, unavailable, IsLawful, Tells, same}
use ncloud.Password.{hash_password, verify_password, pbkdf2_iterations}
use ncloud.Password.Hex.{IsByte}
use ncloud.Password.Verify.{verify_password-hash_password}
use ncloud.Session.{
  session_ttl_seconds, session_rows, generate_sid, store_row, store_rows, created, create_with,
  create,
}
use ncloud.Http.Message.{set_cookie, HttpRequest, HttpResponse, json, ok_page}
use ncloud.Accounts.{
  Answer, session_answer, pwd, form_field, failed, storage_unavailable, with_session, rehash,
  logged_in, check_login, login, handle_login, with_first_session, store_password, check_signup,
  sign_up, handle_signup,
}

user_not_pwd : (r i : Bytes) → same r (codes "user") i pwd ≡ false
unfolding bytes_eq
user_not_pwd r i = ground arith

expiry_not_pwd : (r i : Bytes) → same r (codes "expiry") i pwd ≡ false
unfolding bytes_eq
expiry_not_pwd r i = ground arith

pub failed-set_cookies : (m : Bytes) → (failed m).set_cookies ≡ []
unfolding failed json ok_page
failed-set_cookies m = refl

pub unavailable-set_cookies : storage_unavailable.set_cookies ≡ []
unfolding storage_unavailable
unavailable-set_cookies = failed-set_cookies _

module _ (K : Kv) (L : IsLawful K) where
  -- A session leaves every credential as it is.
  store_row-pwd :
      (u e row i : Bytes) (s : K.State) → L.view (store_row K u e row s).1 i pwd ≡ L.view s i pwd
  unfolding store_row
  store_row-pwd u e row i s =
      let user = K.put row (codes "user") u s in
      let both = K.put row (codes "expiry") e user.1 in
      let undone = K.del row (codes "user") both.1 in
      let first = L.put_other row (codes "user") u i pwd s (user_not_pwd row i) in
      let second = L.put_other row (codes "expiry") e i pwd user.1 (expiry_not_pwd row i) in
      if_elim (λ (r : Bool × K.State). L.view r.1 i pwd ≡ L.view s i pwd) user.0 _ _
        (λ _.
          if_elim (λ (r : Bool × K.State). L.view r.1 i pwd ≡ L.view s i pwd) both.0 _ _
            (λ _. second ∙ first)
            (λ _.
              L.del_other row (codes "expiry") i pwd undone.1 (expiry_not_pwd row i)
              ∙ L.del_other row (codes "user") i pwd both.1 (user_not_pwd row i)
              ∙ second
              ∙ first))
        (λ _. first)

  store_rows-pwd :
      (u e : Bytes) (rows : List Bytes) (i : Bytes) (s : K.State)
      → L.view (store_rows K u e rows s).1 i pwd ≡ L.view s i pwd
  unfolding store_rows
  store_rows-pwd u e [] i s = refl
  store_rows-pwd u e (row ∷ rows) i s =
      store_rows-pwd u e rows i (store_row K u e row s).1 ∙ store_row-pwd u e row i s

  created-pwd :
      (sid i : Bytes) (r : ℕ × K.State) → L.view (created K sid r).1 i pwd ≡ L.view r.1 i pwd
  unfolding created
  created-pwd sid i (zero, s) = refl
  created-pwd sid i (suc n, s) = refl

  create_with-pwd :
      (now : ℕ) (u sid i : Bytes) (s : K.State)
      → L.view (create_with K now u sid s).1 i pwd ≡ L.view s i pwd
  unfolding create_with
  create_with-pwd now u [] i s = refl
  create_with-pwd now u (c ∷ sid) i s =
      created-pwd (c ∷ sid) i _
      ∙ store_rows-pwd u (to_string (now + session_ttl_seconds)) (session_rows (c ∷ sid)) i s

  pub create-pwd :
      (random : Option Bytes) (now : ℕ) (u i : Bytes) (s : K.State)
      → L.view (create K random now u s).1 i pwd ≡ L.view s i pwd
  unfolding create
  create-pwd random now u i s = create_with-pwd now u (generate_sid random) i s

  -- A sign-up that is answered with a cookie leaves the credential of its password.
  with_first_session-pwd :
      (u : Bytes) (v : Option Bytes) (r : Bytes × K.State)
      → (with_first_session K u r).0.set_cookies ≢ []
      → L.view r.1 u pwd ≡ v
      → L.view (with_first_session K u r).1 u pwd ≡ v
  unfolding with_first_session
  with_first_session-pwd u v ([], s) made h = absurd (made unavailable-set_cookies)
  with_first_session-pwd u v (c ∷ sid, s) made h = h

  store_password-pwd :
      (u hash : Bytes) (random : Option Bytes) (now : ℕ) (s : K.State)
      → (store_password K u hash random now s).0.set_cookies ≢ []
      → L.view (store_password K u hash random now s).1 u pwd ≡ some hash
  unfolding store_password
  store_password-pwd u [] random now s made = absurd (made (failed-set_cookies _))
  store_password-pwd u (c ∷ hash) random now s made =
      let r = K.put u pwd (c ∷ hash) s in
      if_elim
        (λ (a : HttpResponse × K.State). a.0.set_cookies ≢ [] → L.view a.1 u pwd ≡ some (c ∷ hash))
        r.0 _ _
        (λ e m.
          with_first_session-pwd u (some (c ∷ hash)) _ m
            (create-pwd random now u u r.1 ∙ L.put_done u pwd (c ∷ hash) s e))
        (λ e m. absurd (m unavailable-set_cookies)) made

  check_signup-pwd :
      (u p : Bytes) (salt random : Option Bytes) (now : ℕ) (a : KvReadStatus × K.State)
      → (check_signup K u p salt random now a).0.set_cookies ≢ []
      → L.view (check_signup K u p salt random now a).1 u pwd
        ≡ some (hash_password p pbkdf2_iterations salt)
  unfolding check_signup
  check_signup-pwd u p salt random now (unavailable, s) made = absurd (made unavailable-set_cookies)
  check_signup-pwd u p salt random now (found v, s) made = absurd (made (failed-set_cookies _))
  check_signup-pwd u p salt random now (not_found, s) made =
      store_password-pwd u (hash_password p pbkdf2_iterations salt) random now s made

  -- The two fields are not empty.
  abbrev Given : Bytes → Bytes → Type 0
  Given u p = (u ≢ []) × (p ≢ [])

  sign_up-pwd :
      (u p : Bytes) (salt random : Option Bytes) (now : ℕ) (s : K.State)
      → (sign_up K u p salt random now s).0.set_cookies ≢ []
      → (L.view (sign_up K u p salt random now s).1 u pwd
          ≡ some (hash_password p pbkdf2_iterations salt))
        × Given u p
  unfolding sign_up
  sign_up-pwd [] p salt random now s made = absurd (made (failed-set_cookies _))
  sign_up-pwd (x ∷ u) [] salt random now s made = absurd (made (failed-set_cookies _))
  sign_up-pwd (x ∷ u) (y ∷ p) salt random now s made =
      (check_signup-pwd (x ∷ u) (y ∷ p) salt random now _ made, ((λ e. cc), λ e. cc))

  -- A login with the password that was stored.
  check_login-hash_password :
      (u p salt : Bytes) (other random : Option Bytes) (now : ℕ) (a : KvReadStatus × K.State)
      → All IsByte salt
      → 0 < length salt
      → Tells a.0 (some (hash_password p pbkdf2_iterations (some salt)))
      → a.0 ≢ unavailable
      → check_login K u p other random now a ≡ with_session K (create K random now u a.1)
  unfolding check_login logged_in rehash
  check_login-hash_password u p salt other random now (unavailable, s) b long t up =
      absurd (up refl)
  check_login-hash_password u p salt other random now (not_found, s) b long t up = cc t
  check_login-hash_password u p salt other random now (found v, s) b long t up =
      let q : v ≡ hash_password p pbkdf2_iterations (some salt) = cc t in
      let today : ltb pbkdf2_iterations pbkdf2_iterations ≡ false = ground arith in
      ap (λ r. logged_in K u p other random now r s)
        (ap (verify_password p) q
          ∙ verify_password-hash_password p salt pbkdf2_iterations b long (omega arith)
              (omega arith)
          ∙ ap (λ r. (true, r)) today)

  login-hash_password :
      (u p salt : Bytes) (other random : Option Bytes) (now : ℕ) (s : K.State)
      → (K.get_status u pwd s).0 ≢ unavailable
      → All IsByte salt
      → 0 < length salt
      → (L.view s u pwd ≡ some (hash_password p pbkdf2_iterations (some salt))) × Given u p
      → login K u p other random now s
        ≡ with_session K (create K random now u (K.get_status u pwd s).1)
  unfolding login
  login-hash_password [] p salt other random now s up b long h = absurd (h.1.0 refl)
  login-hash_password (x ∷ u) [] salt other random now s up b long h = absurd (h.1.1 refl)
  login-hash_password (x ∷ u) (y ∷ p) salt other random now s up b long h =
      check_login-hash_password (x ∷ u) (y ∷ p) salt other random now _ b long
        (subst (Tells (K.get_status (x ∷ u) pwd s).0) h.0 (L.get-Tells (x ∷ u) pwd s)) up

session_answer-cookie : (sid : Bytes) → sid ≢ [] → (session_answer sid).set_cookies ≢ []
unfolding session_answer set_cookie json ok_page
session_answer-cookie [] h = absurd (h refl)
session_answer-cookie (c ∷ sid) h = λ e. cc e

-- Once a sign-up has been answered with a session, if the read of the credential is answered then and
-- the creation of a further session gives one, a login with the same form is answered with the cookie
-- of that new session of the user, and leaves what the read and the creation leave.
pub handle_login-handle_signup :
    (K : Kv) (L : IsLawful K) (req : HttpRequest) (salt : Bytes) (random other again : Option Bytes)
    (now later : ℕ) (s : K.State)
    → All IsByte salt
    → 0 < length salt
    → (handle_signup K req (some salt) random now s).0.set_cookies ≢ []
    → (K.get_status
        (form_field req (codes "username"))
        pwd
        (handle_signup K req (some salt) random now s).1).0
      ≢ unavailable
    → (create K again later
        (form_field req (codes "username"))
        (K.get_status
          (form_field req (codes "username"))
          pwd
          (handle_signup K req (some salt) random now s).1).1).0
      ≢ []
    → let username = form_field req (codes "username") in
      let signed = (handle_signup K req (some salt) random now s).1 in
      (handle_login K req other again later signed
        ≡ with_session K (create K again later username (K.get_status username pwd signed).1))
      × ((handle_login K req other again later signed).0.set_cookies ≢ [])
unfolding handle_signup handle_login
handle_login-handle_signup K L req salt random other again now later s b long made up new =
    let u = form_field req (codes "username") in
    let p = form_field req (codes "password") in
    let same =
      login-hash_password K L u p salt other again later _ up b long
        (sign_up-pwd K L u p (some salt) random now s made) in
    (
      same,
      subst (λ (a : Answer K). a.0.set_cookies ≢ []) (sym same)
          (unfold with_session in session_answer-cookie _ new),
    )
