-- ===== src/Accounts/Kept.antt =====
-- frontend/src/fe_server.cc: who may log in, and that a sign-up takes no account over.
use ncloud.Common.{
  ℕ, ◌≡◌, ◌≢◌, refl, ap, sym, subst, ◌∙◌, Option, some, [], ◌∷◌, Bytes, codes, Bool, true, false,
  arith, bytes_eq, bytes_eq_iff, if_elim, Bool-cases, inl, inr,
}
use ncloud.Kv.{Kv, KvReadStatus, found, not_found, unavailable, IsLawful, Tells, same, text_of}
use ncloud.Password.{hash_password, verify_password, pbkdf2_iterations}
use ncloud.Session.{create}
use ncloud.Http.Message.{HttpRequest, HttpResponse}
use ncloud.Accounts.{
  pwd, form_field, logged_in, check_login, login, handle_login, with_first_session, store_password,
  check_signup, sign_up, handle_signup,
}
use ncloud.Accounts.Credentials.{create-pwd, failed-set_cookies, unavailable-set_cookies}

other_user : (u i : Bytes) → bytes_eq u i ≡ false → same u pwd i pwd ≡ false
other_user u i h = ground (arith, h)

module _ (K : Kv) (L : IsLawful K) where
  -- The password is accepted by what is stored for the user.
  abbrev pub Accepts : Bytes → Bytes → K.State → Type 0
  Accepts u p s = (verify_password p (text_of (L.view s u pwd))).0 ≡ true

  logged_in-ok :
      (u p : Bytes) (salt random : Option Bytes) (now : ℕ) (v : Bool × Bool) (s : K.State)
      → (logged_in K u p salt random now v s).0.set_cookies ≢ []
      → v.0 ≡ true
  unfolding logged_in
  logged_in-ok u p salt random now (true, again) s made = refl
  logged_in-ok u p salt random now (false, again) s made = absurd (made (failed-set_cookies _))

  check_login-Accepts :
      (u p : Bytes) (salt random : Option Bytes) (now : ℕ) (s : K.State)
      (a : KvReadStatus × K.State)
      → Tells a.0 (L.view s u pwd)
      → (check_login K u p salt random now a).0.set_cookies ≢ []
      → Accepts u p s
  unfolding check_login
  check_login-Accepts u p salt random now s (unavailable, t) tells made =
      absurd (made unavailable-set_cookies)
  check_login-Accepts u p salt random now s (not_found, t) tells made =
      absurd (made (failed-set_cookies _))
  check_login-Accepts u p salt random now s (found v, t) tells made =
      subst (λ o. (verify_password p (text_of o)).0 ≡ true) (sym tells)
        (logged_in-ok u p salt random now (verify_password p v) t made)

  login-Accepts :
      (u p : Bytes) (salt random : Option Bytes) (now : ℕ) (s : K.State)
      → (login K u p salt random now s).0.set_cookies ≢ []
      → Accepts u p s
  unfolding login
  login-Accepts [] p salt random now s made = absurd (made (failed-set_cookies _))
  login-Accepts (x ∷ u) [] salt random now s made = absurd (made (failed-set_cookies _))
  login-Accepts (x ∷ u) (y ∷ p) salt random now s made =
      check_login-Accepts (x ∷ u) (y ∷ p) salt random now s _ (L.get-Tells (x ∷ u) pwd s) made

  -- The credential of a user stays.
  abbrev pub Keeps : Bytes → K.State → K.State → Type 0
  Keeps i s t = L.view t i pwd ≡ L.view s i pwd

  with_first_session-Keeps :
      (u i : Bytes) (r : Bytes × K.State)
      → bytes_eq u i ≡ false
      → Keeps i r.1 (with_first_session K u r).1
  unfolding with_first_session
  with_first_session-Keeps u i ([], s) h = L.del_other u pwd i pwd s (other_user u i h)
  with_first_session-Keeps u i (c ∷ sid, s) h = refl

  store_password-Keeps :
      (u hash i : Bytes) (random : Option Bytes) (now : ℕ) (s : K.State)
      → bytes_eq u i ≡ false
      → Keeps i s (store_password K u hash random now s).1
  unfolding store_password
  store_password-Keeps u [] i random now s h = refl
  store_password-Keeps u (c ∷ hash) i random now s h =
      let r = K.put u pwd (c ∷ hash) s in
      let written = L.put_other u pwd (c ∷ hash) i pwd s (other_user u i h) in
      if_elim (λ (a : HttpResponse × K.State). Keeps i s a.1) r.0 _ _
        (λ _.
          with_first_session-Keeps u i (create K random now u r.1) h
          ∙ create-pwd K L random now u i r.1
          ∙ written)
        (λ _. written)

  check_signup-Keeps :
      (u p i v : Bytes) (salt random : Option Bytes) (now : ℕ) (s : K.State)
      (a : KvReadStatus × K.State)
      → Tells a.0 (L.view s u pwd)
      → Keeps i s a.1
      → L.view s i pwd ≡ some v
      → Keeps i s (check_signup K u p salt random now a).1
  unfolding check_signup
  check_signup-Keeps u p i v salt random now s (unavailable, t) tells k h = k
  check_signup-Keeps u p i v salt random now s (found x, t) tells k h = k
  check_signup-Keeps u p i v salt random now s (not_found, t) tells k h =
      elim (Bool-cases (bytes_eq u i)) [
        | inl e ↦ cc (tells, h, ap (λ j. L.view s j pwd) ((bytes_eq_iff u i).0 e))
        | inr e ↦
            store_password-Keeps u (hash_password p pbkdf2_iterations salt) i random now t e ∙ k
      ]

  sign_up-Keeps :
      (u p i v : Bytes) (salt random : Option Bytes) (now : ℕ) (s : K.State)
      → L.view s i pwd ≡ some v
      → Keeps i s (sign_up K u p salt random now s).1
  unfolding sign_up
  sign_up-Keeps [] p i v salt random now s h = refl
  sign_up-Keeps (x ∷ u) [] i v salt random now s h = refl
  sign_up-Keeps (x ∷ u) (y ∷ p) i v salt random now s h =
      check_signup-Keeps (x ∷ u) (y ∷ p) i v salt random now s (K.get_status (x ∷ u) pwd s)
        (L.get-Tells (x ∷ u) pwd s) (L.get-view (x ∷ u) pwd i pwd s) h

  -- No cookie is given, and every cell is as before.
  abbrev pub Refused : K.State → HttpResponse × K.State → Type 0
  Refused s a = (a.0.set_cookies ≡ []) × ((i j : Bytes) → L.view a.1 i j ≡ L.view s i j)

  check_signup-Refused :
      (u p v : Bytes) (salt random : Option Bytes) (now : ℕ) (s : K.State)
      (a : KvReadStatus × K.State)
      → Tells a.0 (L.view s u pwd)
      → ((i j : Bytes) → L.view a.1 i j ≡ L.view s i j)
      → L.view s u pwd ≡ some v
      → Refused s (check_signup K u p salt random now a)
  unfolding check_signup
  check_signup-Refused u p v salt random now s (unavailable, t) tells same h =
      (unavailable-set_cookies, same)
  check_signup-Refused u p v salt random now s (found x, t) tells same h =
      (failed-set_cookies _, same)
  check_signup-Refused u p v salt random now s (not_found, t) tells same h = cc (tells, h)

  sign_up-Refused :
      (u p v : Bytes) (salt random : Option Bytes) (now : ℕ) (s : K.State)
      → L.view s u pwd ≡ some v
      → Refused s (sign_up K u p salt random now s)
  unfolding sign_up
  sign_up-Refused [] p v salt random now s h = (failed-set_cookies _, λ i j. refl)
  sign_up-Refused (x ∷ u) [] v salt random now s h = (failed-set_cookies _, λ i j. refl)
  sign_up-Refused (x ∷ u) (y ∷ p) v salt random now s h =
      check_signup-Refused (x ∷ u) (y ∷ p) v salt random now s _ (L.get-Tells (x ∷ u) pwd s)
        (λ i j. L.get-view (x ∷ u) pwd i j s) h

-- A login is answered with a cookie only if the password is accepted by the credential that was
-- stored for the user, whatever the storage refuses.
pub handle_login-Accepts :
    (K : Kv) (L : IsLawful K) (req : HttpRequest) (salt random : Option Bytes) (now : ℕ)
    (s : K.State)
    → (handle_login K req salt random now s).0.set_cookies ≢ []
    → Accepts K L (form_field req (codes "username")) (form_field req (codes "password")) s
unfolding handle_login
handle_login-Accepts K L req salt random now s made =
    login-Accepts K L (form_field req (codes "username")) (form_field req (codes "password")) salt
      random now s made

-- A sign-up leaves every credential that was stored as it was, however it ends and whatever the
-- storage refuses.
pub handle_signup-Keeps :
    (K : Kv) (L : IsLawful K) (req : HttpRequest) (salt random : Option Bytes) (now : ℕ)
    (s : K.State) (user v : Bytes)
    → L.view s user pwd ≡ some v
    → Keeps K L user s (handle_signup K req salt random now s).1
unfolding handle_signup
handle_signup-Keeps K L req salt random now s user v h =
    sign_up-Keeps K L (form_field req (codes "username")) (form_field req (codes "password")) user v
      salt random now s h

-- A sign-up for a name that has a credential is answered with no cookie and changes no cell, also
-- where the storage does not answer.
pub handle_signup-Refused :
    (K : Kv) (L : IsLawful K) (req : HttpRequest) (salt random : Option Bytes) (now : ℕ)
    (s : K.State) (v : Bytes)
    → L.view s (form_field req (codes "username")) pwd ≡ some v
    → Refused K L s (handle_signup K req salt random now s)
unfolding handle_signup
handle_signup-Refused K L req salt random now s v h =
    sign_up-Refused K L (form_field req (codes "username")) (form_field req (codes "password")) v
      salt random now s h
