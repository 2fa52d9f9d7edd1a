-- ===== src/Auth/Laws/Codes.antt =====
-- `verifyOtp` of src/auth/auth.service.ts.
use Prim.Native.String.{String}
use text.Mathlib.Text.{◌==◌ as str_eq}
use seatwaves_backend.Common.{
  ℕ, ◌≡◌, refl, ap, ◌∙◌, Bool, true, false, List, Option, none, some, keep, ◌&&◌, if◌then◌else◌,
  Result, Bool-cases, Option-cases, inl, inr, unauthorized, ok, err, Action, ◌>>=◌, ◌>>◌, or_throw,
  transactional, pure, bind-ok, bind-err, transactional-ok, transactional-err,
}
use seatwaves_backend.Database.Queries.{Queries}
use seatwaves_backend.Auth.Data.{User, UserOtp, AuthStore, Crypto, is_active, is_after, find_email}
use seatwaves_backend.Auth.Otps.{without_email, delete_otps}
use seatwaves_backend.Auth.Codes.{find_otp, active_user, user_of_otp, verify_otp}

module _ (q : Queries) (c : Crypto) (now : ℕ) (otp : String) (s : AuthStore c.Token) where
  active_user-found :
      (o : UserOtp) (u : User)
      → find_email o.email s.users ≡ some u
      → is_active u.status ≡ true
      → active_user q c now o s ≡ (ok u, s)
  unfolding active_user
  active_user-found o u h g = rw (h, g) refl

  active_user-missing :
      (o : UserOtp)
      → find_email o.email s.users ≡ none
      → active_user q c now o s ≡ (err unauthorized, s)
  unfolding active_user
  active_user-missing o h = rw h refl

  active_user-inactive :
      (o : UserOtp) (u : User)
      → find_email o.email s.users ≡ some u
      → is_active u.status ≡ false
      → active_user q c now o s ≡ (err unauthorized, s)
  unfolding active_user
  active_user-inactive o u h g = rw (h, g) refl

  abbrev of_otp : UserOtp → Action (AuthStore c.Token) (UserOtp × User)
  of_otp o = active_user q c now o >>= λ u. pure (o, u)

  user_of_otp-found :
      {o : UserOtp} → find_otp q now otp s.otps ≡ some o → user_of_otp q c now otp s ≡ of_otp o s
  unfolding user_of_otp
  user_of_otp-found h =
      bind-ok (or_throw (find_otp q now otp s.otps) unauthorized) of_otp s
        (ap (λ o. or_throw o unauthorized s) h)

  user_of_otp-missing :
      find_otp q now otp s.otps ≡ none → user_of_otp q c now otp s ≡ (err unauthorized, s)
  unfolding user_of_otp
  user_of_otp-missing h =
      bind-err (or_throw (find_otp q now otp s.otps) unauthorized) of_otp s
        (ap (λ o. or_throw o unauthorized s) h)

  user_of_otp-runs :
      (o : UserOtp) (u : User)
      → find_otp q now otp s.otps ≡ some o
      → find_email o.email s.users ≡ some u
      → is_active u.status ≡ true
      → user_of_otp q c now otp s ≡ (ok (o, u), s)
  user_of_otp-runs o u h g a =
      user_of_otp-found h
      ∙ bind-ok (active_user q c now o) (λ u. pure (o, u)) s (active_user-found o u g a)

  user_of_otp-throws :
      (o : UserOtp)
      → find_otp q now otp s.otps ≡ some o
      → active_user q c now o s ≡ (err unauthorized, s)
      → user_of_otp q c now otp s ≡ (err unauthorized, s)
  user_of_otp-throws o h g =
      user_of_otp-found h ∙ bind-err (active_user q c now o) (λ u. pure (o, u)) s g

module _ (q : Queries) (c : Crypto) (now : ℕ) (otp : String) (s : AuthStore c.Token) where
  -- The token that `verifyOtp` answers, which `resetPassword` takes.
  abbrev pub reset_token : User → c.Token
  reset_token u =
      c.sign now (some 600)
        (record { user_id = some u.id; email = some u.email; status = none; type = none })

  abbrev after_user : UserOtp × User → Action (AuthStore c.Token) c.Token
  after_user p = delete_otps (p.0).email >> pure (reset_token p.1)

  -- The codes of the email are gone.
  abbrev pub spent : UserOtp → AuthStore c.Token
  spent o = record s { otps = without_email o.email s.otps }

  verify_otp-empty : str_eq otp "" ≡ true → verify_otp q c now otp s ≡ (err unauthorized, s)
  unfolding verify_otp
  verify_otp-empty h = rw h refl

  verify_otp-given :
      str_eq otp "" ≡ false
      → verify_otp q c now otp s ≡ transactional (user_of_otp q c now otp >>= after_user) s
  unfolding verify_otp
  verify_otp-given h = rw h refl

  verify_otp-runs :
      (o : UserOtp) (u : User)
      → str_eq otp "" ≡ false
      → user_of_otp q c now otp s ≡ (ok (o, u), s)
      → verify_otp q c now otp s ≡ (ok (reset_token u), spent o)
  verify_otp-runs o u e runs =
      verify_otp-given e
      ∙ transactional-ok (user_of_otp q c now otp >>= after_user) s
          (bind-ok (user_of_otp q c now otp) after_user s runs)

  verify_otp-throws :
      str_eq otp "" ≡ false
      → user_of_otp q c now otp s ≡ (err unauthorized, s)
      → verify_otp q c now otp s ≡ (err unauthorized, s)
  verify_otp-throws e throws =
      verify_otp-given e
      ∙ transactional-err (user_of_otp q c now otp >>= after_user) s
          (bind-err (user_of_otp q c now otp) after_user s throws)

  -- The codes with these characters that are not out of date, of every type and every email.
  abbrev pub codes : List UserOtp
  codes = keep (λ o. str_eq o.otp otp && is_after now o.expires_at) s.otps

  -- What `verifyOtp` does with a code, by the user of its email.
  abbrev pub Admits : UserOtp → Option User → Result c.Token × AuthStore c.Token → Type 0
  Admits o none r = r ≡ (err unauthorized, s)
  Admits o (some u) r =
      if is_active u.status then r ≡ (ok (reset_token u), spent o) else r ≡ (err unauthorized, s)

  -- What `verifyOtp` does, by whether it got no characters and by the code that it finds.
  abbrev pub Spends : Bool → Option UserOtp → Result c.Token × AuthStore c.Token → Type 0
  Spends true _ r = r ≡ (err unauthorized, s)
  Spends false none r = r ≡ (err unauthorized, s)
  Spends false (some o) r = Admits o (find_email o.email s.users) r

  verify_otp-Admits :
      (o : UserOtp)
      → str_eq otp "" ≡ false
      → find_otp q now otp s.otps ≡ some o
      → Admits o (find_email o.email s.users) (verify_otp q c now otp s)
  verify_otp-Admits o e h = elim (Option-cases (find_email o.email s.users)) [
    | inl g ↦ rw g (
        verify_otp-throws e
          (user_of_otp-throws q c now otp s o h (active_user-missing q c now otp s o g)))
    | inr (u, g) ↦ rw g (elim (Bool-cases (is_active u.status)) [
      | inl a ↦ rw a (verify_otp-runs o u e (user_of_otp-runs q c now otp s o u h g a))
      | inr a ↦ rw a (
          verify_otp-throws e
            (user_of_otp-throws q c now otp s o h (active_user-inactive q c now otp s o u g a)))
    ])
  ]

  -- `verifyOtp` takes a code with the given characters that is not out of date, whatever its type and
  -- whoever's its email is. If there are characters and such a code, and the user of its email is
  -- ACTIVE, it answers the token of that user, all codes of the email are gone and nothing else
  -- changed; in every other case it throws unauthorized and changes nothing.
  pub verify_otp-Spends : Spends (str_eq otp "") (q.first UserOtp codes) (verify_otp q c now otp s)
  verify_otp-Spends = elim (Bool-cases (str_eq otp "")) [
    | inl e ↦ rw e (verify_otp-empty e)
    | inr e ↦ rw e (elim (Option-cases (q.first UserOtp codes)) [
      | inl h ↦ rw h (verify_otp-throws e (user_of_otp-missing q c now otp s h))
      | inr (o, h) ↦ rw h (verify_otp-Admits o e h)
    ])
  ]
