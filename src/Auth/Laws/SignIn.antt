-- ===== src/Auth/Laws/SignIn.antt =====
-- `signIn` and `signInWeb` of src/auth/auth.service.ts.
use Prim.Native.String.{String}
use seatwaves_backend.Common.{
  ℕ, ◌≡◌, refl, ap, sym, ◌∙◌, ◌⊎◌, Bool, true, false, some, arith, if◌then◌else◌, inl, inr,
  HttpError, Result, ok, err, Action, bind-ok, bind-err, ◌>>=◌, ◌>>◌, pure,
}
use seatwaves_backend.Database.Queries.{Queries}
use seatwaves_backend.Auth.Data.{OtpType, User, AuthStore, Crypto}
use seatwaves_backend.Auth.Otps.{create_otp, send_otp, renew_otp, without_two_factor}
use seatwaves_backend.Auth.SignIn.{
  Answer, signed_in, token_of, authenticate, generate_tokens, generate_refresh_token,
  renew_two_factor, open_session, answer, answer_web, sign_in, sign_in_web,
}
use seatwaves_backend.Auth.Laws.Otps.{
  unblocked, create_otp-new, has_otp-without_two_factor, renew_otp-renewed,
}
use seatwaves_backend.Auth.Laws.Password.{
  authenticate-right, Passes, Admits, Throws, authenticate-cases,
}

-- The call returns, in some state.
abbrev pub Returns : {S A : Type 0} → A → Result A × S → Type 0
Returns {S} a r = (t : S) × (r ≡ (ok a, t))

module _ (q : Queries) (c : Crypto) (now : ℕ) where
  pub renew_two_factor-Returns :
      (e otp : String) (s : AuthStore c.Token) → Returns tt (renew_two_factor q c now e otp s)
  unfolding renew_two_factor
  renew_two_factor-Returns e otp s =
      let t : AuthStore c.Token = record s { otps = without_two_factor e s.otps } in
      (
        _,
        bind-ok (create_otp now e OtpType.two_factor otp) (λ _. send_otp e otp) t
            (create_otp-new now e OtpType.two_factor otp t (has_otp-without_two_factor e s.otps)),
      )

  -- The tokens of a user.
  abbrev pub session : User → Answer c.Token
  session u =
      signed_in (generate_tokens q c now u.id u.status)
        (c.sign now (some 604_800) (token_of u.id u.status))

  pub open_session-Returns :
      (u : User) (s : AuthStore c.Token) → Returns (session u) (open_session q c now u s)
  unfolding open_session generate_refresh_token
  open_session-Returns u s = (_, refl)

  branch-Returns :
      (b : Bool) (m n : Action (AuthStore c.Token) (Unit {0})) (s : AuthStore c.Token)
      → Returns tt (m s)
      → Returns tt (n s)
      → Returns tt ((if b then m else n) s)
  branch-Returns true m n s h k = h
  branch-Returns false m n s h k = k

  pub answer-Returns :
      (otp otp' : String) (u : User) (s : AuthStore c.Token)
      → Returns (session u) (answer q c now otp otp' u s)
  unfolding answer
  answer-Returns otp otp' u s =
      let email_code : Action (AuthStore c.Token) (Unit {0}) =
        if u.is_email_verified then pure tt else renew_otp now u.email OtpType.verify_email otp in
      let factor_code : Action (AuthStore c.Token) (Unit {0}) =
        if u.is_two_factor_enabled then renew_two_factor q c now u.email otp' else pure tt in
      let (s1, first) =
        branch-Returns u.is_email_verified (pure tt)
          (renew_otp now u.email OtpType.verify_email otp) s (s, refl)
          (_, renew_otp-renewed now u.email OtpType.verify_email otp s) in
      let (s2, second) =
        branch-Returns u.is_two_factor_enabled (renew_two_factor q c now u.email otp') (pure tt) s1
          (renew_two_factor-Returns u.email otp' s1) (s1, refl) in
      let (t, last) = open_session-Returns u s2 in
      (
        t,
        bind-ok email_code (λ _. factor_code >> open_session q c now u) s first
            ∙ bind-ok factor_code (λ _. open_session q c now u) s1 second
            ∙ last,
      )

  module _ (otp otp' e password : String) (s : AuthStore c.Token) where
    refuted : {A : Type 0} {x : HttpError} {a : A} → err x ≡ ok a → ⊥
    refuted h = grind arith

    admitted :
        (Admits q c now e password s ⊎ Throws q c now e password s)
        → (k : User → Action (AuthStore c.Token) (Answer c.Token)) (a : Answer c.Token)
        → ((authenticate q c now e password >>= k) s).0 ≡ ok a
        → (u : User) × (hashed : String) × Passes q c now e password s u hashed
    admitted (inl (u, hashed, runs, passes)) k a h = (u, hashed, passes)
    admitted (inr (x, t, throws)) k a h = absurd (
        refuted (
          sym (
            ap (λ (r : Result (Answer c.Token) × AuthStore c.Token). r.0)
              (bind-err (authenticate q c now e password) k s throws))
          ∙ h))

    sign_in-admitted :
        (a : Answer c.Token)
        → (sign_in q c now otp otp' e password s).0 ≡ ok a
        → (u : User) × (hashed : String) × Passes q c now e password s u hashed
    unfolding sign_in
    sign_in-admitted a h =
        admitted (authenticate-cases q c now e password s) (answer q c now otp otp') a h

    sign_in_web-admitted :
        (a : Answer c.Token)
        → (sign_in_web q c now otp e password s).0 ≡ ok a
        → (u : User) × (hashed : String) × Passes q c now e password s u hashed
    unfolding sign_in_web
    sign_in_web-admitted a h =
        admitted (authenticate-cases q c now e password s) (answer_web q c now otp) a h

-- If `signIn` or `signInWeb` answers, with tokens or by asking for a code, then there is a user of
-- the email who has an account with credentials and a password, the password given is that one, and
-- the user is not blocked until a later time.
pub sign_in-Passes :
    (q : Queries) (c : Crypto) (now : ℕ) (otp otp' e password : String) (s : AuthStore c.Token)
    (a : Answer c.Token)
    → ((sign_in q c now otp otp' e password s).0 ≡ ok a)
      ⊎ ((sign_in_web q c now otp e password s).0 ≡ ok a)
    → (u : User) × (hashed : String) × Passes q c now e password s u hashed
sign_in-Passes q c now otp otp' e password s a (inl h) =
    sign_in-admitted q c now otp otp' e password s a h
sign_in-Passes q c now otp otp' e password s a (inr h) =
    sign_in_web-admitted q c now otp otp' e password s a h

-- `signIn` answers the tokens of the user if the password is right and the user is not blocked,
-- whatever else: also if the email is not verified, the user has a second factor, or the status is
-- not ACTIVE.
pub sign_in-session :
    (q : Queries) (c : Crypto) (now : ℕ) (otp otp' e password : String) (s : AuthStore c.Token)
    (u : User) (hashed : String)
    → Passes q c now e password s u hashed
    → (sign_in q c now otp otp' e password s).0 ≡ ok (session q c now u)
unfolding sign_in
sign_in-session q c now otp otp' e password s u hashed (found, has, right, free) =
    let (t, runs) = answer-Returns q c now otp otp' u (unblocked now u s) in
    ap (λ (r : Result (Answer c.Token) × AuthStore c.Token). r.0)
      (bind-ok (authenticate q c now e password) (answer q c now otp otp') s
          (authenticate-right q c now e password s u found hashed has free right)
        ∙ runs)
