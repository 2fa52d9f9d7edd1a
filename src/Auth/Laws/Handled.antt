-- ===== src/Auth/Laws/Handled.antt =====
-- Errors of src/auth/auth.service.ts: a call answers, or throws an exception of the framework, and
-- never one of the database.
use Prim.Native.String.{String}
use seatwaves_backend.Common.{
  ℕ, Bool, false, not, Option, none, some, is_some, if◌then◌else◌, not_found, unauthorized, ◌>>◌,
  ◌∷◌,
}
use seatwaves_backend.Common.Exceptions.{
  IsHandled, Handles, pure-Handles, gets-Handles, or_throw-Handles, bind-Handles,
  transactional-Handles, returned-IsHandled, thrown-IsHandled, if-Handles, throw_if-Handles,
  modify-Handles,
}
use seatwaves_backend.Database.Table.{update}
use seatwaves_backend.Database.Queries.{Queries}
use seatwaves_backend.Auth.Data.{
  User, OtpType, AuthStore, Crypto, is_active, is_blocked, find_email, user_id, write_user,
}
use seatwaves_backend.Auth.Otps.{
  activate, unblock, renew_otp, resend_otp, resend_two_factor, forgot_password, credentials_of,
  last_two_factor, is_waiting, delete_otps, create_otp, without_email,
}
use seatwaves_backend.Auth.SignIn.{
  refuse, generate_otp_token, code_required, hashed_of, check_password, authenticate_user,
  authenticate, answer, answer_web, open_session, renew_two_factor, sign_in, sign_in_web,
}
use seatwaves_backend.Auth.SignUp.{create_user, sign_up}
use seatwaves_backend.Auth.Laws.Otps.{renew_otp-renewed, create_otp-new, has_otp-without_email}
use seatwaves_backend.Auth.Laws.Password.{refuse-refused}
use seatwaves_backend.Auth.Laws.SignIn.{
  answer-Returns, open_session-Returns, renew_two_factor-Returns,
}

module _ {Token : Type 0} (now : ℕ) where
  unblock-Handles : (u : User) → Handles {S = AuthStore Token} (unblock now u)
  unfolding unblock
  unblock-Handles u = bind-Handles (throw_if-Handles _ unauthorized tt) (λ _.
      modify-Handles (λ (s : AuthStore Token). record s {
        users = if is_blocked u.status then update user_id u.id activate s.users else s.users;
      }))

  renew_otp-Handles :
      (e : String) (k : OtpType) (otp : String)
      → Handles {S = AuthStore Token} (renew_otp now e k otp)
  renew_otp-Handles e k otp = record {
    handled = λ s. returned-IsHandled (renew_otp now e k otp s) (renew_otp-renewed now e k otp s);
  }

  resend_otp-Handles :
      (otp e : String) (k : OtpType) → Handles {S = AuthStore Token} (resend_otp now otp e k)
  unfolding resend_otp
  resend_otp-Handles otp e k =
      bind-Handles (gets-Handles (λ (s : AuthStore Token). s.users)) λ users.
        bind-Handles (or_throw-Handles (find_email e users) unauthorized tt)
          λ u. bind-Handles (unblock-Handles u) λ _. renew_otp-Handles u.email k otp

  resend_two_factor-Handles :
      (q : Queries) (otp e : String) → Handles {S = AuthStore Token} (resend_two_factor q now otp e)
  unfolding resend_two_factor
  resend_two_factor-Handles q otp e =
      bind-Handles (gets-Handles (λ (s : AuthStore Token). s.users)) λ users.
        bind-Handles (or_throw-Handles (find_email e users) unauthorized tt) λ u.
          bind-Handles (unblock-Handles u) λ _.
            bind-Handles (gets-Handles (λ (s : AuthStore Token). s.otps)) λ otps.
              bind-Handles
                (throw_if-Handles (is_waiting now (last_two_factor q u.email otps)) unauthorized tt)
                λ _. renew_otp-Handles u.email OtpType.two_factor otp

  forgot_password-Handles :
      (q : Queries) (otp e : String) → Handles {S = AuthStore Token} (forgot_password q now otp e)
  unfolding forgot_password
  forgot_password-Handles q otp e =
      bind-Handles (gets-Handles (λ (s : AuthStore Token). s.users)) λ users.
        bind-Handles (or_throw-Handles (find_email e users) unauthorized tt) λ u.
          bind-Handles (unblock-Handles u) λ _.
            bind-Handles (throw_if-Handles (not (is_active u.status)) unauthorized tt) λ _.
              bind-Handles (gets-Handles (λ (s : AuthStore Token). s.accounts)) λ accounts.
                bind-Handles
                  (throw_if-Handles (not (is_some (credentials_of q u.id accounts))) unauthorized
                    tt)
                  λ _. renew_otp-Handles u.email OtpType.verify_email otp

module _ (q : Queries) (c : Crypto) (now : ℕ) where
  renew_two_factor-Handles : (e otp : String) → Handles (renew_two_factor q c now e otp)
  renew_two_factor-Handles e otp = record {
    handled = λ s.
        returned-IsHandled (renew_two_factor q c now e otp s)
          (renew_two_factor-Returns q c now e otp s).1;
  }

  answer-Handles : (otp otp' : String) (u : User) → Handles (answer q c now otp otp' u)
  answer-Handles otp otp' u = record {
    handled = λ s.
        returned-IsHandled (answer q c now otp otp' u s) (answer-Returns q c now otp otp' u s).1;
  }

  open_session-Handles : (u : User) → Handles (open_session q c now u)
  open_session-Handles u = record {
    handled =
        λ s. returned-IsHandled (open_session q c now u s) (open_session-Returns q c now u s).1;
  }

  answer_web-Handles : (otp : String) (u : User) → Handles (answer_web q c now otp u)
  unfolding answer_web
  answer_web-Handles otp u =
      if-Handles (not u.is_email_verified)
        (bind-Handles (renew_otp-Handles now u.email OtpType.verify_email otp) λ _. pure-Handles (
          code_required OtpType.verify_email
            (generate_otp_token q c now u.status u.email OtpType.verify_email)))
        (if-Handles u.is_two_factor_enabled
          (bind-Handles (renew_two_factor-Handles u.email otp) λ _. pure-Handles (
            code_required OtpType.two_factor
              (generate_otp_token q c now u.status u.email OtpType.two_factor)))
          (bind-Handles (open_session-Handles u) λ a.
            bind-Handles
              (modify-Handles
                (write_user u.id (λ (v : User). record v { last_login_at = some now })))
              λ _. pure-Handles a))

  refuse-Handles : (i : ℕ) → Handles (refuse q c now i)
  refuse-Handles i = record {
    handled = λ s. thrown-IsHandled (refuse q c now i s) (refuse-refused q c now i s) tt;
  }

  check_password-Handles :
      (u : User) (password : String) (o : Option String)
      → Handles (check_password q c now u password o)
  unfolding check_password
  check_password-Handles u password none = record { handled = λ s. tt }
  check_password-Handles u password (some hashed) =
      bind-Handles (unblock-Handles now u)
        λ _. if-Handles (c.compare password hashed) (pure-Handles tt) (refuse-Handles u.id)

  authenticate_user-Handles :
      (password : String) (u : User) → Handles (authenticate_user q c now password u)
  unfolding authenticate_user
  authenticate_user-Handles password u =
      bind-Handles (gets-Handles (hashed_of q c now u))
        λ hashed. bind-Handles (check_password-Handles u password hashed) λ _. pure-Handles u

  authenticate-Handles : (e password : String) → Handles (authenticate q c now e password)
  unfolding authenticate
  authenticate-Handles e password =
      bind-Handles (gets-Handles (λ (s : AuthStore c.Token). s.users)) λ users.
        bind-Handles (or_throw-Handles (find_email e users) not_found tt)
          (authenticate_user-Handles password)

  sign_in-Handles : (otp otp' e password : String) → Handles (sign_in q c now otp otp' e password)
  unfolding sign_in
  sign_in-Handles otp otp' e password =
      bind-Handles (authenticate-Handles e password) (answer-Handles otp otp')

  sign_in_web-Handles : (otp e password : String) → Handles (sign_in_web q c now otp e password)
  unfolding sign_in_web
  sign_in_web-Handles otp e password =
      bind-Handles (authenticate-Handles e password) (answer_web-Handles otp)

  create_user-Handles :
      (e : String) (hashed : Option String) (b : Bool) (provider : String)
      → Handles (create_user q c now e hashed b provider)
  unfolding create_user
  create_user-Handles e hashed b provider = record { handled = λ s. tt }

  replace_otp-Handles :
      (e : String) (k : OtpType) (otp : String)
      → Handles (delete_otps {Token = c.Token} e >> create_otp now e k otp)
  replace_otp-Handles e k otp = record {
    handled = λ s.
        returned-IsHandled (create_otp now e k otp (record s { otps = without_email e s.otps })) (
          create_otp-new now e k otp (record s { otps = without_email e s.otps })
            (has_otp-without_email e k s.otps));
  }

  sign_up-Handles :
      (role : Bool) (salt : ℕ) (otp e password : String)
      → Handles (sign_up q c now role salt otp e password)
  unfolding sign_up
  sign_up-Handles role salt otp e password =
      bind-Handles (gets-Handles (λ (s : AuthStore c.Token). s.users)) λ users.
        bind-Handles (throw_if-Handles (is_some (find_email e users)) unauthorized tt) λ _.
          bind-Handles (throw_if-Handles (not role) unauthorized tt) λ _.
            bind-Handles
              (transactional-Handles (
                bind-Handles
                  (create_user-Handles e (some (c.hash salt password)) false "credentials")
                  (λ u. replace_otp-Handles u.email OtpType.verify_email otp)))
              (λ _. modify-Handles (λ (s : AuthStore c.Token). record s {
                mails = record { to = e; otp = otp } ∷ s.mails;
              }))

-- The calls that make a code, `signUp`, `resendOtp`, `resend2fa`, `forgotPassword`, `signIn` and `signInWeb`,
-- answer or throw an exception of the framework: on no state does the row that they create break
-- the rule that an email has one code of a type.
pub codes-IsHandled :
    (q : Queries) (c : Crypto) (now : ℕ) (role : Bool) (salt : ℕ) (otp otp' e password : String)
    (k : OtpType) (s : AuthStore c.Token)
    → IsHandled (sign_up q c now role salt otp e password s).0
      × IsHandled (resend_otp now otp e k s).0
      × IsHandled (resend_two_factor q now otp e s).0
      × IsHandled (forgot_password q now otp e s).0
      × IsHandled (sign_in q c now otp otp' e password s).0
      × IsHandled (sign_in_web q c now otp e password s).0
codes-IsHandled q c now role salt otp otp' e password k s = (
  (sign_up-Handles q c now role salt otp e password).handled s,
  (resend_otp-Handles now otp e k).handled s,
  (resend_two_factor-Handles now q otp e).handled s,
  (forgot_password-Handles now q otp e).handled s,
  (sign_in-Handles q c now otp otp' e password).handled s,
  (sign_in_web-Handles q c now otp e password).handled s,
)
