-- ===== src/Auth/SignIn.antt =====
-- `signIn`, `signInWeb`, `checkLoginAttempts` and the tokens of src/auth/auth.service.ts. What the
-- code reads of the user at first it keeps using, also after it unblocked the user.
use Prim.Native.String.{String}
use seatwaves_backend.Common.{
  ℕ, ◌+◌, Bool, not, List, Option, none, some, leb, ◌==◌, length, take, map, if◌then◌else◌, keep,
  is_some, Action, pure, throw, gets, modify, throw_if, or_throw, ◌>>=◌, ◌>>◌, unauthorized,
  not_found,
}
use seatwaves_backend.Database.Table.{update}
use seatwaves_backend.Database.Queries.{Queries}
use seatwaves_backend.Auth.Data.{
  UserStatus, OtpType, LoginHistoryStatus, LoginHistory, Payload, Crypto, User, Account, AuthStore,
  is_failed, find_email, user_id, write_user, log,
}
use seatwaves_backend.Auth.Otps.{
  unblock, create_otp, send_otp, renew_otp, without_two_factor, credentials_of,
}

abbrev pub two_minutes : ℕ
two_minutes = 120_000

abbrev pub token_of : ℕ → UserStatus → Payload
token_of i status = record { user_id = some i; email = none; status = some status; type = none }

-- The three latest attempts of a user.
abbrev pub latest_attempts : Queries → ℕ → List LoginHistory → List LoginHistory
latest_attempts q i history = take 3 (
    q.order_desc LoginHistory (λ h. h.created_at)
      (keep (λ (h : LoginHistory). h.user_id == i) history))

-- `failedAttempts.length >= 3`
abbrev pub has_failed_thrice : Queries → ℕ → List LoginHistory → Bool
has_failed_thrice q i history =
    leb 3 (length (keep (λ (h : LoginHistory). is_failed h.attempt) (latest_attempts q i history)))

abbrev pub block : ℕ → User → User
block now u = record u { status = UserStatus.blocked; blocked_until = some (now + two_minutes) }

-- An answer of the sign in: the tokens, or the token of a page that asks for a code.
pub data Answer (Token : Type 0) : Type 0 where
  signed_in : Token → Token → Answer Token
  code_required : OtpType → Token → Answer Token

module _ (q : Queries) (c : Crypto) (now : ℕ) where
  -- `generateTokens`
  abbrev pub generate_tokens : ℕ → UserStatus → c.Token
  generate_tokens i status = c.sign now (some 86_400) (token_of i status)

  -- `generateOtpToken`
  abbrev pub generate_otp_token : UserStatus → String → OtpType → c.Token
  generate_otp_token status e k =
      c.sign now (some 600)
        (record { user_id = none; email = some e; status = some status; type = some k })

  -- `account.updateMany({ where: { userId }, data: { refreshToken } })`
  abbrev pub set_refresh_token : ℕ → Option c.Token → AuthStore c.Token → AuthStore c.Token
  set_refresh_token i t s = record s {
    accounts =
        map (λ (a : Account c.Token). if a.user_id == i then record a { refresh_token = t } else a)
          s.accounts;
  }

  -- `generateRefreshToken`
  unfoldable pub generate_refresh_token : ℕ → UserStatus → Action (AuthStore c.Token) c.Token
  generate_refresh_token i status =
      let t = c.sign now (some 604_800) (token_of i status) in
      modify (set_refresh_token i (some t)) >> pure t

  -- `checkLoginAttempts`
  unfoldable pub check_login_attempts : ℕ → Action (AuthStore c.Token) (Unit {0})
  check_login_attempts i = do
    history ← gets (λ s. s.history)
    modify (λ s. record s {
      users =
          if has_failed_thrice q i history then update user_id i (block now) s.users else s.users;
    })
    throw_if (has_failed_thrice q i history) unauthorized

  -- A sign in with a wrong password.
  unfoldable pub refuse : ℕ → Action (AuthStore c.Token) (Unit {0})
  unfolding check_login_attempts
  refuse i = do
    modify (log i LoginHistoryStatus.failed now)
    check_login_attempts i
    throw unauthorized

  -- The hash of a user who may sign in with a password.
  abbrev pub hashed_of : User → AuthStore c.Token → Option String
  hashed_of u s = if is_some (credentials_of q u.id s.accounts) then u.password else none

  unfoldable pub check_password :
      User → String → Option String → Action (AuthStore c.Token) (Unit {0})
  unfolding unblock refuse
  check_password u password none = do
    modify (log u.id LoginHistoryStatus.failed now)
    throw unauthorized
  check_password u password (some hashed) = do
    unblock now u
    if c.compare password hashed then pure tt else refuse u.id

  unfoldable pub authenticate_user : String → User → Action (AuthStore c.Token) User
  unfolding check_password
  authenticate_user password u = do
    hashed ← gets (hashed_of u)
    check_password u password hashed
    pure u

  -- The checks that both sign ins begin with.
  unfoldable pub authenticate : String → String → Action (AuthStore c.Token) User
  unfolding authenticate_user
  authenticate e password = do
    users ← gets (λ s. s.users)
    u ← or_throw (find_email e users) not_found
    authenticate_user password u

  -- A new TWO_FACTOR code.
  unfoldable pub renew_two_factor : String → String → Action (AuthStore c.Token) (Unit {0})
  unfolding create_otp
  renew_two_factor e otp = do
    modify (λ s. record s { otps = without_two_factor e s.otps })
    create_otp now e OtpType.two_factor otp
    send_otp e otp

  -- What both sign ins end with.
  unfoldable pub open_session : User → Action (AuthStore c.Token) (Answer c.Token)
  unfolding generate_refresh_token
  open_session u = do
    modify (log u.id LoginHistoryStatus.success now)
    t ← generate_refresh_token u.id u.status
    pure (signed_in (generate_tokens u.id u.status) t)

  -- What `signIn` answers to a user with the right password, with the codes for the email and for
  -- the second factor.
  unfoldable pub answer : String → String → User → Action (AuthStore c.Token) (Answer c.Token)
  unfolding renew_otp renew_two_factor open_session
  answer otp otp' u = do
    if u.is_email_verified then pure tt else renew_otp now u.email OtpType.verify_email otp
    if u.is_two_factor_enabled then renew_two_factor u.email otp' else pure tt
    open_session u

  -- `signIn`
  unfoldable pub sign_in :
      String → String → String → String → Action (AuthStore c.Token) (Answer c.Token)
  unfolding authenticate answer
  sign_in otp otp' e password = do u ← authenticate e password; answer otp otp' u

  -- What `signInWeb` answers to a user with the right password.
  unfoldable pub answer_web : String → User → Action (AuthStore c.Token) (Answer c.Token)
  unfolding renew_otp renew_two_factor open_session
  answer_web otp u =
      if not u.is_email_verified
      then renew_otp now u.email OtpType.verify_email otp
        >> pure (
            code_required OtpType.verify_email
              (generate_otp_token u.status u.email OtpType.verify_email))
      else (if u.is_two_factor_enabled
          then renew_two_factor u.email otp
            >> pure (
                code_required OtpType.two_factor
                  (generate_otp_token u.status u.email OtpType.two_factor))
          else (open_session u >>= (λ a.
              modify (write_user u.id (λ (v : User). record v { last_login_at = some now }))
              >> pure a)))

  -- `signInWeb`
  unfoldable pub sign_in_web :
      String → String → String → Action (AuthStore c.Token) (Answer c.Token)
  unfolding authenticate answer_web
  sign_in_web otp e password = do u ← authenticate e password; answer_web otp u
