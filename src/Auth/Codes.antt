-- ===== src/Auth/Codes.antt =====
-- `verifyEmail`, `verifyOtp`, `verify2fa`, `resetPassword`, `changePassword`, `refreshTokens` and
-- `logout` of src/auth/auth.service.ts.
use Prim.Native.String.{String}
use text.Mathlib.Text.{◌==◌ as str_eq}
use seatwaves_backend.Common.{
  ℕ, Bool, true, false, not, ◌&&◌, List, Option, none, some, ◌==◌, if◌then◌else◌, keep, Action,
  pure, gets, modify, throw_if, or_throw, transactional, ◌>>=◌, ◌>>◌, unauthorized, failure,
}
use seatwaves_backend.Database.Table.{find_unique}
use seatwaves_backend.Database.Queries.{Queries}
use seatwaves_backend.Auth.Data.{
  UserStatus, LoginHistoryStatus, Crypto, User, UserOtp, Account, AuthStore, is_active, is_after,
  find_email, user_id, write_user, log,
}
use seatwaves_backend.Auth.Otps.{delete_otps}
use seatwaves_backend.Auth.SignIn.{generate_tokens, generate_refresh_token, set_refresh_token}

-- `{ otp, expiresAt: { gt: new Date() } }`: neither the email nor the type of the code is asked for.
abbrev pub is_valid_otp : ℕ → String → UserOtp → Bool
is_valid_otp now otp o = str_eq o.otp otp && is_after now o.expires_at

abbrev pub find_otp : Queries → ℕ → String → List UserOtp → Option UserOtp
find_otp q now otp otps = q.first UserOtp (keep (is_valid_otp now otp) otps)

-- `{ status: 'ACTIVE', isEmailVerified: true }`
abbrev pub verified : User → User
verified u = record u { status = UserStatus.active; is_email_verified = true }

abbrev pub set_password : String → User → User
set_password hashed u = record u { password = some hashed }

module _ (q : Queries) (c : Crypto) (now : ℕ) where
  -- What `verifyEmail` does for the user of the code.
  unfoldable pub activate_user : String → User → Action (AuthStore c.Token) (c.Token × c.Token)
  unfolding generate_refresh_token
  activate_user e u = do
    modify (write_user u.id verified)
    delete_otps e
    t ← generate_refresh_token q c now u.id UserStatus.active
    pure (generate_tokens q c now u.id UserStatus.active, t)

  unfoldable pub activate_email : UserOtp → Action (AuthStore c.Token) (c.Token × c.Token)
  unfolding activate_user
  activate_email o = do
    users ← gets (λ s. s.users)
    u ← or_throw (find_email o.email users) failure
    activate_user o.email u

  -- `verifyEmail`; the tokens are an access token and a refresh token.
  unfoldable pub verify_email : String → Action (AuthStore c.Token) (c.Token × c.Token)
  unfolding activate_email
  verify_email otp = transactional (do
    otps ← gets (λ s. s.otps)
    o ← or_throw (find_otp q now otp otps) unauthorized
    activate_email o)

  -- The user of a code, who has to be active.
  unfoldable pub active_user : UserOtp → Action (AuthStore c.Token) User
  active_user o = do
    users ← gets (λ s. s.users)
    u ← or_throw (find_email o.email users) unauthorized
    throw_if (not (is_active u.status)) unauthorized
    pure u

  -- The user of a valid code and the code, which both `verifyOtp` and `verify2fa` start with.
  unfoldable pub user_of_otp : String → Action (AuthStore c.Token) (UserOtp × User)
  unfolding active_user
  user_of_otp otp = do
    otps ← gets (λ s. s.otps)
    o ← or_throw (find_otp q now otp otps) unauthorized
    u ← active_user o
    pure (o, u)

  -- `verifyOtp`
  unfoldable pub verify_otp : String → Action (AuthStore c.Token) c.Token
  unfolding user_of_otp
  verify_otp otp = do
    throw_if (str_eq otp "") unauthorized
    transactional (do
      p ← user_of_otp otp
      delete_otps (p.0).email
      pure (
          c.sign now (some 600) (record {
            user_id = some (p.1).id;
            email = some (p.1).email;
            status = none;
            type = none;
          })))

  -- `verify2fa`
  unfoldable pub verify_two_factor : String → Action (AuthStore c.Token) (c.Token × c.Token)
  unfolding user_of_otp generate_refresh_token
  verify_two_factor otp = do
    throw_if (str_eq otp "") unauthorized
    p ← user_of_otp otp
    delete_otps (p.0).email
    t ← generate_refresh_token q c now (p.1).id (p.1).status
    modify (log (p.1).id LoginHistoryStatus.success now)
    pure (generate_tokens q c now (p.1).id (p.1).status, t)

  abbrev pub same_password : Option String → String → Bool
  same_password none hashed = false
  same_password (some old) hashed = str_eq old hashed

  -- `resetPassword`; `salt` is what `bcrypt.hash` draws.
  unfoldable pub reset_password : ℕ → c.Token → String → Action (AuthStore c.Token) (Unit {0})
  reset_password salt token new_password = do
    p ← or_throw (c.verify now token) unauthorized
    i ← or_throw (p.user_id) unauthorized
    users ← gets (λ s. s.users)
    u ← or_throw (find_unique user_id i users) unauthorized
    throw_if (not (is_active u.status)) unauthorized
    throw_if (same_password u.password (c.hash salt new_password)) unauthorized
    modify (write_user u.id (set_password (c.hash salt new_password)))
    modify (log u.id LoginHistoryStatus.reset_password now)

  -- `!found || found.status !== 'ACTIVE' || !found.password`
  abbrev pub old_password : Option User → Option (User × String)
  old_password none = none
  old_password (some u) =
      if is_active u.status then (elim u.password [ none ↦ none | some p ↦ some (u, p) ]) else none

  -- `changePassword`
  unfoldable pub change_password : ℕ → String → String → ℕ → Action (AuthStore c.Token) c.Token
  change_password salt old new_password i = do
    users ← gets (λ s. s.users)
    found ← or_throw (old_password (find_unique user_id i users)) unauthorized
    throw_if (not (c.compare old found.1)) unauthorized
    modify (write_user i (set_password (c.hash salt new_password)))
    modify (log i LoginHistoryStatus.reset_password now)
    pure (
        c.sign now none
          (record { user_id = some (found.0).id; email = none; status = none; type = none }))

  -- `account.findFirst({ where: { userId } })`
  abbrev pub account_of : ℕ → List (Account c.Token) → Option (Account c.Token)
  account_of i accounts = q.first (Account c.Token) (keep (λ a. a.user_id == i) accounts)

  abbrev pub refresh_token_of : Account c.Token → User → Action (AuthStore c.Token) c.Token
  refresh_token_of a u = elim a.refresh_token [
    | none ↦ generate_refresh_token q c now u.id u.status
    | some t ↦ pure t
  ]

  -- `refreshTokens`
  unfoldable pub refresh_tokens : ℕ → Action (AuthStore c.Token) (c.Token × c.Token)
  unfolding generate_refresh_token
  refresh_tokens i = do
    accounts ← gets (λ s. s.accounts)
    a ← or_throw (account_of i accounts) unauthorized
    users ← gets (λ s. s.users)
    u ← or_throw (find_unique user_id a.user_id users) failure
    throw_if (not (is_active u.status)) unauthorized
    t ← refresh_token_of a u
    pure (generate_tokens q c now u.id UserStatus.active, t)

  -- `logout`
  unfoldable pub logout : ℕ → Action (AuthStore c.Token) (Unit {0})
  logout i = modify (set_refresh_token q c now i none)
