-- ===== src/Auth/SignUp.antt =====
-- `signUp` and `socialLogin` of src/auth/auth.service.ts. `role` says whether there is the role USER,
-- whose row the new user is linked with.
use Prim.Native.String.{String}
use seatwaves_backend.Common.{
  ℕ, Bool, true, false, not, ◌∷◌, Option, none, some, map, is_some, Action, pure, gets, modify,
  throw_if, transactional, ◌>>=◌, ◌>>◌, unauthorized,
}
use seatwaves_backend.Database.Queries.{Queries}
use seatwaves_backend.Auth.Data.{
  UserStatus, OtpType, LoginHistoryStatus, Crypto, User, Account, AuthStore, find_email, user_id,
  log,
}
use seatwaves_backend.Auth.Otps.{delete_otps, create_otp, send_otp}
use seatwaves_backend.Auth.SignIn.{generate_tokens, generate_refresh_token}

abbrev pub new_user : ℕ → String → Option String → Bool → User
new_user i e hashed is_email_verified = record {
  id = i;
  email = e;
  password = hashed;
  status = UserStatus.active;
  is_email_verified = is_email_verified;
  is_two_factor_enabled = false;
  blocked_until = none;
  last_login_at = none;
}

abbrev pub account_id : {Token : Type 0} → Account Token → ℕ
account_id a = a.id

module _ (q : Queries) (c : Crypto) (now : ℕ) where
  -- `user.create` with its account.
  unfoldable pub create_user :
      String → Option String → Bool → String → Action (AuthStore c.Token) User
  create_user e hashed is_email_verified provider = do
    users ← gets (λ s. s.users)
    accounts ← gets (λ s. s.accounts)
    let u : User = new_user (q.fresh_id (map user_id users)) e hashed is_email_verified in
        modify (λ s. record s {
          users = u ∷ s.users;
          accounts =
              record {
                id = q.fresh_id (map account_id accounts);
                user_id = u.id;
                provider = provider;
                refresh_token = none;
              }
              ∷ s.accounts;
        })
        >> pure u

  -- `signUp`
  unfoldable pub sign_up :
      Bool → ℕ → String → String → String → Action (AuthStore c.Token) (Unit {0})
  unfolding create_user create_otp
  sign_up role salt otp e password = do
    users ← gets (λ s. s.users)
    throw_if (is_some (find_email e users)) unauthorized
    throw_if (not role) unauthorized
    transactional (do
      u ← create_user e (some (c.hash salt password)) false "credentials"
      delete_otps u.email
      create_otp now u.email OtpType.verify_email otp)
    send_otp e otp

  -- The user of `socialLogin`, who is created if there is none.
  unfoldable pub social_user :
      Bool → String → String → Option User → Action (AuthStore c.Token) User
  unfolding create_user
  social_user role provider e none =
      throw_if (not role) unauthorized >> create_user e none true provider
  social_user role provider e (some u) = pure u

  -- `socialLogin`; the tokens are an access token and a refresh token.
  unfoldable pub social_login :
      Bool → String → String → Action (AuthStore c.Token) (c.Token × c.Token)
  unfolding social_user generate_refresh_token
  social_login role provider e = do
    users ← gets (λ s. s.users)
    u ← social_user role provider e (find_email e users)
    t ← generate_refresh_token q c now u.id u.status
    modify (log u.id LoginHistoryStatus.success now)
    pure (generate_tokens q c now u.id u.status, t)
