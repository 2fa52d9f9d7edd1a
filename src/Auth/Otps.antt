-- ===== src/Auth/Otps.antt =====
-- The codes of src/auth/auth.service.ts: `resendOtp`, `resend2fa` and `forgotPassword`, with the
-- block check that they share with the sign in. `otp` is the code that `generateMixedOTP(6)` gave.
use Prim.Native.String.{String}
use text.Mathlib.Text.{◌==◌ as str_eq}
use seatwaves_backend.Common.{
  ℕ, ◌+◌, Bool, true, false, not, ◌&&◌, ◌||◌, List, [], ◌∷◌, Option, none, some, ltb, ◌==◌,
  if◌then◌else◌, keep, is_some, Action, gets, modify, throw_if, or_throw, ◌>>=◌, ◌>>◌, unauthorized,
  failure,
}
use mathlib.Core.List.{head?}
use seatwaves_backend.Database.Table.{update}
use seatwaves_backend.Database.Queries.{Queries}
use seatwaves_backend.Auth.Data.{
  UserStatus, OtpType, User, UserOtp, Account, AuthStore, is_active, is_blocked, is_two_factor,
  is_after, type_code, find_email, user_id,
}

abbrev pub ten_minutes : ℕ
ten_minutes = 600_000

-- `{ status: 'ACTIVE', blockedUntil: null }`
abbrev pub activate : User → User
activate u = record u { status = UserStatus.active; blocked_until = none }

-- Whether a row has the email and the type, which `@@unique([email, type])` allows once.
unfoldable pub has_otp : String → OtpType → List UserOtp → Bool
has_otp e k [] = false
has_otp e k (o ∷ t) = str_eq o.email e && type_code o.type == type_code k || has_otp e k t

abbrev pub new_otp : ℕ → String → OtpType → String → UserOtp
new_otp now e k otp = record {
  type = k;
  email = e;
  otp = otp;
  expires_at = some (now + ten_minutes);
  created_at = now;
}

-- `userOtp.deleteMany({ where: { email } })`, and the one that also asks for a type.
abbrev pub without_email : String → List UserOtp → List UserOtp
without_email e = keep (λ o. not (str_eq o.email e))

abbrev pub without_two_factor : String → List UserOtp → List UserOtp
without_two_factor e = keep (λ o. not (str_eq o.email e && is_two_factor o.type))

-- The latest TWO_FACTOR code of the email.
abbrev pub last_two_factor : Queries → String → List UserOtp → Option UserOtp
last_two_factor q e otps = head? (
    q.order_desc UserOtp (λ o. o.created_at)
      (keep (λ o. str_eq o.email e && is_two_factor o.type) otps))

-- `!(lastOtp.expiresAt && lastOtp.expiresAt < now)`
abbrev pub is_waiting : ℕ → Option UserOtp → Bool
is_waiting now none = false
is_waiting now (some o) = elim o.expires_at [ none ↦ true | some t ↦ not (ltb t now) ]

module _ {Token : Type 0} where
  -- The check of `user.status === 'BLOCKED'`.
  unfoldable pub unblock : ℕ → User → Action (AuthStore Token) (Unit {0})
  unblock now u = do
    throw_if (is_blocked u.status && is_after now u.blocked_until) unauthorized
    modify (λ s. record s {
      users = if is_blocked u.status then update user_id u.id activate s.users else s.users;
    })

  -- `userOtp.create`, which throws on a second row for the email and the type.
  unfoldable pub create_otp : ℕ → String → OtpType → String → Action (AuthStore Token) (Unit {0})
  create_otp now e k otp = do
    otps ← gets (λ s. s.otps)
    throw_if (has_otp e k otps) failure
    modify (λ s. record s { otps = new_otp now e k otp ∷ s.otps })

  abbrev pub delete_otps : String → Action (AuthStore Token) (Unit {0})
  delete_otps e = modify (λ s. record s { otps = without_email e s.otps })

  abbrev pub send_otp : String → String → Action (AuthStore Token) (Unit {0})
  send_otp e otp = modify (λ s. record s { mails = record { to = e; otp = otp } ∷ s.mails })

  -- `deleteMany` for the email, `create` and the mail.
  unfoldable pub renew_otp : ℕ → String → OtpType → String → Action (AuthStore Token) (Unit {0})
  unfolding create_otp
  renew_otp now e k otp = do delete_otps e; create_otp now e k otp; send_otp e otp

  -- `resendOtp`
  unfoldable pub resend_otp : ℕ → String → String → OtpType → Action (AuthStore Token) (Unit {0})
  unfolding unblock renew_otp
  resend_otp now otp e k = do
    users ← gets (λ s. s.users)
    u ← or_throw (find_email e users) unauthorized
    unblock now u
    renew_otp now u.email k otp

  -- `resend2fa`
  unfoldable pub resend_two_factor :
      Queries → ℕ → String → String → Action (AuthStore Token) (Unit {0})
  unfolding unblock renew_otp
  resend_two_factor q now otp e = do
    users ← gets (λ s. s.users)
    u ← or_throw (find_email e users) unauthorized
    unblock now u
    otps ← gets (λ s. s.otps)
    throw_if (is_waiting now (last_two_factor q u.email otps)) unauthorized
    renew_otp now u.email OtpType.two_factor otp

  -- `account.findFirst({ where: { userId, provider: 'credentials' } })`
  abbrev pub credentials_of : Queries → ℕ → List (Account Token) → Option (Account Token)
  credentials_of q i accounts =
      q.first (Account Token)
        (keep (λ a. a.user_id == i && str_eq a.provider "credentials") accounts)

  -- `forgotPassword`; the status it looks at last is the one it read first.
  unfoldable pub forgot_password :
      Queries → ℕ → String → String → Action (AuthStore Token) (Unit {0})
  unfolding unblock renew_otp
  forgot_password q now otp e = do
    users ← gets (λ s. s.users)
    u ← or_throw (find_email e users) unauthorized
    unblock now u
    throw_if (not (is_active u.status)) unauthorized
    accounts ← gets (λ s. s.accounts)
    throw_if (not (is_some (credentials_of q u.id accounts))) unauthorized
    renew_otp now u.email OtpType.verify_email otp
