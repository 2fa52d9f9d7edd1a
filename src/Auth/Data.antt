-- ===== src/Auth/Data.antt =====
-- The tables of prisma/schema.prisma that src/auth/auth.service.ts reads and writes, and what it
-- calls of bcrypt and of @nestjs/jwt.
use Prim.Native.String.{String}
use text.Mathlib.Text.{◌==◌ as str_eq}
use seatwaves_backend.Common.{
  ℕ, ◌≡◌, Bool, true, false, List, [], ◌∷◌, Option, none, some, ltb, if◌then◌else◌,
}
use seatwaves_backend.Database.Table.{update}

pub data UserStatus : Type 0 where
  active inactive locked blocked banned pending suspended deleted : UserStatus

pub data OtpType : Type 0 where
  email phone reset_password change_password two_factor verify_email verify_phone booking : OtpType

pub data LoginHistoryStatus : Type 0 where
  success failed reset_password change_password : LoginHistoryStatus

pub record User : Type 0 where
  pub id : ℕ
  pub email : String
  pub password : Option String
  pub status : UserStatus
  pub is_email_verified : Bool
  pub is_two_factor_enabled : Bool
  pub blocked_until : Option ℕ
  pub last_login_at : Option ℕ

pub record UserOtp : Type 0 where
  pub type : OtpType
  pub email : String
  pub otp : String
  pub expires_at : Option ℕ
  pub created_at : ℕ

pub record LoginHistory : Type 0 where
  pub user_id : ℕ
  pub attempt : LoginHistoryStatus
  pub created_at : ℕ

-- What a token says.
pub record Payload : Type 0 where
  pub user_id : Option ℕ
  pub email : Option String
  pub status : Option UserStatus
  pub type : Option OtpType

-- `bcrypt.compare`, `bcrypt.hash` with the salt that it draws, and `sign` and `verify` of the
-- JwtService: a time, a lifetime in seconds, a payload. Nothing stands for the exception.
pub record Crypto : Type 1 where
  pub Token : Type 0
  pub compare : String → String → Bool
  pub hash : ℕ → String → String
  pub sign : ℕ → Option ℕ → Payload → Token
  pub verify : ℕ → Token → Option Payload
  pub compare-hash : (salt : ℕ) (password : String) → compare password (hash salt password) ≡ true

pub record Account (Token : Type 0) : Type 0 where
  pub id : ℕ
  pub user_id : ℕ
  pub provider : String
  pub refresh_token : Option Token

-- A mail with a code.
pub record Mail : Type 0 where
  pub to : String
  pub otp : String

pub record AuthStore (Token : Type 0) : Type 0 where
  pub users : List User
  pub accounts : List (Account Token)
  pub otps : List UserOtp
  pub history : List LoginHistory
  pub mails : List Mail

abbrev pub user_id : User → ℕ
user_id u = u.id

abbrev pub is_active : UserStatus → Bool
is_active UserStatus.active = true
is_active _ = false

abbrev pub is_blocked : UserStatus → Bool
is_blocked UserStatus.blocked = true
is_blocked _ = false

abbrev pub is_two_factor : OtpType → Bool
is_two_factor OtpType.two_factor = true
is_two_factor _ = false

abbrev pub type_code : OtpType → ℕ
type_code OtpType.email = 0
type_code OtpType.phone = 1
type_code OtpType.reset_password = 2
type_code OtpType.change_password = 3
type_code OtpType.two_factor = 4
type_code OtpType.verify_email = 5
type_code OtpType.verify_phone = 6
type_code OtpType.booking = 7

abbrev pub is_failed : LoginHistoryStatus → Bool
is_failed LoginHistoryStatus.failed = true
is_failed _ = false

-- `t > now` for an instant that may be missing.
abbrev pub is_after : ℕ → Option ℕ → Bool
is_after now none = false
is_after now (some t) = ltb now t

-- `findUnique({ where: { email } })`
unfoldable pub find_email : String → List User → Option User
find_email e [] = none
find_email e (u ∷ t) = if str_eq u.email e then some u else find_email e t

module _ {Token : Type 0} where
  abbrev pub write_user : ℕ → (User → User) → AuthStore Token → AuthStore Token
  write_user i f s = record s { users = update user_id i f s.users }

  abbrev pub log : ℕ → LoginHistoryStatus → ℕ → AuthStore Token → AuthStore Token
  log user attempt now s = record s {
    history = record { user_id = user; attempt = attempt; created_at = now } ∷ s.history;
  }
