-- ===== src/Auth/Tests.antt =====
-- Runs of the authentication service, and its theorems at concrete inputs.
use Prim.Native.String.{String}
use text.Mathlib.Text.{◌==◌ as str_eq}
use text.Mathlib.TextEquality.{eq_iff}
use seatwaves_backend.Common.{
  ℕ, ◌+◌, ◌*◌, ◌≡◌, refl, inl, true, false, [], ◌∷◌, Option, none, some, arith, ok, err,
  unauthorized, ltb, if◌then◌else◌, ◌>>◌,
}
use seatwaves_backend.Database.Table.{find_unique, HasUniqueIds}
use seatwaves_backend.Database.Queries.{in_order}
use seatwaves_backend.Auth.Data.{
  UserStatus, OtpType, LoginHistoryStatus, Payload, Crypto, User, UserOtp, Account, AuthStore,
  LoginHistory, find_email, user_id,
}
use seatwaves_backend.Auth.Otps.{has_otp, resend_otp, resend_two_factor, forgot_password}
use seatwaves_backend.Auth.SignIn.{sign_in, sign_in_web}
use seatwaves_backend.Common.Exceptions.{IsHandled}
use seatwaves_backend.Auth.SignUp.{sign_up}
use seatwaves_backend.Auth.Codes.{verify_email, verify_otp, change_password}
use seatwaves_backend.Auth.Laws.Activation.{resend_otp-verify_email}
use seatwaves_backend.Auth.Laws.Password.{Passes}
use seatwaves_backend.Auth.Laws.SignIn.{session, sign_in-Passes, sign_in-session}
use seatwaves_backend.Auth.Laws.Lockout.{sign_in-locks}
use seatwaves_backend.Auth.Laws.Change.{change_password-sign_in, forgot_password-stale}
use seatwaves_backend.Auth.Laws.Handled.{codes-IsHandled}
use seatwaves_backend.Auth.Laws.Codes.{spent, reset_token, verify_otp-Spends}

-- A hash that is the password, and tokens that are their payload and the end of their life.
abbrev plain : Crypto
plain = record {
  Token = Option ℕ × Payload;
  compare = λ password hashed. str_eq password hashed;
  hash = λ salt password. password;
  sign = λ now life p. (elim life [ none ↦ none | some seconds ↦ some (now + seconds * 1000) ], p);
  verify = λ now token. elim token.0 [
    | none ↦ some token.1
    | some t ↦ if ltb now t then some token.1 else none
  ];
  compare-hash = λ salt password. (eq_iff password password).1 refl;
}

abbrev alice : User
alice = record {
  id = 1;
  email = "alice@example.org";
  password = some "secret";
  status = UserStatus.active;
  is_email_verified = true;
  is_two_factor_enabled = true;
  blocked_until = none;
  last_login_at = none;
}

abbrev bob : User
bob = record {
  id = 2;
  email = "bob@example.org";
  password = some "hidden";
  status = UserStatus.banned;
  is_email_verified = false;
  is_two_factor_enabled = false;
  blocked_until = none;
  last_login_at = none;
}

abbrev carl : User
carl = record {
  id = 3;
  email = "carl@example.org";
  password = none;
  status = UserStatus.blocked;
  is_email_verified = true;
  is_two_factor_enabled = false;
  blocked_until = some 5;
  last_login_at = none;
}

abbrev credentials : ℕ → Account plain.Token
credentials i = record { id = i; user_id = i; provider = "credentials"; refresh_token = none }

abbrev failure_at : ℕ → LoginHistory
failure_at t = record { user_id = 1; attempt = LoginHistoryStatus.failed; created_at = t }

abbrev booking_code : UserOtp
booking_code = record {
  type = OtpType.booking;
  email = "alice@example.org";
  otp = "AAAAAA";
  expires_at = some 600_000;
  created_at = 0;
}

abbrev store : AuthStore plain.Token
store = record {
  users = alice ∷ bob ∷ carl ∷ [];
  accounts = credentials 1 ∷ credentials 2 ∷ [];
  otps = booking_code ∷ [];
  history = failure_at 8 ∷ failure_at 9 ∷ [];
  mails = [];
}

alice_found : find_email "alice@example.org" store.users ≡ some alice
unfolding find_email
alice_found = refl

bob_found : find_email "bob@example.org" store.users ≡ some bob
unfolding find_email
bob_found = refl

carl_found : find_email "carl@example.org" store.users ≡ some carl
unfolding find_email
carl_found = refl

alice_by_id : find_unique user_id 1 store.users ≡ some alice
unfolding find_unique
alice_by_id = refl

own_ids : HasUniqueIds user_id store.users
unfolding find_unique
own_ids = (refl, (refl, (refl, tt)))

signed_in_run :
    (sign_in in_order plain 10 "B" "C" "alice@example.org" "secret" store).0
    ≡ ok (session in_order plain 10 alice)
unfolding sign_in find_email has_otp
signed_in_run = refl

-- A code for a booking is taken for one that resets the password.
booking_code_run :
    verify_otp in_order plain 10 "AAAAAA" store
    ≡ (ok (reset_token in_order plain 10 "AAAAAA" store alice), record store { otps = [] })
unfolding verify_otp find_email
booking_code_run = refl

resend_otp-verify_email_example :
    (a : plain.Token × plain.Token) × (t : AuthStore plain.Token) × (v : User) × ((resend_otp 10
            "BBBBBB" "bob@example.org" OtpType.verify_email
          >> verify_email in_order plain 20 "BBBBBB")
        store
      ≡ (ok a, t))
    × (find_email "bob@example.org" t.users ≡ some v)
    × (v.id ≡ 2)
    × (v.status ≡ UserStatus.active)
resend_otp-verify_email_example =
    resend_otp-verify_email in_order plain 10 20 "BBBBBB" "bob@example.org" OtpType.verify_email
      store bob own_ids bob_found refl (omega arith) refl

sign_in-Passes_example :
    (u : User) × (hashed : String) × Passes in_order plain 10 "alice@example.org" "secret" store u
      hashed
sign_in-Passes_example =
    sign_in-Passes in_order plain 10 "B" "C" "alice@example.org" "secret" store
      (session in_order plain 10 alice) (inl signed_in_run)

sign_in-session_example :
    (sign_in in_order plain 10 "B" "C" "alice@example.org" "secret" store).0
    ≡ ok (session in_order plain 10 alice)
sign_in-session_example =
    sign_in-session in_order plain 10 "B" "C" "alice@example.org" "secret" store alice "secret"
      (alice_found, refl, refl, refl)

sign_in-locks_example :
    (t : AuthStore plain.Token) × (v : User) × (sign_in in_order plain 10 "B" "C"
        "alice@example.org" "wrong" store
      ≡ (err unauthorized, t))
    × (find_email "alice@example.org" t.users ≡ some v)
    × (v.status ≡ UserStatus.blocked)
    × (sign_in in_order plain 100_000 "D" "E" "alice@example.org" "secret" t
        ≡ (err unauthorized, t))
sign_in-locks_example =
    sign_in-locks in_order plain 10 100_000 "B" "C" "D" "E" "alice@example.org" "wrong" "secret"
      store alice "secret" own_ids alice_found refl refl refl refl (omega arith)

change_password-sign_in_example :
    (token : plain.Token) × (t : AuthStore plain.Token) × (v : User) × (change_password in_order
        plain 10 0 "secret" "better" 1 store
      ≡ (ok token, t))
    × (v.id ≡ 1)
    × ((sign_in in_order plain 20 "B" "C" "alice@example.org" "better" t).0
        ≡ ok (session in_order plain 20 v))
change_password-sign_in_example =
    change_password-sign_in in_order plain 10 20 0 "secret" "better" "B" "C" "alice@example.org"
      store alice "secret" own_ids alice_found refl refl refl refl

forgot_password-stale_example :
    (t : AuthStore plain.Token) × (v : User) × (forgot_password in_order 10 "BBBBBB"
        "carl@example.org" store
      ≡ (err unauthorized, t))
    × (find_email "carl@example.org" t.users ≡ some v)
    × (v.status ≡ UserStatus.active)
    × (t.otps ≡ booking_code ∷ [])
    × (t.mails ≡ [])
forgot_password-stale_example =
    forgot_password-stale in_order 10 "BBBBBB" "carl@example.org" store carl own_ids carl_found refl
      refl

verify_otp-Spends_example : verify_otp in_order plain 10 "AAAAAA" store ≡ (
  ok (reset_token in_order plain 10 "AAAAAA" store alice),
  spent in_order plain 10 "AAAAAA" store booking_code,
)
unfolding find_email
verify_otp-Spends_example = verify_otp-Spends in_order plain 10 "AAAAAA" store

codes-IsHandled_example :
    IsHandled (sign_up in_order plain 10 true 0 "B" "bob@example.org" "hidden" store).0
    × IsHandled (resend_otp 10 "B" "bob@example.org" OtpType.booking store).0
    × IsHandled (resend_two_factor in_order 10 "B" "bob@example.org" store).0
    × IsHandled (forgot_password in_order 10 "B" "bob@example.org" store).0
    × IsHandled (sign_in in_order plain 10 "B" "C" "bob@example.org" "hidden" store).0
    × IsHandled (sign_in_web in_order plain 10 "B" "bob@example.org" "hidden" store).0
codes-IsHandled_example =
    codes-IsHandled in_order plain 10 true 0 "B" "C" "bob@example.org" "hidden" OtpType.booking
      store
