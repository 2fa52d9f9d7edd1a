-- ===== src/Auth/Laws/Activation.antt =====
-- `resendOtp` and then `verifyEmail` of src/auth/auth.service.ts.
use Prim.Native.String.{String}
use text.Mathlib.TextEquality.{eq_iff}
use seatwaves_backend.Common.{
  ℕ, ◌+◌, ◌<◌, ◌≡◌, refl, ap, ◌∙◌, true, false, ◌&&◌, List, [], ◌∷◌, some, arith, keep,
  if◌then◌else◌, Bool-cases, inl, inr, ok, unauthorized, bind-ok, transactional-ok, failure,
  or_throw, ◌>>=◌, ◌>>◌,
}
use seatwaves_backend.Database.Table.{update, HasUniqueIds, update-HasUniqueIds}
use seatwaves_backend.Database.Queries.{Queries}
use seatwaves_backend.Auth.Data.{
  UserStatus, OtpType, UserOtp, User, AuthStore, Crypto, is_blocked, is_after, find_email, user_id,
}
use seatwaves_backend.Auth.Otps.{
  new_otp, ten_minutes, without_email, renew_otp, resend_otp, unblock, activate,
}
use seatwaves_backend.Auth.SignIn.{
  generate_tokens, generate_refresh_token, set_refresh_token, token_of,
}
use seatwaves_backend.Auth.Codes.{
  find_otp, is_valid_otp, verified, activate_email, activate_user, verify_email,
}
use seatwaves_backend.Auth.Laws.Users.{find_email-email, find_email-update, first-one, String_set}
use seatwaves_backend.Auth.Laws.Otps.{unblocked, unblock-free, renewed, renew_otp-renewed}

module _ {Token : Type 0} (now : ℕ) (s : AuthStore Token) where
  pub resend_otp-renews :
      (otp e : String) (k : OtpType) {u : User}
      → find_email e s.users ≡ some u
      → (is_blocked u.status && is_after now u.blocked_until) ≡ false
      → resend_otp now otp e k s ≡ (ok tt, renewed now u.email k otp (unblocked now u s))
  unfolding resend_otp
  resend_otp-renews otp e k {u} h g =
      bind-ok (or_throw (find_email e s.users) unauthorized)
        (λ (v : User). unblock now v >> renew_otp now v.email k otp) s
        (ap (λ o. or_throw o unauthorized s) h)
      ∙ bind-ok (unblock now u) (λ _. renew_otp now u.email k otp) s (unblock-free now u s g)
      ∙ renew_otp-renewed now u.email k otp (unblocked now u s)

  -- The user after the block check.
  abbrev pub current : User → User
  current u = if is_blocked u.status then activate u else u

  pub find_email-unblocked :
      (e : String) {u : User}
      → HasUniqueIds user_id s.users
      → find_email e s.users ≡ some u
      → find_email e (unblocked now u s).users ≡ some (current u)
  find_email-unblocked e {u} h k = elim (Bool-cases (is_blocked u.status)) [
    | inl b ↦ rw b (find_email-update e activate s.users h (λ v. refl) k)
    | inr b ↦ rw b k
  ]

  pub unblocked-HasUniqueIds :
      (u : User) → HasUniqueIds user_id s.users → HasUniqueIds user_id (unblocked now u s).users
  unblocked-HasUniqueIds u h = elim (Bool-cases (is_blocked u.status)) [
    | inl b ↦ rw b (update-HasUniqueIds user_id u.id activate s.users (λ v. refl) h)
    | inr b ↦ rw b h
  ]

module _ (q : Queries) (c : Crypto) (now : ℕ) (s : AuthStore c.Token) where
  -- The state after a verified code.
  abbrev pub activated : User → String → AuthStore c.Token
  activated u e =
      set_refresh_token q c now u.id
        (some (c.sign now (some 604_800) (token_of u.id UserStatus.active)))
        (record s { users = update user_id u.id verified s.users; otps = without_email e s.otps })

  pub verify_email-activates :
      (otp : String) {o : UserOtp} {u : User}
      → find_otp q now otp s.otps ≡ some o
      → find_email o.email s.users ≡ some u
      → verify_email q c now otp s ≡ (
        ok (
          generate_tokens q c now u.id UserStatus.active,
          c.sign now (some 604_800) (token_of u.id UserStatus.active),
        ),
        activated u o.email,
      )
  unfolding verify_email activate_email activate_user generate_refresh_token
  verify_email-activates otp {o} {u} h k =
      transactional-ok
        (or_throw (find_otp q now otp s.otps) unauthorized >>= activate_email q c now) s
        (bind-ok (or_throw (find_otp q now otp s.otps) unauthorized) (activate_email q c now) s
            (ap (λ o. or_throw o unauthorized s) h)
          ∙ bind-ok (or_throw (find_email o.email s.users) failure) (activate_user q c now o.email)
              s (ap (λ o. or_throw o failure s) k))

-- A new code that no other valid one equals is the one that is found.
find_otp-new :
    (q : Queries) (now later : ℕ) (e otp : String) (k : OtpType) (otps : List UserOtp)
    → later < now + ten_minutes
    → keep (is_valid_otp later otp) otps ≡ []
    → find_otp q later otp (new_otp now e k otp ∷ otps) ≡ some (new_otp now e k otp)
find_otp-new q now later e otp k otps h none_left =
    let o : UserOtp = new_otp now e k otp in
    let valid : is_valid_otp later otp o ≡ true = ground (arith, (eq_iff otp otp).1 refl) in
    ap
      (λ b.
        q.first UserOtp (
          if b then o ∷ keep (is_valid_otp later otp) otps else keep (is_valid_otp later otp) otps))
      valid
    ∙ ap (λ t. q.first UserOtp (o ∷ t)) none_left
    ∙ first-one q (hlevel String_set) o

-- A user of any status but one whose block still lasts, who asks for a new code and verifies it
-- within ten minutes, becomes ACTIVE, whatever type the code was asked for, if no valid code of
-- another email has the same characters: one who is banned or suspended too.
pub resend_otp-verify_email :
    (q : Queries) (c : Crypto) (now later : ℕ) (otp e : String) (k : OtpType)
    (s : AuthStore c.Token) (u : User)
    → HasUniqueIds user_id s.users
    → find_email e s.users ≡ some u
    → (is_blocked u.status && is_after now u.blocked_until) ≡ false
    → later < now + ten_minutes
    → keep (is_valid_otp later otp) (without_email u.email s.otps) ≡ []
    → (a : c.Token × c.Token) × (t : AuthStore c.Token) × (v : User) × ((resend_otp now otp e k
            >> verify_email q c later otp)
          s
        ≡ (ok a, t))
      × (find_email e t.users ≡ some v)
      × (v.id ≡ u.id)
      × (v.status ≡ UserStatus.active)
resend_otp-verify_email q c now later otp e k s u ids found free soon single =
    let s' : AuthStore c.Token = renewed now u.email k otp (unblocked now u s) in
    let o : UserOtp = new_otp now u.email k otp in
    let v : User = current now s u in
    let same : u.email ≡ e = (eq_iff u.email e).0 (find_email-email e s.users {u = u} found) in
    let found' : find_email e s'.users ≡ some v = find_email-unblocked now s e ids found in
    let same_id : v.id ≡ u.id = elim (Bool-cases (is_blocked u.status)) [
      | inl b ↦ rw b refl
      | inr b ↦ rw b refl
    ] in
    (
      (
        generate_tokens q c later v.id UserStatus.active,
        c.sign later (some 604_800) (token_of v.id UserStatus.active),
      ),
      activated q c later s' v u.email,
      verified v,
      bind-ok (resend_otp now otp e k) (λ _. verify_email q c later otp) s
            (resend_otp-renews now s otp e k found free)
          ∙ verify_email-activates q c later s' otp {o = o} {u = v}
              (find_otp-new q now later u.email otp k (without_email u.email s.otps) soon single)
              (ap (λ x. find_email x s'.users) same ∙ found'),
      find_email-update e verified s'.users {u = v} (unblocked-HasUniqueIds now s u ids) (λ w. refl)
          found',
      same_id,
      refl,
    )
