-- ===== src/Auth/Laws/Otps.antt =====
-- Codes by email and type, and what the calls that write one do.
use Prim.Native.String.{String}
use text.Mathlib.Text.{◌==◌ as str_eq}
use seatwaves_backend.Common.{
  ℕ, ◌≡◌, refl, Bool, true, false, ◌&&◌, ◌||◌, List, [], ◌∷◌, ◌==◌, arith, keep, if◌then◌else◌,
  Bool-cases, inl, inr, ok, err, unauthorized, bind-ok,
}
use seatwaves_backend.Database.Table.{update}
use seatwaves_backend.Auth.Data.{
  OtpType, UserOtp, User, AuthStore, is_blocked, is_after, is_two_factor, type_code, user_id,
}
use seatwaves_backend.Auth.Otps.{
  has_otp, new_otp, without_email, without_two_factor, create_otp, renew_otp, unblock, activate,
  send_otp,
}

-- `@@unique([email, type])`: no two codes share an email and a type.
abbrev pub IsUnique : List UserOtp → Type 0
IsUnique [] = Unit
IsUnique (o ∷ t) = (has_otp o.email o.type t ≡ false) × IsUnique t

neither : (a b : Bool) → (a || b) ≡ false → (a ≡ false) × (b ≡ false)
neither false b h = (refl, h)
neither true b h = absurd (grind arith)

has_otp-keep :
    (e : String) (k : OtpType) (p : UserOtp → Bool) (t : List UserOtp)
    → has_otp e k t ≡ false
    → has_otp e k (keep p t) ≡ false
unfolding has_otp
has_otp-keep e k p [] h = refl
has_otp-keep e k p (o ∷ t) h =
    let (other, rest) =
      neither (str_eq o.email e && type_code o.type == type_code k) (has_otp e k t) h in
    elim (Bool-cases (p o)) [
      | inl b ↦ rw (b, other) (has_otp-keep e k p t rest)
      | inr b ↦ rw b (has_otp-keep e k p t rest)
    ]

pub keep-IsUnique : (p : UserOtp → Bool) (t : List UserOtp) → IsUnique t → IsUnique (keep p t)
keep-IsUnique p [] h = tt
keep-IsUnique p (o ∷ t) h = elim (Bool-cases (p o)) [
  | inl e ↦ rw e ((has_otp-keep o.email o.type p t h.0, keep-IsUnique p t h.1))
  | inr e ↦ rw e (keep-IsUnique p t h.1)
]

pub has_otp-without_email :
    (e : String) (k : OtpType) (t : List UserOtp) → has_otp e k (without_email e t) ≡ false
unfolding has_otp
has_otp-without_email e k [] = refl
has_otp-without_email e k (o ∷ t) = ground (arith, has_otp-without_email e k t)

two_factor_code : (k : OtpType) → (type_code k == 4) ≡ is_two_factor k
two_factor_code OtpType.email = refl
two_factor_code OtpType.phone = refl
two_factor_code OtpType.reset_password = refl
two_factor_code OtpType.change_password = refl
two_factor_code OtpType.two_factor = refl
two_factor_code OtpType.verify_email = refl
two_factor_code OtpType.verify_phone = refl
two_factor_code OtpType.booking = refl

pub has_otp-without_two_factor :
    (e : String) (t : List UserOtp) → has_otp e OtpType.two_factor (without_two_factor e t) ≡ false
unfolding has_otp
has_otp-without_two_factor e [] = refl
has_otp-without_two_factor e (o ∷ t) =
    ground (arith, two_factor_code o.type, has_otp-without_two_factor e t)

module _ {Token : Type 0} (now : ℕ) where
  pub unblock-blocked :
      (u : User) (s : AuthStore Token)
      → (is_blocked u.status && is_after now u.blocked_until) ≡ true
      → unblock now u s ≡ (err unauthorized, s)
  unfolding unblock
  unblock-blocked u s h = rw h refl

  abbrev pub unblocked : User → AuthStore Token → AuthStore Token
  unblocked u s = record s {
    users = if is_blocked u.status then update user_id u.id activate s.users else s.users;
  }

  pub unblock-free :
      (u : User) (s : AuthStore Token)
      → (is_blocked u.status && is_after now u.blocked_until) ≡ false
      → unblock now u s ≡ (ok tt, unblocked u s)
  unfolding unblock
  unblock-free u s h = rw h refl

  pub create_otp-new :
      (e : String) (k : OtpType) (otp : String) (s : AuthStore Token)
      → has_otp e k s.otps ≡ false
      → create_otp now e k otp s ≡ (ok tt, record s { otps = new_otp now e k otp ∷ s.otps })
  unfolding create_otp
  create_otp-new e k otp s h = rw h refl

  -- The state after a new code for an email, with no other left.
  abbrev pub renewed : String → OtpType → String → AuthStore Token → AuthStore Token
  renewed e k otp s = record s {
    otps = new_otp now e k otp ∷ without_email e s.otps;
    mails = record { to = e; otp = otp } ∷ s.mails;
  }

  pub renew_otp-renewed :
      (e : String) (k : OtpType) (otp : String) (s : AuthStore Token)
      → renew_otp now e k otp s ≡ (ok tt, renewed e k otp s)
  unfolding renew_otp
  renew_otp-renewed e k otp s =
      let t : AuthStore Token = record s { otps = without_email e s.otps } in
      bind-ok (create_otp now e k otp) (λ _. send_otp e otp) t
        (create_otp-new e k otp t (has_otp-without_email e k s.otps))
