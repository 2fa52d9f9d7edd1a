-- ===== src/Auth/Laws/Change.antt =====
-- `changePassword` of src/auth/auth.service.ts and the sign in with the new password; the status
-- that `forgotPassword` looks at.
use Prim.Native.String.{String}
use seatwaves_backend.Common.{
  ℕ, ◌≡◌, refl, ap, sym, ◌∙◌, true, false, Option, none, some, is_some, if◌then◌else◌, Bool-cases,
  inl, inr, ok, err, unauthorized,
}
use mathlib.Core.Bool
use seatwaves_backend.Database.Table.{find_unique, update, HasUniqueIds}
use seatwaves_backend.Database.Queries.{Queries}
use seatwaves_backend.Auth.Data.{
  UserStatus, LoginHistoryStatus, User, AuthStore, Crypto, is_active, is_blocked, is_after,
  find_email, user_id, log, write_user,
}
use seatwaves_backend.Auth.Otps.{activate, unblock, forgot_password, credentials_of}
use seatwaves_backend.Auth.SignIn.{sign_in}
use seatwaves_backend.Auth.Codes.{set_password, old_password, change_password}
use seatwaves_backend.Auth.Laws.Users.{find_email-update, find_email-find_unique}
use seatwaves_backend.Auth.Laws.SignIn.{session, sign_in-session}

module _ (q : Queries) (c : Crypto) (now salt : ℕ) (old new_password : String)
    (s : AuthStore c.Token) (u : User) where
  abbrev pub changed : AuthStore c.Token
  changed =
      log u.id LoginHistoryStatus.reset_password now
        (write_user u.id (set_password (c.hash salt new_password)) s)

  abbrev pub user_token : c.Token
  user_token =
      c.sign now none (record { user_id = some u.id; email = none; status = none; type = none })

  change_password-changed :
      (hashed : String)
      → old_password q c now (find_unique user_id u.id s.users) ≡ some (u, hashed)
      → c.compare old hashed ≡ true
      → change_password q c now salt old new_password u.id s ≡ (ok user_token, changed)
  unfolding change_password
  change_password-changed hashed h g = rw (h, g) refl

old_password-known :
    (q : Queries) (c : Crypto) (now : ℕ) (u : User) (hashed : String)
    → is_active u.status ≡ true
    → u.password ≡ some hashed
    → old_password q c now (some u) ≡ some (u, hashed)
old_password-known q c now u hashed active has =
    ap (λ b. if b then (elim u.password [ none ↦ none | some p ↦ some (u, p) ]) else none) active
    ∙ ap (λ (o : Option String). elim o [ none ↦ none | some p ↦ some (u, p) ]) has

active-free : (st : UserStatus) → is_active st ≡ true → is_blocked st ≡ false
active-free UserStatus.active h = refl
active-free UserStatus.inactive h = refl
active-free UserStatus.locked h = refl
active-free UserStatus.blocked h = sym h
active-free UserStatus.banned h = refl
active-free UserStatus.pending h = refl
active-free UserStatus.suspended h = refl
active-free UserStatus.deleted h = refl

-- An ACTIVE user with credentials who gives the old password changes it, and signs in with the new
-- one at any later call on the state left.
pub change_password-sign_in :
    (q : Queries) (c : Crypto) (now later salt : ℕ) (old new_password otp otp' e : String)
    (s : AuthStore c.Token) (u : User) (hashed : String)
    → HasUniqueIds user_id s.users
    → find_email e s.users ≡ some u
    → is_active u.status ≡ true
    → u.password ≡ some hashed
    → c.compare old hashed ≡ true
    → is_some (credentials_of q u.id s.accounts) ≡ true
    → (token : c.Token) × (t : AuthStore c.Token) × (v : User) × (change_password q c now salt old
          new_password u.id s
        ≡ (ok token, t))
      × (v.id ≡ u.id)
      × ((sign_in q c later otp otp' e new_password t).0 ≡ ok (session q c later v))
change_password-sign_in q c now later salt old new_password otp otp' e s u hashed ids found active
      has right account =
    let h : String = c.hash salt new_password in
    let v : User = set_password h u in
    let t : AuthStore c.Token = changed q c now salt old new_password s u in
    let by_id = find_email-find_unique e s.users {u = u} ids found in
    (
      user_token q c now salt old new_password s u,
      t,
      v,
      change_password-changed q c now salt old new_password s u hashed
          (ap (old_password q c now) by_id ∙ old_password-known q c now u hashed active has) right,
      refl,
      sign_in-session q c later otp otp' e new_password t v h (
        find_email-update e (set_password h) s.users {u = u} ids (λ w. refl) found,
        rw account refl,
        c.compare-hash salt new_password,
        rw (active-free u.status active) refl,
      ),
    )

module _ {Token : Type 0} (q : Queries) (now : ℕ) (otp e : String) (s : AuthStore Token)
    (u : User) where
  module _ (found : find_email e s.users ≡ some u) (blocked : is_blocked u.status ≡ true)
      (over : is_after now u.blocked_until ≡ false) where
    not_active : is_active u.status ≡ false
    not_active = elim (Bool-cases (is_active u.status)) [
      | inl h ↦ absurd (Bool.false≢true (sym (active-free u.status h) ∙ blocked))
      | inr h ↦ h
    ]

    forgot_password-unblocks :
        forgot_password q now otp e s
        ≡ (err unauthorized, record s { users = update user_id u.id activate s.users })
    unfolding forgot_password unblock
    forgot_password-unblocks = rw (found, blocked, over, not_active) refl

-- A user who is still marked BLOCKED when the block is over and asks for a new password is made
-- ACTIVE, but the call throws, and no code is made or sent.
pub forgot_password-stale :
    {Token : Type 0} (q : Queries) (now : ℕ) (otp e : String) (s : AuthStore Token) (u : User)
    → HasUniqueIds user_id s.users
    → find_email e s.users ≡ some u
    → is_blocked u.status ≡ true
    → is_after now u.blocked_until ≡ false
    → (t : AuthStore Token) × (v : User) × (forgot_password q now otp e s ≡ (err unauthorized, t))
      × (find_email e t.users ≡ some v)
      × (v.status ≡ UserStatus.active)
      × (t.otps ≡ s.otps)
      × (t.mails ≡ s.mails)
forgot_password-stale q now otp e s u ids found blocked over = (
  record s { users = update user_id u.id activate s.users },
  activate u,
  forgot_password-unblocks q now otp e s u found blocked over,
  find_email-update e activate s.users {u = u} ids (λ w. refl) found,
  refl,
  refl,
  refl,
)
