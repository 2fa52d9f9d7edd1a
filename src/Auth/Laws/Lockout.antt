-- ===== src/Auth/Laws/Lockout.antt =====
-- Wrong passwords: `checkLoginAttempts` of src/auth/auth.service.ts and the sign in that follows.
use Prim.Native.String.{String}
use seatwaves_backend.Common.{
  ℕ, ◌+◌, ◌<◌, ◌≡◌, refl, ap, sym, ◌∙◌, true, false, List, some, arith, Bool-cases, inl, inr,
  HttpError, err, unauthorized, bind-err,
}
use seatwaves_backend.Database.Table.{update, HasUniqueIds}
use seatwaves_backend.Database.Queries.{Queries}
use seatwaves_backend.Auth.Data.{
  UserStatus, LoginHistoryStatus, LoginHistory, User, AuthStore, Crypto, is_blocked, find_email,
  user_id, log,
}
use seatwaves_backend.Auth.SignIn.{
  two_minutes, has_failed_thrice, block, hashed_of, authenticate, answer, sign_in,
}
use seatwaves_backend.Auth.Laws.Users.{find_email-update}
use seatwaves_backend.Auth.Laws.Otps.{unblocked}
use seatwaves_backend.Auth.Laws.Activation.{current, find_email-unblocked, unblocked-HasUniqueIds}
use seatwaves_backend.Auth.Laws.Password.{
  is_locked_out, refused, authenticate-wrong, authenticate-locked,
}

module _ (q : Queries) (c : Crypto) (now : ℕ) (s : AuthStore c.Token) (u : User) where
  -- The attempts with the one that just failed.
  abbrev pub with_failure : List LoginHistory
  with_failure = (log u.id LoginHistoryStatus.failed now s).history

  same_id : (current now s u).id ≡ u.id
  same_id = elim (Bool-cases (is_blocked u.status)) [ inl b ↦ rw b refl | inr b ↦ rw b refl ]

  -- The user is blocked after a wrong password, if that was the third.
  find_email-refused :
      (e : String)
      → HasUniqueIds user_id s.users
      → find_email e s.users ≡ some u
      → has_failed_thrice q u.id with_failure ≡ true
      → find_email e (refused q c now u.id (unblocked now u s)).users
        ≡ some (block now (current now s u))
  find_email-refused e ids found thrice = rw thrice (
      ap (λ i. find_email e (update user_id i (block now) (unblocked now u s).users)) (sym same_id)
      ∙ find_email-update e (block now) (unblocked now u s).users {u = current now s u}
          (unblocked-HasUniqueIds now s u ids) (λ v. refl) (find_email-unblocked now s e ids found))

  hashed_of-blocked :
      (t : AuthStore c.Token)
      → t.accounts ≡ s.accounts
      → hashed_of q c now (block now (current now s u)) t ≡ hashed_of q c now u s
  hashed_of-blocked t same = elim (Bool-cases (is_blocked u.status)) [
    | inl b ↦ rw (b, same) refl
    | inr b ↦ rw (b, same) refl
  ]

  blocked_for :
      (later : ℕ)
      → later < now + two_minutes
      → is_locked_out later (block now (current now s u)) ≡ true
  blocked_for later h = ground arith

module _ (q : Queries) (c : Crypto) (now : ℕ) (otp otp' e password : String)
    (s : AuthStore c.Token) where
  sign_in-throws :
      {x : HttpError} {t : AuthStore c.Token}
      → authenticate q c now e password s ≡ (err x, t)
      → sign_in q c now otp otp' e password s ≡ (err x, t)
  unfolding sign_in
  sign_in-throws h = bind-err (authenticate q c now e password) (answer q c now otp otp') s h

-- A wrong password of a user who has one and is not locked out, after which the three latest
-- attempts of the user are failures, blocks the user: the call throws, the user found by the email
-- is BLOCKED, and a sign in within two minutes throws with any password and changes nothing.
pub sign_in-locks :
    (q : Queries) (c : Crypto) (now later : ℕ) (otp otp' otp'' otp''' e password password' : String)
    (s : AuthStore c.Token) (u : User) (hashed : String)
    → HasUniqueIds user_id s.users
    → find_email e s.users ≡ some u
    → hashed_of q c now u s ≡ some hashed
    → is_locked_out now u ≡ false
    → c.compare password hashed ≡ false
    → has_failed_thrice q u.id (with_failure q c now s u) ≡ true
    → later < now + two_minutes
    → (t : AuthStore c.Token) × (v : User) × (sign_in q c now otp otp' e password s
        ≡ (err unauthorized, t))
      × (find_email e t.users ≡ some v)
      × (v.status ≡ UserStatus.blocked)
      × (sign_in q c later otp'' otp''' e password' t ≡ (err unauthorized, t))
sign_in-locks q c now later otp otp' otp'' otp''' e password password' s u hashed ids found has free
      wrong thrice soon =
    let t : AuthStore c.Token = refused q c now u.id (unblocked now u s) in
    let v : User = block now (current now s u) in
    let found' : find_email e t.users ≡ some v =
      find_email-refused q c now s u e ids found thrice in
    (
      t,
      v,
      sign_in-throws q c now otp otp' e password s
          (authenticate-wrong q c now e password s u found hashed has free wrong),
      found',
      refl,
      sign_in-throws q c later otp'' otp''' e password' t (
          authenticate-locked q c later e password' t v found' hashed
            (hashed_of-blocked q c now s u t refl ∙ has) (blocked_for q c now s u later soon)),
    )
