-- ===== src/Auth/Laws/Password.antt =====
-- The checks of `signIn` and `signInWeb` of src/auth/auth.service.ts.
use Prim.Native.String.{String}
use seatwaves_backend.Common.{
  ℕ, ◌≡◌, refl, ap, ◌∙◌, ◌⊎◌, Bool, true, false, ◌&&◌, ◌∷◌, Option, none, some, if◌then◌else◌,
  Bool-cases, Option-cases, inl, inr, HttpError, ok, err, unauthorized, not_found, bind-ok,
  bind-err, or_throw, pure, throw,
}
use seatwaves_backend.Database.Table.{update}
use seatwaves_backend.Database.Queries.{Queries}
use seatwaves_backend.Auth.Data.{
  LoginHistoryStatus, User, AuthStore, Crypto, is_blocked, is_after, find_email, user_id, log,
}
use seatwaves_backend.Auth.Otps.{unblock}
use seatwaves_backend.Auth.SignIn.{
  has_failed_thrice, block, hashed_of, check_password, refuse, check_login_attempts,
  authenticate_user, authenticate,
}
use seatwaves_backend.Auth.Laws.Otps.{unblocked, unblock-free, unblock-blocked}

-- Whether a block of the user still lasts.
abbrev pub is_locked_out : ℕ → User → Bool
is_locked_out now u = is_blocked u.status && is_after now u.blocked_until

module _ (q : Queries) (c : Crypto) (now : ℕ) where
  -- The state after a wrong password.
  abbrev pub refused : ℕ → AuthStore c.Token → AuthStore c.Token
  refused i s =
      let history =
        record { user_id = i; attempt = LoginHistoryStatus.failed; created_at = now } ∷ s.history in
      record s {
        history = history;
        users =
            if has_failed_thrice q i history then update user_id i (block now) s.users else s.users;
      }

  check_login_attempts-blocks :
      (i : ℕ) (s : AuthStore c.Token)
      → has_failed_thrice q i s.history ≡ true
      → check_login_attempts q c now i s ≡ (
        err unauthorized,
        record s {
          users =
              if has_failed_thrice q i s.history
              then update user_id i (block now) s.users
              else s.users;
        },
      )
  unfolding check_login_attempts
  check_login_attempts-blocks i s h = rw h refl

  check_login_attempts-passes :
      (i : ℕ) (s : AuthStore c.Token)
      → has_failed_thrice q i s.history ≡ false
      → check_login_attempts q c now i s ≡ (
        ok tt,
        record s {
          users =
              if has_failed_thrice q i s.history
              then update user_id i (block now) s.users
              else s.users;
        },
      )
  unfolding check_login_attempts
  check_login_attempts-passes i s h = rw h refl

  pub refuse-refused :
      (i : ℕ) (s : AuthStore c.Token) → refuse q c now i s ≡ (err unauthorized, refused i s)
  unfolding refuse
  refuse-refused i s =
      let t : AuthStore c.Token = log i LoginHistoryStatus.failed now s in
      elim (Bool-cases (has_failed_thrice q i t.history)) [
        | inl e ↦
            bind-err (check_login_attempts q c now i) (λ _. throw unauthorized) t
              (check_login_attempts-blocks i t e)
        | inr e ↦
            bind-ok (check_login_attempts q c now i) (λ _. throw unauthorized) t
              (check_login_attempts-passes i t e)
      ]

  module _ (password : String) (u : User) (s : AuthStore c.Token) where
    check_password-none :
        check_password q c now u password none s
        ≡ (err unauthorized, log u.id LoginHistoryStatus.failed now s)
    unfolding check_password
    check_password-none = refl

    check_password-locked :
        (hashed : String)
        → is_locked_out now u ≡ true
        → check_password q c now u password (some hashed) s ≡ (err unauthorized, s)
    unfolding check_password
    check_password-locked hashed h =
        bind-err (unblock now u)
          (λ _. if c.compare password hashed then pure tt else refuse q c now u.id) s
          (unblock-blocked now u s h)

    check_password-right :
        (hashed : String)
        → is_locked_out now u ≡ false
        → c.compare password hashed ≡ true
        → check_password q c now u password (some hashed) s ≡ (ok tt, unblocked now u s)
    unfolding check_password
    check_password-right hashed h g =
        bind-ok (unblock now u)
          (λ _. if c.compare password hashed then pure tt else refuse q c now u.id) s
          (unblock-free now u s h)
        ∙ rw g refl

    check_password-wrong :
        (hashed : String)
        → is_locked_out now u ≡ false
        → c.compare password hashed ≡ false
        → check_password q c now u password (some hashed) s
          ≡ (err unauthorized, refused u.id (unblocked now u s))
    unfolding check_password
    check_password-wrong hashed h g =
        bind-ok (unblock now u)
          (λ _. if c.compare password hashed then pure tt else refuse q c now u.id) s
          (unblock-free now u s h)
        ∙ rw g (refuse-refused u.id (unblocked now u s))

  module _ (e password : String) (s : AuthStore c.Token) where
    authenticate-missing :
        find_email e s.users ≡ none → authenticate q c now e password s ≡ (err not_found, s)
    unfolding authenticate
    authenticate-missing h =
        bind-err (or_throw (find_email e s.users) not_found) (authenticate_user q c now password) s
          (ap (λ o. or_throw o not_found s) h)

    module _ (u : User) (found : find_email e s.users ≡ some u) where
      authenticate-found :
          authenticate q c now e password s ≡ authenticate_user q c now password u s
      unfolding authenticate
      authenticate-found =
          bind-ok (or_throw (find_email e s.users) not_found) (authenticate_user q c now password) s
            (ap (λ o. or_throw o not_found s) found)

      authenticate-ok :
          (o : Option String) {t : AuthStore c.Token}
          → hashed_of q c now u s ≡ o
          → check_password q c now u password o s ≡ (ok tt, t)
          → authenticate q c now e password s ≡ (ok u, t)
      unfolding authenticate_user
      authenticate-ok o h g =
          authenticate-found
          ∙ bind-ok (check_password q c now u password (hashed_of q c now u s)) (λ _. pure u) s
              (ap (λ x. check_password q c now u password x s) h ∙ g)

      authenticate-err :
          (o : Option String) {x : HttpError} {t : AuthStore c.Token}
          → hashed_of q c now u s ≡ o
          → check_password q c now u password o s ≡ (err x, t)
          → authenticate q c now e password s ≡ (err x, t)
      unfolding authenticate_user
      authenticate-err o h g =
          authenticate-found
          ∙ bind-err (check_password q c now u password (hashed_of q c now u s)) (λ _. pure u) s
              (ap (λ x. check_password q c now u password x s) h ∙ g)

      module _ (hashed : String) (has : hashed_of q c now u s ≡ some hashed) where
        pub authenticate-right :
            is_locked_out now u ≡ false
            → c.compare password hashed ≡ true
            → authenticate q c now e password s ≡ (ok u, unblocked now u s)
        authenticate-right h g =
            authenticate-ok (some hashed) has (check_password-right password u s hashed h g)

        pub authenticate-wrong :
            is_locked_out now u ≡ false
            → c.compare password hashed ≡ false
            → authenticate q c now e password s
              ≡ (err unauthorized, refused u.id (unblocked now u s))
        authenticate-wrong h g =
            authenticate-err (some hashed) has (check_password-wrong password u s hashed h g)

        pub authenticate-locked :
            is_locked_out now u ≡ true → authenticate q c now e password s ≡ (err unauthorized, s)
        authenticate-locked h =
            authenticate-err (some hashed) has (check_password-locked password u s hashed h)

    -- The password is that of the user found, who may sign in with one and is not locked out.
    abbrev pub Passes : User → String → Type 0
    Passes u hashed =
        (find_email e s.users ≡ some u)
        × (hashed_of q c now u s ≡ some hashed)
        × (c.compare password hashed ≡ true)
        × (is_locked_out now u ≡ false)

    abbrev pub Throws : Type 0
    Throws =
        (x : HttpError) × (t : AuthStore c.Token) × (authenticate q c now e password s ≡ (err x, t))

    abbrev pub Admits : Type 0
    Admits =
        (u : User) × (hashed : String) × (authenticate q c now e password s
          ≡ (ok u, unblocked now u s))
        × Passes u hashed

    pub authenticate-cases : Admits ⊎ Throws
    authenticate-cases = elim (Option-cases (find_email e s.users)) [
      | inl h ↦ inr (not_found, s, authenticate-missing h)
      | inr (u, found) ↦ elim (Option-cases (hashed_of q c now u s)) [
        | inl h ↦
            inr
              (unauthorized, _, authenticate-err u found none h (check_password-none password u s))
        | inr (hashed, has) ↦ elim (Bool-cases (is_locked_out now u)) [
          | inl l ↦ inr (unauthorized, s, authenticate-locked u found hashed has l)
          | inr l ↦ elim (Bool-cases (c.compare password hashed)) [
            | inl m ↦ inl (u, hashed, authenticate-right u found hashed has l m, (found, has, m, l))
            | inr m ↦ inr (unauthorized, _, authenticate-wrong u found hashed has l m)
          ]
        ]
      ]
    ]
