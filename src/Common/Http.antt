-- ===== src/Common/Http.antt =====
-- The exceptions of @nestjs/common that the services throw, and calls that change a state or throw.
use mathlib.Core.Path.{◌≡◌, ap}
use mathlib.Core.Bool.{Bool}
use mathlib.Core.Option.{Option, none, some}
use seatwaves_backend.Common.Tests.{if◌then◌else◌}

-- `failure` is any other error that reaches the caller.
pub data HttpError : Type 0 where
  bad_request not_found forbidden unauthorized internal_server not_acceptable failure : HttpError

pub data Result (A : Type 0) : Type 0 where
  ok : A → Result A
  err : HttpError → Result A

-- What is written before an exception stays written.
abbrev pub Action : Type 0 → Type 0 → Type 0
Action S A = S → Result A × S

module _ {S A : Type 0} where
  abbrev pub pure : A → Action S A
  pure a s = (ok a, s)

  abbrev pub throw : HttpError → Action S A
  throw e s = (err e, s)

  abbrev pub gets : (S → A) → Action S A
  gets f s = (ok (f s), s)

  abbrev pub or_throw : Option A → HttpError → Action S A
  or_throw none e = throw e
  or_throw (some a) _ = pure a

  -- `prisma.$transaction`: an exception inside undoes the writes.
  abbrev pub transactional : Action S A → Action S A
  transactional m s = let (r, s') = m s in elim r [ ok a ↦ (ok a, s') | err e ↦ (err e, s) ]

infixl 5 ◌>>=◌ ◌>>◌
abbrev pub ◌>>=◌ : {S A B : Type 0} → Action S A → (A → Action S B) → Action S B
◌>>=◌ m f s = let (r, s') = m s in elim r [ ok a ↦ f a s' | err e ↦ (err e, s') ]

abbrev pub ◌>>◌ : {S A B : Type 0} → Action S A → Action S B → Action S B
m >> k = m >>= λ _. k

abbrev pub throw_if : {S : Type 0} → Bool → HttpError → Action S (Unit {0})
throw_if c e s = (if c then err e else ok tt, s)

abbrev pub modify : {S : Type 0} → (S → S) → Action S (Unit {0})
modify f s = (ok tt, f s)

module _ {S A B : Type 0} (m : Action S A) (k : A → Action S B) (s : S) where
  -- A call that returned, and then the next one.
  pub bind-ok : {a : A} {t : S} → m s ≡ (ok a, t) → (m >>= k) s ≡ k a t
  bind-ok h = ap (λ (r : Result A × S). elim r.0 [ ok a ↦ k a r.1 | err e ↦ (err e, r.1) ]) h

  -- An exception ends the call.
  pub bind-err : {e : HttpError} {t : S} → m s ≡ (err e, t) → (m >>= k) s ≡ (err e, t)
  bind-err h = ap (λ (r : Result A × S). elim r.0 [ ok a ↦ k a r.1 | err e ↦ (err e, r.1) ]) h

module _ {S A : Type 0} (m : Action S A) (s : S) where
  pub transactional-ok : {a : A} {t : S} → m s ≡ (ok a, t) → transactional m s ≡ (ok a, t)
  transactional-ok h =
      ap (λ (r : Result A × S). elim r.0 [ ok a ↦ (ok a, r.1) | err e ↦ (err e, s) ]) h

  pub transactional-err :
      {e : HttpError} {t : S} → m s ≡ (err e, t) → transactional m s ≡ (err e, s)
  transactional-err h =
      ap (λ (r : Result A × S). elim r.0 [ ok a ↦ (ok a, r.1) | err e ↦ (err e, s) ]) h
