-- ===== src/Common/Keeps.antt =====
-- Calls that keep a predicate of the state, whether they answer or throw.
use mathlib.Core.Path.{◌≡◌, sym, subst}
use mathlib.Core.Bool.{Bool}
use mathlib.Core.Option.{Option, none, some}
use seatwaves_backend.Common.Http.{
  HttpError, Result, ok, err, Action, ◌>>=◌, or_throw, throw_if, pure, gets, modify, transactional,
  bind-ok, bind-err,
}

pub record Keeps {S A : Type 0} (P : S → Type 0) (m : Action S A) : Type 0 where
  pub keeps : (s : S) → P s → P (m s).1

module _ {S : Type 0} {P : S → Type 0} where
  pub pure-Keeps : {A : Type 0} (a : A) → Keeps P (pure a)
  pure-Keeps a = record { keeps = λ s h. h }

  pub gets-Keeps : {A : Type 0} (f : S → A) → Keeps P (gets f)
  gets-Keeps f = record { keeps = λ s h. h }

  pub or_throw-Keeps : {A : Type 0} (o : Option A) (x : HttpError) → Keeps P (or_throw o x)
  or_throw-Keeps none x = record { keeps = λ s h. h }
  or_throw-Keeps (some a) x = record { keeps = λ s h. h }

  pub throw_if-Keeps : (b : Bool) (x : HttpError) → Keeps P (throw_if b x)
  throw_if-Keeps b x = record { keeps = λ s h. h }

  pub modify-Keeps : (f : S → S) → ((s : S) → P s → P (f s)) → Keeps P (modify f)
  modify-Keeps f k = record { keeps = k }

  module _ {A B : Type 0} (m : Action S A) (k : A → Action S B) where
    after_call :
        (s : S) (r : Result A × S)
        → P r.1
        → ((a : A) → Keeps P (k a))
        → P (elim r.0 as (λ _. Result B × S) [ ok a ↦ k a r.1 | err e ↦ (err e, r.1) ]).1
    after_call s (ok a, t) h g = (g a).keeps t h
    after_call s (err e, t) h g = h

    -- A call that keeps the predicate where it is made, and then the next one.
    pub bind-keeps_at : (s : S) → P (m s).1 → ((a : A) → Keeps P (k a)) → P ((m >>= k) s).1
    bind-keeps_at s h g = after_call s (m s) h g

    pub bind-Keeps : Keeps P m → ((a : A) → Keeps P (k a)) → Keeps P (m >>= k)
    bind-Keeps f g = record { keeps = λ s h. after_call s (m s) (f.keeps s h) g }

-- Inside a transaction.
module _ {S A : Type 0} (P : S → Type 0) (m : Action S A) where
  rolled_back : (s : S) (r : Result A × S) → P s → P r.1 → P (transactional (λ _. r) s).1
  rolled_back s (ok a, t) h k = k
  rolled_back s (err e, t) h k = h

  pub transactional-Keeps : Keeps P m → Keeps P (transactional m)
  transactional-Keeps f = record { keeps = λ s h. rolled_back s (m s) h (f.keeps s h) }

module _ {S A B : Type 0} (P : S → Type 0) (m : Action S A) (k : A → Action S B) (s : S) where
  -- A call whose outcome is known, and then the next one.
  pub bind_ok-keeps : {a : A} {t : S} → m s ≡ (ok a, t) → P (k a t).1 → P ((m >>= k) s).1
  bind_ok-keeps e h = subst (λ (r : Result B × S). P r.1) (sym (bind-ok m k s e)) h

  pub bind_err-keeps : {x : HttpError} {t : S} → m s ≡ (err x, t) → P t → P ((m >>= k) s).1
  bind_err-keeps e h = subst (λ (r : Result B × S). P r.1) (sym (bind-err m k s e)) h
