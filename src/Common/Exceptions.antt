-- ===== src/Common/Exceptions.antt =====
-- Calls that answer or throw an exception of the framework, and how they compose.
use mathlib.Core.Path.{◌≡◌, sym, subst}
use mathlib.Core.Bool.{Bool, true, false}
use mathlib.Core.Option.{Option, none, some}
use seatwaves_backend.Common.Tests.{if◌then◌else◌}
use seatwaves_backend.Common.Http.{
  HttpError, failure, Result, ok, err, Action, ◌>>=◌, or_throw, throw_if, transactional, pure,
  modify, gets,
}

-- An exception of the framework.
abbrev pub IsHttp : HttpError → Type 0
IsHttp failure = ⊥
IsHttp _ = Unit

abbrev pub IsHandled : {A : Type 0} → Result A → Type 0
IsHandled (ok a) = Unit
IsHandled (err e) = IsHttp e

pub record Handles {S A : Type 0} (m : Action S A) : Type 0 where
  pub handled : (s : S) → IsHandled (m s).0

module _ {S A : Type 0} where
  pub pure-Handles : (a : A) → Handles {S = S} (pure a)
  pure-Handles a = record { handled = λ s. tt }

  pub gets-Handles : (f : S → A) → Handles (gets f)
  gets-Handles f = record { handled = λ s. tt }

  pub or_throw-Handles : (o : Option A) (x : HttpError) → IsHttp x → Handles {S = S} (or_throw o x)
  or_throw-Handles none x h = record { handled = λ s. h }
  or_throw-Handles (some a) x h = record { handled = λ s. tt }

  after_result :
      {B : Type 0} (r : Result A) (k : A → Action S B) (s : S)
      → IsHandled r
      → ((a : A) → Handles (k a))
      → IsHandled (((λ _. (r, s)) >>= k) s).0
  after_result (ok a) k s h g = (g a).handled s
  after_result (err e) k s h g = h

  pub bind-Handles :
      {B : Type 0} {m : Action S A} {k : A → Action S B}
      → Handles m
      → ((a : A) → Handles (k a))
      → Handles (m >>= k)
  bind-Handles {B} {m} {k} h g = record {
    handled = λ s. after_result (m s).0 k (m s).1 (h.handled s) g;
  }

  undone :
      (r : Result A) (s t : S) → IsHandled r → IsHandled (transactional (λ (_ : S). (r, t)) s).0
  undone (ok a) s t h = tt
  undone (err e) s t h = h

  pub transactional-Handles : {m : Action S A} → Handles m → Handles (transactional m)
  transactional-Handles {m} h = record { handled = λ s. undone (m s).0 s (m s).1 (h.handled s) }

  pub returned-IsHandled : {a : A} {t : S} (r : Result A × S) → r ≡ (ok a, t) → IsHandled r.0
  returned-IsHandled r h = subst (λ (p : Result A × S). IsHandled p.0) (sym h) tt

  pub thrown-IsHandled :
      {e : HttpError} {t : S} (r : Result A × S) → r ≡ (err e, t) → IsHttp e → IsHandled r.0
  thrown-IsHandled r h k = subst (λ (p : Result A × S). IsHandled p.0) (sym h) k

  pub if-Handles :
      (b : Bool) {m n : Action S A} → Handles m → Handles n → Handles (if b then m else n)
  if-Handles true h g = h
  if-Handles false h g = g

module _ {S : Type 0} where
  pub throw_if-Handles : (b : Bool) (x : HttpError) → IsHttp x → Handles {S = S} (throw_if b x)
  throw_if-Handles true x h = record { handled = λ s. h }
  throw_if-Handles false x h = record { handled = λ s. tt }

  pub modify-Handles : (f : S → S) → Handles (modify f)
  modify-Handles f = record { handled = λ s. tt }
