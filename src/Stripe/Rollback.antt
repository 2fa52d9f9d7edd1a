-- ===== src/Stripe/Rollback.antt =====
-- Calls that leave the database alone when they throw, calls after which a property holds when they
-- throw, or when they return, and how they compose.
use seatwaves_backend.Common.{
  ◌≡◌, refl, Bool, true, false, Option, none, some, arith, Result, ok, err, HttpError, Action,
  ◌>>=◌, ◌>>◌, throw_if, or_throw, ◌∙◌,
}
use seatwaves_backend.Stripe.Api.{System}

module _ {Number World : Type 0} where
  -- If the call threw, the database is what it was.
  abbrev pub RollsBack :
      {A : Type 0} → System Number World → Result A × System Number World → Type 0
  RollsBack s r = (e : HttpError) → r.0 ≡ err e → r.1.store ≡ s.store

  -- If the call threw, the state it left has the property.
  abbrev pub Throws :
      {A : Type 0} → (System Number World → Type 0) → Result A × System Number World → Type 0
  Throws P r = (e : HttpError) → r.0 ≡ err e → P r.1

  pub throw_if-Throws :
      {A : Type 0} (P : System Number World → Type 0) (c : Bool) (x : HttpError)
      (k : Action (System Number World) A) (s : System Number World)
      → P s
      → (c ≡ false → Throws P (k s))
      → Throws P ((throw_if c x >> k) s)
  throw_if-Throws P true x k s p h e f = p
  throw_if-Throws P false x k s p h e f = h refl e f

  pub or_throw-Throws :
      {A B : Type 0} (P : System Number World → Type 0) (o : Option A) (x : HttpError)
      (k : A → Action (System Number World) B) (s : System Number World)
      → P s
      → ((a : A) → o ≡ some a → Throws P (k a s))
      → Throws P ((or_throw o x >>= k) s)
  or_throw-Throws P none x k s p h e f = p
  or_throw-Throws P (some a) x k s p h e f = h a refl e f

  bind_Throws_lem :
      {A B : Type 0} (P : System Number World → Type 0) (r : Result A)
      (k : A → Action (System Number World) B) (s s' : System Number World)
      → ((e : HttpError) → r ≡ err e → P s')
      → ((a : A) → r ≡ ok a → Throws P (k a s'))
      → Throws P (((λ _. (r, s')) >>= k) s)
  bind_Throws_lem P (ok a) k s s' p h e f = h a refl e f
  bind_Throws_lem P (err x) k s s' p h e f = p x refl

  pub bind-Throws :
      {A B : Type 0} (P : System Number World → Type 0) (m : Action (System Number World) A)
      (k : A → Action (System Number World) B) (s : System Number World)
      → ((e : HttpError) → (m s).0 ≡ err e → P (m s).1)
      → ((a : A) → (m s).0 ≡ ok a → Throws P (k a (m s).1))
      → Throws P ((m >>= k) s)
  bind-Throws P m k s = bind_Throws_lem P (m s).0 k s (m s).1

  -- If the call returned, the state it left has the property.
  abbrev pub Ensures :
      {A : Type 0} → (System Number World → Type 0) → Result A × System Number World → Type 0
  Ensures {A} P r = (a : A) → r.0 ≡ ok a → P r.1

  pub throw_if-Ensures :
      {A : Type 0} (P : System Number World → Type 0) (c : Bool) (x : HttpError)
      (k : Action (System Number World) A) (s : System Number World)
      → (c ≡ false → Ensures P (k s))
      → Ensures P ((throw_if c x >> k) s)
  throw_if-Ensures P true x k s h a f = ground arith
  throw_if-Ensures P false x k s h a f = h refl a f

  pub or_throw-Ensures :
      {A B : Type 0} (P : System Number World → Type 0) (o : Option A) (x : HttpError)
      (k : A → Action (System Number World) B) (s : System Number World)
      → ((a : A) → o ≡ some a → Ensures P (k a s))
      → Ensures P ((or_throw o x >>= k) s)
  or_throw-Ensures P none x k s h a f = ground arith
  or_throw-Ensures P (some y) x k s h a f = h y refl a f

  bind_RollsBack_lem :
      {A B : Type 0} (r : Result A) (k : A → Action (System Number World) B)
      (s s' : System Number World)
      → s'.store ≡ s.store
      → ((a : A) → RollsBack s' (k a s'))
      → RollsBack s (((λ _. (r, s')) >>= k) s)
  bind_RollsBack_lem (ok a) k s s' p h e f = h a e f ∙ p
  bind_RollsBack_lem (err x) k s s' p h e f = p

  -- A first call that writes nothing to the database.
  pub bind-RollsBack :
      {A B : Type 0} (m : Action (System Number World) A) (k : A → Action (System Number World) B)
      (s : System Number World)
      → (m s).1.store ≡ s.store
      → ((a : A) → RollsBack (m s).1 (k a (m s).1))
      → RollsBack s ((m >>= k) s)
  bind-RollsBack m k s = bind_RollsBack_lem (m s).0 k s (m s).1

  bind_Ensures_lem :
      {A B : Type 0} (P : System Number World → Type 0) (r : Result A)
      (k : A → Action (System Number World) B) (s s' : System Number World)
      → ((a : A) → r ≡ ok a → Ensures P (k a s'))
      → Ensures P (((λ _. (r, s')) >>= k) s)
  bind_Ensures_lem P (ok y) k s s' h a f = h y refl a f
  bind_Ensures_lem P (err x) k s s' h a f = ground arith

  pub bind-Ensures :
      {A B : Type 0} (P : System Number World → Type 0) (m : Action (System Number World) A)
      (k : A → Action (System Number World) B) (s : System Number World)
      → ((a : A) → (m s).0 ≡ ok a → Ensures P (k a (m s).1))
      → Ensures P ((m >>= k) s)
  bind-Ensures P m k s = bind_Ensures_lem P (m s).0 k s (m s).1
