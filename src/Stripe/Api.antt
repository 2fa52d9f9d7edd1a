-- ===== src/Stripe/Api.antt =====
-- The calls of the Stripe SDK that the services make. Stripe's own state is `World`; a call that
-- throws returns `none` and leaves it as it was.
use Prim.Native.String.{String}
use seatwaves_backend.Common.{ℕ, Option, none, some, Action, Result, ok, err, HttpError}
use seatwaves_backend.Orders.Store.{Store}

pub record IntentInfo : Type 0 where
  pub latest_charge : Option String
  pub amount : ℕ

pub record ChargeInfo : Type 0 where
  pub amount : ℕ
  pub amount_refunded : ℕ

pub record StripeApi : Type 1 where
  pub World : Type 0
  -- the `payment_intent` of `checkout.sessions.retrieve(id)`
  pub retrieve_session : String → World → Option (Option String)
  -- the first of `checkout.sessions.list({ payment_link, limit: 1 })`
  pub list_sessions : String → World → Option (Option (Option String))
  pub retrieve_intent : String → World → Option IntentInfo
  pub retrieve_charge : String → World → Option ChargeInfo
  -- `refunds.create` by payment intent, cents and reason; the id of the refund
  pub create_refund : String → ℕ → String → World → Option (String × World)
  -- `transfers.create` of cents to an account; the id of the transfer
  pub create_transfer : ℕ → String → World → Option (String × World)
  -- `transfers.createReversal`
  pub create_reversal : String → ℕ → World → Option World

-- The database with Stripe beside it.
pub record System (Number World : Type 0) : Type 0 where
  pub store : Store Number
  pub stripe : World

module _ {Number World A : Type 0} where
  -- `prisma.$transaction` undoes writes to the database, and nothing at Stripe.
  abbrev pub in_transaction : Action (System Number World) A → Action (System Number World) A
  in_transaction m s =
      let (r, s') = m s in
      elim r [ ok a ↦ (ok a, s') | err e ↦ (err e, record s' { store = s.store }) ]

  -- `catch (error) { throw ... }`
  abbrev pub rethrow :
      (HttpError → HttpError) → Action (System Number World) A → Action (System Number World) A
  rethrow f m s = let (r, s') = m s in elim r [ ok a ↦ (ok a, s') | err e ↦ (err (f e), s') ]

  -- A call that reads Stripe.
  abbrev pub ask : (World → Result A) → Action (System Number World) A
  ask f s = (f s.stripe, s)

  -- A call that changes Stripe.
  abbrev pub request : (World → Option (A × World)) → HttpError → Action (System Number World) A
  request f e s = elim (f s.stripe) [
    | none ↦ (err e, s)
    | some (a, w) ↦ (ok a, record s { stripe = w })
  ]

abbrev pub or_error : {A : Type 0} → Option A → HttpError → Result A
or_error none e = err e
or_error (some a) e = ok a

-- `modify` on the database.
abbrev pub write :
    {Number World : Type 0}
    → (Store Number → Store Number)
    → Action (System Number World) (Unit {0})
write f s = (ok tt, record s { store = f s.store })
