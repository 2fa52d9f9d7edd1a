-- ===== src/Stripe/Refunds.antt =====
-- What `processRefund` of src/stripe/stripe.service.ts leaves alone.
use Prim.Native.String.{String}
use seatwaves_backend.Common.{ℕ, ◌≡◌, Option, arith}
use seatwaves_backend.Database.Queries.{Queries}
use seatwaves_backend.Orders.Data.{Transaction}
use seatwaves_backend.Orders.Store.{Store}
use seatwaves_backend.Stripe.Api.{StripeApi, IntentInfo, System}
use seatwaves_backend.Stripe.Rollback.{RollsBack}
use seatwaves_backend.Stripe.Refund.{
  process_refund, store_refund, issue_refund, refund_transaction, refund_identified,
}

module _ (api : StripeApi) (n : Type 0) (q : Queries) (now : ℕ) where
  -- An exception of `processRefund` leaves the database as it was.
  pub process_refund-RollsBack :
      (id : String) (amount : Option ℕ) (reason : Option String) (s : System n api.World)
      → RollsBack s (process_refund api n q now id amount reason s)
  unfolding process_refund
  process_refund-RollsBack id amount reason s e h = ground arith

  store_refund-bookings :
      (t : Transaction) (charge : Option String) (refund : String) (cents : ℕ) (s : Store n)
      → (store_refund api n q now t charge refund cents s).bookings ≡ s.bookings
  unfolding store_refund
  store_refund-bookings t charge refund cents s = ground arith

  issue_refund-bookings :
      (resolved : String) (amount : Option ℕ) (reason : Option String) (t : Transaction)
      (intent : IntentInfo) (available : ℕ) (s : System n api.World)
      → (issue_refund api n q now resolved amount reason t intent available s).1.store.bookings
        ≡ s.store.bookings
  unfolding issue_refund
  issue_refund-bookings resolved amount reason t intent available s =
      grind (arith, store_refund-bookings)

  refund_transaction-bookings :
      (resolved : String) (amount : Option ℕ) (reason : Option String) (t : Transaction)
      (s : System n api.World)
      → (refund_transaction api n q now resolved amount reason t s).1.store.bookings
        ≡ s.store.bookings
  unfolding refund_transaction
  refund_transaction-bookings resolved amount reason t s = grind (arith, issue_refund-bookings)

  refund_identified-bookings :
      (id : String) (amount : Option ℕ) (reason : Option String) (s : System n api.World)
      → (refund_identified api n q now id amount reason s).1.store.bookings ≡ s.store.bookings
  unfolding refund_identified
  refund_identified-bookings id amount reason s = grind (arith, refund_transaction-bookings)

  -- `processRefund` writes no booking.
  pub process_refund-bookings :
      (id : String) (amount : Option ℕ) (reason : Option String) (s : System n api.World)
      → (process_refund api n q now id amount reason s).1.store.bookings ≡ s.store.bookings
  unfolding process_refund
  process_refund-bookings id amount reason s =
      ground (arith, refund_identified-bookings id amount reason s)
