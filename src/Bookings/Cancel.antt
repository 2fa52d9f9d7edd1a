-- ===== src/Bookings/Cancel.antt =====
-- `cancelByGuest` of src/booking/booking.service.ts.
use Prim.Native.String.{String}
use text.Mathlib.Text.{◌==◌ as str_eq}
use mathlib.Core.List.{head?}
use seatwaves_backend.Common.{
  ℕ, ◌+◌, Bool, err, failure, ◌&&◌, not, List, Option, none, some, ◌==◌, leb, ltb, if◌then◌else◌,
  Action, gets, pure, ◌>>=◌, ◌>>◌, or_throw, throw_if, bad_request, forbidden, is_some, keep,
  same_id,
}
use seatwaves_backend.Database.Table.{find_unique}
use seatwaves_backend.Database.Queries.{Queries}
use seatwaves_backend.Orders.Data.{
  Transaction, TransactionStatus, Booking, is_type, is_success, booking_payment, booking_refund,
  booking_id, ticket_id, fully_refunded, partially_refunded,
}
use seatwaves_backend.Orders.Data
use seatwaves_backend.Orders.Store.{
  Store, notification, mail, write_booking, write_transaction, send,
}
use seatwaves_backend.Stripe.Api.{StripeApi, System, write}
use seatwaves_backend.Stripe.Refund.{process_refund}
use seatwaves_backend.Bookings.Status.{is_cancelled, is_delivered, set_status}

-- The booking of a user, or nothing.
abbrev pub own_booking : ℕ → Option Booking → Option Booking
own_booking user none = none
own_booking user (some b) = if b.user_id == user then some b else none

-- The payment with its intent, if there are both; the empty string is falsy.
abbrev pub paid_intent : Option Transaction → Option (Transaction × String)
paid_intent none = none
paid_intent (some t) = elim t.stripe_payment_intent [
  | none ↦ none
  | some i ↦ if str_eq i "" then none else some (t, i)
]

abbrev pub amount_of : Option Transaction → ℕ
amount_of none = 0
amount_of (some t) = t.amount

-- The status that the original transaction gets.
abbrev pub refund_status : ℕ → Transaction → TransactionStatus
refund_status returned t =
    if leb t.amount returned
    then fully_refunded
    else if ltb 0 returned
    then partially_refunded
    else t.status

module _ (q : Queries) where
  -- `transactions: { where: { type }, orderBy: { createdAt: 'desc' }, take: 1 }`
  unfoldable pub latest_payment : ℕ → List Transaction → Option Transaction
  latest_payment id rows = head? (
      q.order_desc Transaction (λ t. t.created_at)
        (keep (λ t. is_type booking_payment t && same_id t.booking_id (some id)) rows))

  -- A refund of the payment that succeeded.
  unfoldable pub existing_refund : ℕ → List Transaction → Option Transaction
  existing_refund parent rows = q.first Transaction (
      keep
        (λ t.
          same_id t.parent_transaction_id (some parent)
          && is_type booking_refund t
          && is_success t.status)
        rows)

module _ (api : StripeApi) (n : Type 0) (q : Queries) (now : ℕ) where
  -- `if (refundAmount > 0 && !existingRefund)`
  unfoldable pub refund_payment :
      Transaction → String → Option Transaction → Action (System n api.World) (Unit {0})
  refund_payment t intent existing =
      if ltb 0 t.amount && not (is_some existing)
      then (process_refund api n q now intent (some t.amount) (some "guest_cancellation")
          >> pure tt)
      else pure tt

  -- The batch of updates, with the notices, whose errors are only logged.
  unfoldable pub close_booking : Booking → Transaction → Option Transaction → Store n → Store n
  close_booking b t existing s = send (mail b.user_id "Your booking has been cancelled") (
      notify_seller (
        send (notification b.user_id "Booking Cancelled") (
          write_transaction t.id
            (λ r. record r { status = refund_status (amount_of existing + t.amount) t })
            (write_booking b.id (set_status now Data.BookingStatus.cancelled) s))))
    where
      notify_seller : Store n → Store n
      notify_seller u = elim (find_unique ticket_id b.ticket_id u.tickets) [
        | none ↦ u
        | some k ↦ send (notification k.seller_id "Booking Cancelled by Guest") u
      ]

  -- The transaction at the end: `fails` says whether the database refuses it. The refund has a
  -- transaction of its own, which is committed by then.
  unfoldable pub finish_cancel :
      Bool → Booking → Transaction → Option Transaction → Action (System n api.World) (Unit {0})
  unfolding close_booking
  finish_cancel fails b t existing s =
      if fails then (err failure, s) else write (close_booking b t existing) s

  -- The end of `cancelByGuest`, with the payment and its intent.
  unfoldable pub cancel_paid :
      Bool → Booking → Transaction → String → Action (System n api.World) (Unit {0})
  unfolding refund_payment finish_cancel existing_refund
  cancel_paid fails b t intent s =
      let existing = existing_refund q t.id s.store.transactions in
      (throw_if (not (is_success t.status)) bad_request
          >> (refund_payment t intent existing >> finish_cancel fails b t existing))
        s

  -- The part of `cancelByGuest` that looks for the payment.
  unfoldable pub cancel_open : Bool → Booking → Action (System n api.World) (Unit {0})
  unfolding latest_payment cancel_paid
  cancel_open fails b s =
      (or_throw (paid_intent (latest_payment q b.id s.store.transactions)) bad_request
          >>= (λ p. cancel_paid fails b p.0 p.1))
        s

  -- `cancelByGuest` once it loaded the booking.
  unfoldable pub cancel_booking : Bool → Booking → Action (System n api.World) (Unit {0})
  unfolding cancel_open
  cancel_booking fails b = do
    throw_if (is_cancelled b.status) forbidden
    throw_if (is_delivered b.status) forbidden
    cancel_open fails b

  -- `cancelByGuest`
  unfoldable pub cancel_by_guest : Bool → ℕ → ℕ → Action (System n api.World) (Unit {0})
  unfolding cancel_booking
  cancel_by_guest fails id user = do
    bookings ← gets (λ s. s.store.bookings)
    b ← or_throw (own_booking user (find_unique booking_id id bookings)) forbidden
    cancel_booking fails b
