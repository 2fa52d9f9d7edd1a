-- ===== src/Webhook/Handlers.antt =====
-- The handlers of checkout sessions and payment intents in src/webhook/webhook.service.ts.
use Prim.Native.String.{String}
use mathlib.Core.Option
use seatwaves_backend.Common.{
  ℕ, Bool, true, ◌||◌, Option, none, some, if◌then◌else◌, keep, ok, err, modify, gets, pure, ◌>>=◌,
  ◌>>◌, transactional, failure,
}
use seatwaves_backend.Database.Queries.{Queries}
use seatwaves_backend.Points.Data.{Numbers, Calendar, booking}
use seatwaves_backend.Points.Award.{award_points, text_or}
use seatwaves_backend.Orders.Data.{
  Transaction, Booking, Ticket, Json, string, number, put_defined, json_of, put, same_text,
  is_pending, success, confirmed, transaction_id,
}
use seatwaves_backend.Orders.Data
use seatwaves_backend.Orders.Store.{
  Store, Handler, notification, activity, mail, write_transaction, write_booking, write_ticket,
  send, booking_of, on_loyalty,
}
use seatwaves_backend.Webhook.Event.{Session, PaymentIntent}

module _ (n : Numbers) (c : Calendar) (q : Queries) (now : ℕ) where
  open n use {Number}

  -- `tx.transaction.findFirst({ where })`
  abbrev pub find_transaction : (Transaction → Bool) → Store Number → Option Transaction
  find_transaction p s = q.first Transaction (keep p s.transactions)

  -- The update of the transaction to SUCCESS.
  abbrev pub complete_payment : Session → Transaction → Transaction → Transaction
  complete_payment session t r = record r {
    status = success;
    processed_at = some now;
    metadata =
        put "stripeCustomerId" (json_of session.customer)
          (put "checkoutSessionId" (string session.id) t.metadata);
  }

  -- `if (session.payment_intent)`
  abbrev pub store_intent : Session → ℕ → Store Number → Store Number
  store_intent session i s = elim session.payment_intent [
    | none ↦ s
    | some p ↦ write_transaction i (λ r. record r { stripe_payment_intent = some p }) s
  ]

  abbrev pub confirm : Booking → Booking
  confirm b = record b { status = confirmed; updated_at = now }

  -- The nested update of a booking and its ticket.
  abbrev pub confirm_booking : Option Booking → Store Number → Store Number
  confirm_booking none s = s
  confirm_booking (some b) s =
      write_ticket b.ticket_id (λ r. record r { is_booked = true }) (write_booking b.id confirm s)

  -- `notificationService.createAndQueueNotification`, which reads the settings of the user.
  abbrev pub notify_user : ℕ → String → Handler Number
  notify_user u title s =
      if q.can_read now u then (ok tt, send (notification u title) s) else (err failure, s)

  -- The same without `await`: nobody sees the exception.
  abbrev pub notify_later : ℕ → String → Store Number → Store Number
  notify_later u title s = if q.can_read now u then send (notification u title) s else s

  -- `if (userId) await this.notificationService.createAndQueueNotification(userId, ...)`
  abbrev pub notify : Option ℕ → String → Handler Number
  notify none title = pure tt
  notify (some u) title = notify_user u title

  -- The points, notifications and mails of a confirmed booking.
  abbrev pub reward_booking : Transaction → Option ℕ → Option Booking → Option ℕ → Handler Number
  reward_booking t (some payer) (some b) (some host) = do
    on_loyalty (
        award_points n c q
          (record {
            user_id = payer;
            action = booking;
            amount_cents = some t.amount;
            referenced_id = some b.id;
            reason = some "Booking confirmed";
          })
          now)
    modify (notify_later payer "Booking Confirmed")
    modify (notify_later host "Booking Confirmed")
    modify (send (activity (some payer) "BOOKING_CONFIRMED"))
    modify (send (mail payer "Booking Confirmed"))
  reward_booking t _ _ _ = pure tt

  -- The transaction of `handleCheckoutSessionCompleted` once it found the row.
  unfoldable pub complete_transaction : Session → Transaction → Handler Number
  complete_transaction session t = do
    b ← gets (booking_of t)
    modify (store_intent session t.id)
    modify (write_transaction t.id (complete_payment session t))
    modify (confirm_booking b)
    reward_booking t t.payer_id b t.payee_id

  -- `handleCheckoutSessionCompleted`
  unfoldable pub handle_checkout_session_completed : Session → Handler Number
  unfolding complete_transaction
  handle_checkout_session_completed session s =
      elim (find_transaction (λ t. same_text t.external_txn_id (some session.id)) s) [
        | none ↦ (ok tt, s)
        | some t ↦ transactional (complete_transaction session t) s
      ]

  -- A booking that is still PENDING gets the status, and its users are told; another is left.
  abbrev pub expire_booking : Transaction → Option Booking → Handler Number
  expire_booking t none = pure tt
  expire_booking t (some b) =
      if is_pending b.status
      then (modify (
            write_booking b.id
              (λ r. record r { status = Data.BookingStatus.expired; updated_at = now }))
          >> (notify t.payer_id "Booking Payment Expired"
              >> notify t.payee_id "Guest Payment Expired"))
      else pure tt

  -- The update of a transaction whose payment came to nothing.
  abbrev pub close_payment :
      Data.TransactionStatus
      → (Data.Metadata → Data.Metadata)
      → Transaction
      → Transaction
      → Transaction
  close_payment status meta t r = record r {
    status = status;
    processed_at = some now;
    metadata = meta t.metadata;
  }

  unfoldable pub expire_transaction : Transaction → Handler Number
  expire_transaction t s = expire_booking t (booking_of t s) (
      write_transaction t.id
        (close_payment Data.TransactionStatus.failed (put "checkoutSessionExpiredAt" (number now))
          t)
        s)

  -- The rows that `handleCheckoutSessionExpired` looks for. A session with no payment intent
  -- compares with null.
  abbrev pub matches_session : Session → Transaction → Bool
  matches_session session t =
      same_text t.external_txn_id (some session.id)
      || same_text t.stripe_payment_intent session.payment_intent

  -- `handleCheckoutSessionExpired`
  unfoldable pub handle_checkout_session_expired : Session → Handler Number
  unfolding expire_transaction
  handle_checkout_session_expired session s = elim (find_transaction (matches_session session) s) [
    | none ↦ (ok tt, s)
    | some t ↦ transactional (expire_transaction t) s
  ]

  -- A PENDING booking is cancelled, and the payer is told in any case.
  abbrev pub cancel_booking : Transaction → String → Option Booking → Handler Number
  cancel_booking t title none s = (ok tt, s)
  cancel_booking t title (some b) s = notify t.payer_id title (
      if is_pending b.status
      then write_booking b.id
          (λ r. record r { status = Data.BookingStatus.cancelled; updated_at = now }) s
      else s)

  unfoldable pub fail_transaction : PaymentIntent → Transaction → Handler Number
  fail_transaction intent t s = cancel_booking t "Payment Failed" (booking_of t s) (
      write_transaction t.id
        (close_payment Data.TransactionStatus.failed
          (λ m.
            put_defined "lastPaymentError" (Option.map string intent.last_payment_error)
              (put "paymentFailedAt" (number now) m))
          t)
        s)

  abbrev pub has_intent : PaymentIntent → Transaction → Bool
  has_intent intent t = same_text t.stripe_payment_intent (some intent.id)

  -- `handlePaymentIntentFailed`
  unfoldable pub handle_payment_intent_failed : PaymentIntent → Handler Number
  unfolding fail_transaction
  handle_payment_intent_failed intent s = elim (find_transaction (has_intent intent) s) [
    | none ↦ (ok tt, s)
    | some t ↦ transactional (fail_transaction intent t) s
  ]

  unfoldable pub cancel_transaction : PaymentIntent → Transaction → Handler Number
  cancel_transaction intent t s = cancel_booking t "Payment Cancelled" (booking_of t s) (
      write_transaction t.id
        (close_payment Data.TransactionStatus.cancelled
          (λ m.
            put "cancellationReason" (string (text_or intent.cancellation_reason "user_cancelled"))
              (put "paymentCancelledAt" (number now) m))
          t)
        s)

  -- `handlePaymentIntentCancelled`
  unfoldable pub handle_payment_intent_cancelled : PaymentIntent → Handler Number
  unfolding cancel_transaction
  handle_payment_intent_cancelled intent s = elim (find_transaction (has_intent intent) s) [
    | none ↦ (ok tt, s)
    | some t ↦ transactional (cancel_transaction intent t) s
  ]

  -- The update of a transaction whose payment intent succeeded.
  abbrev pub settle_payment : PaymentIntent → Transaction → Transaction → Transaction
  settle_payment intent t r = record r {
    status = success;
    processed_at = some now;
    settled_at = some now;
    stripe_charge_id = intent.latest_charge;
    stripe_transfer_id = intent.transfer_group;
    metadata =
        put "receiptUrl" (json_of intent.receipt_email)
          (put "stripePaymentMethod" (json_of intent.payment_method) t.metadata);
  }

  -- The notifications of a settled payment.
  abbrev pub announce_booking : Option ℕ → Option ℕ → Handler Number
  announce_booking (some payer) (some host) = do
    notify_user payer "Booking Confirmed"
    notify_user host "Booking Confirmed"
    modify (send (activity (some payer) "BOOKING_CONFIRMED"))
  announce_booking _ _ = pure tt

  -- The nested update of the booking throws if the transaction has none. The two rows are written
  -- outside of a transaction, before the notices.
  unfoldable pub settle_transaction : PaymentIntent → Transaction → Handler Number
  settle_transaction intent t s = elim (booking_of t s) [
    | none ↦ (err failure, s)
    | some b ↦
        announce_booking t.payer_id t.payee_id
          (write_booking b.id confirm (write_transaction t.id (settle_payment intent t) s))
  ]

  -- `handlePaymentIntentSucceeded`
  unfoldable pub handle_payment_intent_succeeded : PaymentIntent → Handler Number
  unfolding settle_transaction
  handle_payment_intent_succeeded intent s = elim (find_transaction (has_intent intent) s) [
    | none ↦ (ok tt, s)
    | some t ↦ settle_transaction intent t s
  ]
