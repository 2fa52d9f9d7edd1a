-- ===== src/Webhook/Laws/Payments.antt =====
-- The handlers of checkout sessions and payment intents in src/webhook/webhook.service.ts.
use seatwaves_backend.Common.{
  ℕ, ◌≡◌, refl, sym, ap, ◌∙◌, ◌>>◌, subst, inl, inr, true, false, List, Option, none, some, Result,
  ok, err, failure, transactional, Bool, if◌then◌else◌, arith, Bool-cases,
}
use Prim.Native.String.{String}
use seatwaves_backend.Database.Table.{find_unique, find_unique-id, find_unique-update}
use seatwaves_backend.Database.Queries.{Queries}
use seatwaves_backend.Points.Data.{Numbers, Calendar}
use seatwaves_backend.Orders.Data.{
  Transaction, Booking, Ticket, is_pending, booking_id, ticket_id, transaction_id, success,
  confirmed, same_text,
}
use seatwaves_backend.Orders.Data
use seatwaves_backend.Orders.Store.{Store, write_booking, booking_of, send, notification}
use seatwaves_backend.Webhook.Event.{
  PaymentIntent, Payload, checkout_session_expired, payment_intent_payment_failed,
  payment_intent_canceled, checkout_session_completed, payment_intent_succeeded, transfer_created,
  application_fee_created, charge_refunded, payout_paid, charge_refund_updated, unhandled,
}
use seatwaves_backend.Webhook.Handlers.{
  handle_checkout_session_expired, handle_payment_intent_failed, handle_payment_intent_cancelled,
  expire_booking, cancel_booking, expire_transaction, fail_transaction, notify, matches_session,
  has_intent, cancel_transaction, find_transaction,
}
use seatwaves_backend.Webhook.Job.{dispatch}

-- The events of a payment that came to nothing.
abbrev pub IsLost : Payload → Type 0
IsLost (checkout_session_expired _) = Unit
IsLost (payment_intent_payment_failed _) = Unit
IsLost (payment_intent_canceled _) = Unit
IsLost _ = ⊥

module _ (n : Numbers) (c : Calendar) (q : Queries) (now : ℕ) where
  open n use {Number}

  -- The bookings that are not PENDING are what they were.
  abbrev pub KeepsSettled : Store Number → Store Number → Type 0
  KeepsSettled s s' =
      (j : ℕ) (b : Booking)
      → find_unique booking_id j s.bookings ≡ some b
      → is_pending b.status ≡ false
      → find_unique booking_id j s'.bookings ≡ some b

  found_by :
      (i : Option ℕ) (rows : List Booking) (b : Booking)
      → elim i [ none ↦ none | some k ↦ find_unique booking_id k rows ] ≡ some b
      → find_unique booking_id b.id rows ≡ some b
  found_by none rows b h = ground arith
  found_by (some k) rows b h =
      subst (λ i. find_unique booking_id i rows ≡ some b) (sym (find_unique-id booking_id k rows h))
        h

  -- A booking that a query included stands in its table.
  abbrev pub IsStored : Option Booking → Store Number → Type 0
  IsStored o s = (b : Booking) → o ≡ some b → find_unique booking_id b.id s.bookings ≡ some b

  pub booking_of-IsStored : (t : Transaction) (s : Store Number) → IsStored (booking_of t s) s
  booking_of-IsStored t s = found_by t.booking_id s.bookings

  -- A write to a PENDING booking.
  write_pending :
      (b : Booking) (f : Booking → Booking) (s : Store Number)
      → ((r : Booking) → booking_id (f r) ≡ booking_id r)
      → find_unique booking_id b.id s.bookings ≡ some b
      → is_pending b.status ≡ true
      → KeepsSettled s (write_booking b.id f s)
  write_pending b f s k h p j d e r = ground (
    arith,
    find_unique-update booking_id b.id j f s.bookings k,
    find_unique-id booking_id j s.bookings e,
  )

  -- Notices do not touch the bookings, also if one cannot be made.
  notify-bookings :
      (u : Option ℕ) (title : String) (s : Store Number)
      → (notify n c q now u title s).1.bookings ≡ s.bookings
  notify-bookings none title s = refl
  notify-bookings (some u) title s = ground arith

  told-bookings :
      (can : Bool) (v : Option ℕ) (other : String) (s s' : Store Number)
      → s'.bookings ≡ s.bookings
      → (((λ _. if can then (ok tt, s') else (err failure, s)) >> notify n c q now v other)
          s).1.bookings
        ≡ s.bookings
  told-bookings true v other s s' e = notify-bookings v other s' ∙ e
  told-bookings false v other s s' e = refl

  both-bookings :
      (u v : Option ℕ) (title other : String) (s : Store Number)
      → ((notify n c q now u title >> notify n c q now v other) s).1.bookings ≡ s.bookings
  both-bookings none v title other s = notify-bookings v other s
  both-bookings (some u) v title other s =
      told-bookings (q.can_read now u) v other s (send (notification u title) s) refl

  abbrev expire : Booking → Booking
  expire r = record r { status = Data.BookingStatus.expired; updated_at = now }

  abbrev cancel : Booking → Booking
  cancel r = record r { status = Data.BookingStatus.cancelled; updated_at = now }

  expire_booking-Keeps :
      (t : Transaction) (o : Option Booking) (s : Store Number)
      → IsStored o s
      → KeepsSettled s (expire_booking n c q now t o s).1
  expire_booking-Keeps t none s h j b e r = e
  expire_booking-Keeps t (some b) s h j d e r = elim (Bool-cases (is_pending b.status)) [
    | inl p ↦ rw p (
        ap (find_unique booking_id j) (
          both-bookings t.payer_id t.payee_id "Booking Payment Expired" "Guest Payment Expired"
            (write_booking b.id expire s))
        ∙ write_pending b expire s (λ r. refl) (h b refl) p j d e r)
    | inr p ↦ rw p e
  ]

  cancel_booking-Keeps :
      (t : Transaction) (title : String) (o : Option Booking) (s : Store Number)
      → IsStored o s
      → KeepsSettled s (cancel_booking n c q now t title o s).1
  cancel_booking-Keeps t title none s h j b e r = e
  cancel_booking-Keeps t title (some b) s h j d e r = elim (Bool-cases (is_pending b.status)) [
    | inl p ↦ rw p (
        ap (find_unique booking_id j)
          (notify-bookings t.payer_id title (write_booking b.id cancel s))
        ∙ write_pending b cancel s (λ r. refl) (h b refl) p j d e r)
    | inr p ↦ rw p (ap (find_unique booking_id j) (notify-bookings t.payer_id title s) ∙ e)
  ]

  expire_transaction-Keeps :
      (t : Transaction) (s : Store Number) → KeepsSettled s (expire_transaction n c q now t s).1
  unfolding expire_transaction
  expire_transaction-Keeps t s = expire_booking-Keeps t (booking_of t s) _ (booking_of-IsStored t s)

  fail_transaction-Keeps :
      (intent : PaymentIntent) (t : Transaction) (s : Store Number)
      → KeepsSettled s (fail_transaction n c q now intent t s).1
  unfolding fail_transaction
  fail_transaction-Keeps intent t s =
      cancel_booking-Keeps t "Payment Failed" (booking_of t s) _ (booking_of-IsStored t s)

  cancel_transaction-Keeps :
      (intent : PaymentIntent) (t : Transaction) (s : Store Number)
      → KeepsSettled s (cancel_transaction n c q now intent t s).1
  unfolding cancel_transaction
  cancel_transaction-Keeps intent t s =
      cancel_booking-Keeps t "Payment Cancelled" (booking_of t s) _ (booking_of-IsStored t s)

  undone-Keeps :
      (s : Store Number) (r : Result (Unit {0}) × Store Number)
      → KeepsSettled s r.1
      → KeepsSettled s (transactional (λ _. r) s).1
  undone-Keeps s (ok a, u) h j b e p = h j b e p
  undone-Keeps s (err x, u) h j b e p = e

  abbrev on_found :
      Option Transaction
      → (Transaction → Result (Unit {0}) × Store Number)
      → Store Number
      → Result (Unit {0}) × Store Number
  on_found o g s = elim o [ none ↦ (ok tt, s) | some t ↦ transactional (λ _. g t) s ]

  found-Keeps :
      (o : Option Transaction) (g : Transaction → Result (Unit {0}) × Store Number)
      (s : Store Number)
      → ((t : Transaction) → KeepsSettled s (g t).1)
      → KeepsSettled s (on_found o g s).1
  found-Keeps none g s h j b e r = e
  found-Keeps (some t) g s h j b e r = undone-Keeps s (g t) (h t) j b e r

  -- An expired session, a failed payment and a cancelled payment leave every booking alone that is
  -- not PENDING, whatever transaction they find.
  pub dispatch-KeepsSettled :
      (p : Payload) (s : Store Number)
      → IsLost p
      → (j : ℕ) (b : Booking) → find_unique booking_id j s.bookings ≡ some b
      → is_pending b.status ≡ false
      → find_unique booking_id j (dispatch n c q now p s).1.bookings ≡ some b
  unfolding dispatch handle_checkout_session_expired handle_payment_intent_failed
      handle_payment_intent_cancelled
  dispatch-KeepsSettled (checkout_session_expired x) s l j b e r =
      found-Keeps (find_transaction n c q now (matches_session n c q now x) s)
        (λ t. expire_transaction n c q now t s) s (λ t. expire_transaction-Keeps t s) j b e r
  dispatch-KeepsSettled (payment_intent_payment_failed i) s l j b e r =
      found-Keeps (find_transaction n c q now (has_intent n c q now i) s)
        (λ t. fail_transaction n c q now i t s) s (λ t. fail_transaction-Keeps i t s) j b e r
  dispatch-KeepsSettled (payment_intent_canceled i) s l j b e r =
      found-Keeps (find_transaction n c q now (has_intent n c q now i) s)
        (λ t. cancel_transaction n c q now i t s) s (λ t. cancel_transaction-Keeps i t s) j b e r
  dispatch-KeepsSettled (checkout_session_completed x) s l j b e r = absurd l
  dispatch-KeepsSettled (payment_intent_succeeded x) s l j b e r = absurd l
  dispatch-KeepsSettled (transfer_created x) s l j b e r = absurd l
  dispatch-KeepsSettled (application_fee_created x) s l j b e r = absurd l
  dispatch-KeepsSettled (charge_refunded x) s l j b e r = absurd l
  dispatch-KeepsSettled payout_paid s l j b e r = absurd l
  dispatch-KeepsSettled charge_refund_updated s l j b e r = absurd l
  dispatch-KeepsSettled unhandled s l j b e r = absurd l
