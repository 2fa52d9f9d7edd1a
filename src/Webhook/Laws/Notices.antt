-- ===== src/Webhook/Laws/Notices.antt =====
-- The handlers of webhooks when each notice can be made, of src/webhook/webhook.service.ts and
-- src/notification/notification.service.ts.
use mathlib.Core.Bool
use seatwaves_backend.Common.{
  ℕ, ◌≡◌, refl, sym, ◌∙◌, Bool, true, false, Option, none, some, Result, ok, err, HttpError,
  failure, arith, if◌then◌else◌, Action, modify, ◌>>◌,
}
use seatwaves_backend.Database.Queries.{Queries}
use seatwaves_backend.Points.Data.{Numbers, Calendar}
use seatwaves_backend.Orders.Data.{Transaction, Booking}
use seatwaves_backend.Orders.Store.{
  Store, write_booking, write_transaction, booking_of, send, notification, activity,
}
use seatwaves_backend.Webhook.Event.{PaymentIntent, Payload, payment_intent_succeeded}
use seatwaves_backend.Webhook.Handlers.{
  handle_payment_intent_succeeded, announce_booking, settle_transaction, find_transaction,
  has_intent, confirm, settle_payment,
}

module _ (n : Numbers) (c : Calendar) (q : Queries) where
  open n use {Number}

  -- The call that throws leaves the store as it was.
  abbrev pub Undoes : Store Number → Result (Unit {0}) × Store Number → Type 0
  Undoes s r = (x : HttpError) → r.0 ≡ err x → r.1 ≡ s

  -- Every notice can be made at this time.
  abbrev pub CanTell : ℕ → Type 0
  CanTell now = (u : ℕ) → q.can_read now u ≡ true

  -- The events whose handlers do all that they do in one transaction, or nothing that can fail.
  abbrev pub IsAtomic : Payload → Type 0
  IsAtomic (payment_intent_succeeded _) = ⊥
  IsAtomic _ = Unit

  pub returned :
      (s : Store Number) (r : Result (Unit {0}) × Store Number) → r.0 ≡ ok tt → Undoes s r
  returned s r e x f = absurd (ok_ne_err (sym e ∙ f))
    where
      ok_ne_err : ¬ (ok tt ≡ err x)
      ok_ne_err = ground arith

  announce_booking_told :
      (now : ℕ) (u v : Option ℕ) (s : Store Number)
      → CanTell now
      → (announce_booking n c q now u v s).0 ≡ ok tt
  announce_booking_told now none v s h = refl
  announce_booking_told now (some u) none s h = refl
  announce_booking_told now (some u) (some v) s h =
      both_told (q.can_read now u) (q.can_read now v) (h u) (h v)
    where
      tell : Bool → ℕ → Action (Store Number) (Unit {0})
      tell can w s' =
          if can then (ok tt, send (notification w "Booking Confirmed") s') else (err failure, s')

      both_told :
          (can other : Bool)
          → can ≡ true
          → other ≡ true
          → ((tell can u >> (tell other v >> modify (send (activity (some u) "BOOKING_CONFIRMED"))))
              s).0
            ≡ ok tt
      both_told true true e f = refl
      both_told true false e f = absurd (Bool.false≢true f)
      both_told false other e f = absurd (Bool.false≢true e)

  -- The end of the handler, with the booking of the transaction.
  abbrev settle_booking :
      ℕ
      → PaymentIntent
      → Transaction
      → Store Number
      → Option Booking
      → Result (Unit {0}) × Store Number
  settle_booking now intent t s o = elim o [
    | none ↦ (err failure, s)
    | some b ↦ announce_booking n c q now t.payer_id t.payee_id (
        write_booking b.id (confirm n c q now)
          (write_transaction t.id (settle_payment n c q now intent t) s))
  ]

  settle_booking-Undoes :
      (now : ℕ) (intent : PaymentIntent) (t : Transaction) (s : Store Number) (o : Option Booking)
      → CanTell now
      → Undoes s (settle_booking now intent t s o)
  settle_booking-Undoes now intent t s none h x f = refl
  settle_booking-Undoes now intent t s (some b) h x f =
      let written =
        write_booking b.id (confirm n c q now)
          (write_transaction t.id (settle_payment n c q now intent t) s) in
      returned s (announce_booking n c q now t.payer_id t.payee_id written)
        (announce_booking_told now t.payer_id t.payee_id written h) x f

  settle_transaction-Undoes :
      (now : ℕ) (intent : PaymentIntent) (t : Transaction) (s : Store Number)
      → CanTell now
      → Undoes s (settle_transaction n c q now intent t s)
  unfolding settle_transaction
  settle_transaction-Undoes now intent t s h =
      settle_booking-Undoes now intent t s (booking_of t s) h

  abbrev on_found :
      Option Transaction
      → (Transaction → Result (Unit {0}) × Store Number)
      → Store Number
      → Result (Unit {0}) × Store Number
  on_found o g s = elim o [ none ↦ (ok tt, s) | some t ↦ g t ]

  found-Undoes :
      (o : Option Transaction) (g : Transaction → Result (Unit {0}) × Store Number)
      (s : Store Number)
      → ((t : Transaction) → Undoes s (g t))
      → Undoes s (on_found o g s)
  found-Undoes none g s h = returned s (ok tt, s) refl
  found-Undoes (some t) g s h = h t

  pub succeeded-Undoes :
      (now : ℕ) (intent : PaymentIntent) (s : Store Number)
      → CanTell now
      → Undoes s (handle_payment_intent_succeeded n c q now intent s)
  unfolding handle_payment_intent_succeeded
  succeeded-Undoes now intent s h =
      found-Undoes (find_transaction n c q now (has_intent n c q now intent) s)
        (λ t. settle_transaction n c q now intent t s) s
        λ t. settle_transaction-Undoes now intent t s h
