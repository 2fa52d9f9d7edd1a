-- ===== src/Bookings/Laws/Cancel.antt =====
-- Cancellation by the guest.
use Prim.Native.String.{String}
use seatwaves_backend.Common.{
  ltb, ◌&&◌, is_some, if◌then◌else◌, Action, ℕ, ◌≡◌, Bool, true, false, Result, pure, sym, ◌⊎◌,
  Option, none, some, arith, ok, err, HttpError, not, bad_request, forbidden, ◌>>◌, throw_if, refl,
  ap, subst, ◌∙◌, inl, inr,
}
use seatwaves_backend.Database.Table.{update, find_unique-id}
use seatwaves_backend.Database.Queries.{Queries}
use seatwaves_backend.Orders.Data.{
  Transaction, Booking, BookingStatus, Ticket, booking_id, ticket_id, transaction_id,
  fully_refunded, is_success,
}
use seatwaves_backend.Orders.Store.{Store}
use seatwaves_backend.Stripe.Api.{StripeApi, System}
use seatwaves_backend.Stripe.Rollback.{
  RollsBack, Throws, throw_if-Throws, or_throw-Throws, bind-Throws, Ensures, throw_if-Ensures,
  or_throw-Ensures, bind-Ensures,
}
use seatwaves_backend.Stripe.Refund.{process_refund}
use seatwaves_backend.Stripe.Refunds.{process_refund-RollsBack, process_refund-bookings}
use seatwaves_backend.Orders.Data
use seatwaves_backend.Bookings.Status.{is_cancelled, is_delivered, set_status}
use seatwaves_backend.Bookings.Cancel.{
  cancel_by_guest, cancel_booking, own_booking, latest_payment, existing_refund, paid_intent,
  close_booking, finish_cancel, refund_payment, cancel_paid, cancel_open,
}
use seatwaves_backend.Bookings.Laws.Status.{status_at, is_final}

own_booking_lem :
    (user : ℕ) (o : Option Booking) (b : Booking)
    → own_booking user o ≡ some b
    → (o ≡ some b) × (b.user_id ≡ user)
own_booking_lem user none b e = ground arith
own_booking_lem user (some c) b e = ground arith

module _ (api : StripeApi) (n : Type 0) (q : Queries) (now : ℕ) where
  -- The payment that a cancellation gives back.
  abbrev pub payment_for : Booking → System n api.World → Option (Transaction × String)
  payment_for b s = paid_intent (latest_payment q b.id s.store.transactions)

  refund_payment-RollsBack :
      (t : Transaction) (intent : String) (existing : Option Transaction) (s : System n api.World)
      → RollsBack s (refund_payment api n q now t intent existing s)
  unfolding refund_payment
  refund_payment-RollsBack t intent existing s e h = ground (
    arith,
    process_refund-RollsBack api n q now intent (some t.amount) (some "guest_cancellation") s e,
  )

  refund_payment-bookings :
      (t : Transaction) (intent : String) (existing : Option Transaction) (s : System n api.World)
      → (refund_payment api n q now t intent existing s).1.store.bookings ≡ s.store.bookings
  unfolding refund_payment
  refund_payment-bookings t intent existing s = ground (
    arith,
    process_refund-bookings api n q now intent (some t.amount) (some "guest_cancellation") s,
  )

  -- The refund that a cancellation asked for was made, and its transaction committed.
  abbrev pub IsRefunded : System n api.World → System n api.World → Type 0
  IsRefunded s s' =
      (t : Transaction) × (intent : String) × (refund : String × ℕ) × (process_refund api n q now
          intent (some t.amount) (some "guest_cancellation") s
        ≡ (ok refund, s'))

  -- What a cancellation that throws leaves behind.
  abbrev pub Leaves : Bool → System n api.World → System n api.World → Type 0
  Leaves fails s s' =
      (s'.store.bookings ≡ s.store.bookings)
      × ((s'.store ≡ s.store) ⊎ ((fails ≡ true) × IsRefunded s s'))

  made_lem :
      (t : Transaction) (intent : String) (s s' : System n api.World) (r : Result (String × ℕ))
      → process_refund api n q now intent (some t.amount) (some "guest_cancellation") s ≡ (r, s')
      → (((λ _. (r, s')) >> pure tt) s).0 ≡ ok tt
      → IsRefunded s (((λ _. (r, s')) >> pure tt) s).1
  made_lem t intent s s' (ok refund) e h = (t, intent, refund, e)
  made_lem t intent s s' (err x) e h = ground arith

  abbrev refund_if : Bool → Transaction → String → Action (System n api.World) (Unit {0})
  refund_if c t intent =
      if c
      then (process_refund api n q now intent (some t.amount) (some "guest_cancellation")
          >> pure tt)
      else pure tt

  refund_if-made :
      (c : Bool) (t : Transaction) (intent : String) (s : System n api.World)
      → (refund_if c t intent s).0 ≡ ok tt
      → ((refund_if c t intent s).1.store ≡ s.store) ⊎ IsRefunded s (refund_if c t intent s).1
  refund_if-made true t intent s h =
      let r = process_refund api n q now intent (some t.amount) (some "guest_cancellation") s in
      inr (made_lem t intent s r.1 r.0 refl h)
  refund_if-made false t intent s h = inl refl

  refund_payment-made :
      (t : Transaction) (intent : String) (existing : Option Transaction) (s : System n api.World)
      → (refund_payment api n q now t intent existing s).0 ≡ ok tt
      → ((refund_payment api n q now t intent existing s).1.store ≡ s.store)
        ⊎ IsRefunded s (refund_payment api n q now t intent existing s).1
  unfolding refund_payment
  refund_payment-made t intent existing s h =
      refund_if-made (ltb 0 t.amount && not (is_some existing)) t intent s h

  finish_cancel-fails :
      (fails : Bool) (b : Booking) (t : Transaction) (existing : Option Transaction)
      (s : System n api.World)
      → Throws (λ s'. (fails ≡ true) × (s' ≡ s)) (finish_cancel api n q now fails b t existing s)
  unfolding finish_cancel
  finish_cancel-fails true b t existing s e f = (refl, refl)
  finish_cancel-fails false b t existing s e f = ground arith

  cancel_paid-Leaves :
      (fails : Bool) (b : Booking) (t : Transaction) (intent : String) (s : System n api.World)
      → Throws (Leaves fails s) (cancel_paid api n q now fails b t intent s)
  unfolding cancel_paid
  cancel_paid-Leaves fails b t intent s =
      let existing = existing_refund q t.id s.store.transactions in
      let refund = refund_payment api n q now t intent existing in
      let finish = finish_cancel api n q now fails b t existing in
      throw_if-Throws (Leaves fails s) (not (is_success t.status)) bad_request (refund >> finish) s
        (refl, inl refl)
        λ _.
          bind-Throws (Leaves fails s) refund (λ _. finish) s
            (λ e h. (
              refund_payment-bookings t intent existing s,
              inl (refund_payment-RollsBack t intent existing s e h),
            ))
            λ a h e f.
              let (g, same) = finish_cancel-fails fails b t existing (refund s).1 e f in
              subst (Leaves fails s) (sym same) (
                refund_payment-bookings t intent existing s,
                elim (refund_payment-made t intent existing s h) [
                  | inl u ↦ inl u
                  | inr u ↦ inr (g, u)
                ],
              )

  cancel_open-Leaves :
      (fails : Bool) (b : Booking) (s : System n api.World)
      → Throws (Leaves fails s) (cancel_open api n q now fails b s)
  unfolding cancel_open
  cancel_open-Leaves fails b s =
      or_throw-Throws (Leaves fails s) (payment_for b s) bad_request
        (λ p. cancel_paid api n q now fails b p.0 p.1) s (refl, inl refl)
        λ p _. cancel_paid-Leaves fails b p.0 p.1 s

  cancel_booking-Leaves :
      (fails : Bool) (b : Booking) (s : System n api.World)
      → Throws (Leaves fails s) (cancel_booking api n q now fails b s)
  unfolding cancel_booking
  cancel_booking-Leaves fails b s =
      throw_if-Throws (Leaves fails s) (is_cancelled b.status) forbidden
        (throw_if (is_delivered b.status) forbidden >> cancel_open api n q now fails b) s
        (refl, inl refl)
        λ _.
          throw_if-Throws (Leaves fails s) (is_delivered b.status) forbidden
            (cancel_open api n q now fails b) s (refl, inl refl) λ _. cancel_open-Leaves fails b s

  -- A guest's cancellation that throws, for whatever reason, changes no booking. It leaves the
  -- database as it was, also when Stripe refuses the refund, but for one case: if the database
  -- refuses the closing transaction, the refund may have been made, and what `processRefund`
  -- committed of it stays.
  pub cancel_by_guest-Leaves :
      (fails : Bool) (id user : ℕ) (s : System n api.World) (e : HttpError)
      → (cancel_by_guest api n q now fails id user s).0 ≡ err e
      → Leaves fails s (cancel_by_guest api n q now fails id user s).1
  unfolding cancel_by_guest
  cancel_by_guest-Leaves fails id user s =
      or_throw-Throws (Leaves fails s) (own_booking user (status_at id s.store)) forbidden
        (λ b. cancel_booking api n q now fails b) s (refl, inl refl)
        λ b _. cancel_booking-Leaves fails b s

  close_booking-bookings :
      (b : Booking) (t : Transaction) (existing : Option Transaction) (s : Store n)
      → (close_booking api n q now b t existing s).bookings
        ≡ update booking_id b.id (set_status now Data.BookingStatus.cancelled) s.bookings
  unfolding close_booking
  close_booking-bookings b t existing s = ground arith

  -- What a cancellation by the guest makes of the bookings.
  abbrev pub Cancels : ℕ → ℕ → System n api.World → System n api.World → Type 0
  Cancels id user s s' =
      (b : Booking) × (status_at id s.store ≡ some b)
      × (b.user_id ≡ user)
      × (is_final b.status ≡ false)
      × (s'.store.bookings
          ≡ update booking_id id (set_status now Data.BookingStatus.cancelled) s.store.bookings)

  abbrev pub Closes : Booking → System n api.World → System n api.World → Type 0
  Closes b s s' =
      s'.store.bookings
      ≡ update booking_id b.id (set_status now Data.BookingStatus.cancelled) s.store.bookings

  finish_cancel-Closes :
      (fails : Bool) (b : Booking) (t : Transaction) (intent : String)
      (existing : Option Transaction) (s : System n api.World)
      → Ensures (Closes b s) (
          finish_cancel api n q now fails b t existing
            (refund_payment api n q now t intent existing s).1)
  unfolding finish_cancel
  finish_cancel-Closes true b t intent existing s a h = ground arith
  finish_cancel-Closes false b t intent existing s a h =
      close_booking-bookings b t existing (refund_payment api n q now t intent existing s).1.store
      ∙ ap (update booking_id b.id (set_status now Data.BookingStatus.cancelled))
          (refund_payment-bookings t intent existing s)

  cancel_paid-Ensures :
      (fails : Bool) (b : Booking) (t : Transaction) (intent : String) (s : System n api.World)
      → Ensures (Closes b s) (cancel_paid api n q now fails b t intent s)
  unfolding cancel_paid
  cancel_paid-Ensures fails b t intent s =
      let existing = existing_refund q t.id s.store.transactions in
      throw_if-Ensures (Closes b s) (not (is_success t.status)) bad_request
        (refund_payment api n q now t intent existing
          >> finish_cancel api n q now fails b t existing)
        s
        λ _.
          bind-Ensures (Closes b s) (refund_payment api n q now t intent existing)
            (λ _. finish_cancel api n q now fails b t existing) s
            λ a e. finish_cancel-Closes fails b t intent existing s

  cancel_open-Ensures :
      (fails : Bool) (b : Booking) (s : System n api.World)
      → Ensures (Closes b s) (cancel_open api n q now fails b s)
  unfolding cancel_open
  cancel_open-Ensures fails b s =
      or_throw-Ensures (Closes b s) (payment_for b s) bad_request
        (λ p. cancel_paid api n q now fails b p.0 p.1) s
        λ p _. cancel_paid-Ensures fails b p.0 p.1 s

  cancel_booking-Ensures :
      (fails : Bool) (b : Booking) (s : System n api.World)
      → Ensures
          (λ s'. (is_final b.status ≡ false) × Closes b s s')
          (cancel_booking api n q now fails b s)
  unfolding cancel_booking
  cancel_booking-Ensures fails b s =
      throw_if-Ensures (λ s'. (is_final b.status ≡ false) × Closes b s s') (is_cancelled b.status)
        forbidden (throw_if (is_delivered b.status) forbidden >> cancel_open api n q now fails b) s
        λ e.
          throw_if-Ensures (λ s'. (is_final b.status ≡ false) × Closes b s s')
            (is_delivered b.status) forbidden (cancel_open api n q now fails b) s
            λ f a h. (ground arith, cancel_open-Ensures fails b s a h)

  -- A guest's cancellation that returns was of a booking of the guest that was neither CANCELLED
  -- nor DELIVERED, and it sets that booking to CANCELLED and leaves every other booking alone.
  pub cancel_by_guest-Cancels :
      (fails : Bool) (id user : ℕ) (s : System n api.World)
      → (cancel_by_guest api n q now fails id user s).0 ≡ ok tt
      → Cancels id user s (cancel_by_guest api n q now fails id user s).1
  unfolding cancel_by_guest
  cancel_by_guest-Cancels fails id user s r =
      (or_throw-Ensures (Cancels id user s) (own_booking user (status_at id s.store)) forbidden
          (λ b. cancel_booking api n q now fails b) s
          λ b e a h.
            let c = cancel_booking-Ensures fails b s a h in
            let o = own_booking_lem user (status_at id s.store) b e in
            (
              b,
              o.0,
              o.1,
              c.0,
              subst
                  (λ i.
                    (cancel_booking api n q now fails b s).1.store.bookings
                    ≡ update booking_id i (set_status now Data.BookingStatus.cancelled)
                        s.store.bookings)
                  (find_unique-id booking_id id s.store.bookings o.0) c.1,
            ))
        tt r
