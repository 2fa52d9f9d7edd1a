-- ===== src/Webhook/Laws/Checkout.antt =====
-- `handleCheckoutSessionCompleted` of src/webhook/webhook.service.ts.
use seatwaves_backend.Common.{
  ℕ, ◌≡◌, refl, sym, ap, subst, inl, inr, ◌∙◌, true, Option, none, some, transactional, not_found,
  [], Result, ok, err, HttpError, arith, Option-cases,
}
use seatwaves_backend.Database.Table.{find_unique, update, find_unique-id, find_unique-update_self}
use seatwaves_backend.Database.Queries.{Queries}
use seatwaves_backend.Points.Data.{Numbers, Calendar, booking, PointRule, Loyalty}
use seatwaves_backend.Points.Award.{AwardParams, award_points, rules_for}
use seatwaves_backend.Orders.Data.{
  Transaction, Booking, Ticket, booking_id, ticket_id, transaction_id, success, same_text,
}
use seatwaves_backend.Orders.Store.{Store, booking_of, write_transaction}
use seatwaves_backend.Webhook.Laws.Payments.{booking_of-IsStored}
use seatwaves_backend.Webhook.Event.{Session}
use seatwaves_backend.Webhook.Handlers.{
  handle_checkout_session_completed, find_transaction, complete_transaction, reward_booking,
  confirm_booking, store_intent, complete_payment, confirm,
}

module _ (n : Numbers) (c : Calendar) (q : Queries) (now : ℕ) where
  open n use {Number}

  abbrev SameRows : Store Number → Store Number → Type 0
  SameRows s s' =
      (s'.transactions ≡ s.transactions) × (s'.bookings ≡ s.bookings) × (s'.tickets ≡ s.tickets)

  reward_booking-SameRows :
      (t : Transaction) (payer : Option ℕ) (b : Option Booking) (host : Option ℕ) (s : Store Number)
      → SameRows s (reward_booking n c q now t payer b host s).1
  reward_booking-SameRows t payer b host s = ground arith

  -- The store that `reward_booking` finds.
  abbrev recorded : Session → Transaction → Store Number → Store Number
  recorded session t s = confirm_booking n c q now (booking_of t s) (
      write_transaction t.id (complete_payment n c q now session t)
        (store_intent n c q now session t.id s))

  complete_transaction-SameRows :
      (session : Session) (t : Transaction) (s : Store Number)
      → SameRows (recorded session t s) (complete_transaction n c q now session t s).1
  unfolding complete_transaction
  complete_transaction-SameRows session t s =
      reward_booking-SameRows t t.payer_id (booking_of t s) t.payee_id (recorded session t s)

  confirm_booking-transactions :
      (o : Option Booking) (s : Store Number)
      → (confirm_booking n c q now o s).transactions ≡ s.transactions
  confirm_booking-transactions none s = refl
  confirm_booking-transactions (some b) s = refl

  -- The rows of a transaction, its booking and its ticket once the payment is recorded.
  abbrev pub Records : Transaction → Transaction → Booking → Ticket → Store Number → Type 0
  Records t r b k s' =
      ((r' : Transaction) × (find_unique transaction_id t.id s'.transactions ≡ some r')
        × (r'.status ≡ success)
        × (r'.amount ≡ r.amount))
      × (find_unique booking_id b.id s'.bookings ≡ some (confirm n c q now b))
      × (find_unique ticket_id b.ticket_id s'.tickets ≡ some (record k { is_booked = true }))

  store_intent-row :
      (session : Session) (i : ℕ) (s : Store Number) (r : Transaction)
      → find_unique transaction_id i s.transactions ≡ some r
      → (r' : Transaction) × (find_unique transaction_id i
            (store_intent n c q now session i s).transactions
          ≡ some r')
        × (r'.amount ≡ r.amount)
  store_intent-row session i s r h = elim (Option-cases session.payment_intent) [
    | inl f ↦ rw f (r, h, refl)
    | inr (p, f) ↦ rw f (
      record r { stripe_payment_intent = some p },
      find_unique-update_self transaction_id i (λ r. record r { stripe_payment_intent = some p })
          s.transactions h (find_unique-id transaction_id i s.transactions h),
      refl,
    )
  ]

  recorded-transaction :
      (session : Session) (t : Transaction) (s : Store Number) (r : Transaction)
      → find_unique transaction_id t.id s.transactions ≡ some r
      → (r' : Transaction) × (find_unique transaction_id t.id (recorded session t s).transactions
          ≡ some r')
        × (r'.status ≡ success)
        × (r'.amount ≡ r.amount)
  recorded-transaction session t s r h =
      let u = store_intent n c q now session t.id s in
      let (r1, e, a) = store_intent-row session t.id s r h in
      (
        complete_payment n c q now session t r1,
        ap (find_unique transaction_id t.id) (
              confirm_booking-transactions (booking_of t s)
                (write_transaction t.id (complete_payment n c q now session t) u))
            ∙ find_unique-update_self transaction_id t.id (complete_payment n c q now session t)
                u.transactions e (find_unique-id transaction_id t.id u.transactions e),
        refl,
        a,
      )

  store_intent-bookings :
      (session : Session) (i : ℕ) (s : Store Number)
      → ((store_intent n c q now session i s).bookings ≡ s.bookings)
        × ((store_intent n c q now session i s).tickets ≡ s.tickets)
  store_intent-bookings session i s = ground arith

  recorded-booking :
      (session : Session) (t : Transaction) (s : Store Number) (b : Booking) (k : Ticket)
      → booking_of t s ≡ some b
      → find_unique ticket_id b.ticket_id s.tickets ≡ some k
      → (find_unique booking_id b.id (recorded session t s).bookings ≡ some (confirm n c q now b))
        × (find_unique ticket_id b.ticket_id (recorded session t s).tickets
            ≡ some (record k { is_booked = true }))
  recorded-booking session t s b k f h =
      let p = store_intent-bookings session t.id s in
      rw f (
        ap (λ rows. find_unique booking_id b.id (update booking_id b.id (confirm n c q now) rows))
              p.0
            ∙ find_unique-update_self booking_id b.id (confirm n c q now) s.bookings
                (booking_of-IsStored n c q now t s b f) refl,
        ap
              (λ rows.
                find_unique ticket_id b.ticket_id
                  (update ticket_id b.ticket_id (λ r. record r { is_booked = true }) rows))
              p.1
            ∙ find_unique-update_self ticket_id b.ticket_id (λ r. record r { is_booked = true })
                s.tickets h (find_unique-id ticket_id b.ticket_id s.tickets h),
      )

  complete_transaction-Records :
      (session : Session) (t r : Transaction) (b : Booking) (k : Ticket) (s : Store Number)
      → find_unique transaction_id t.id s.transactions ≡ some r
      → booking_of t s ≡ some b
      → find_unique ticket_id b.ticket_id s.tickets ≡ some k
      → Records t r b k (complete_transaction n c q now session t s).1
  complete_transaction-Records session t r b k s hr hb hk =
      let p = complete_transaction-SameRows session t s in
      let (r', e, status, amount) = recorded-transaction session t s r hr in
      let f = recorded-booking session t s b k hb hk in
      (
        (r', ap (find_unique transaction_id t.id) p.0 ∙ e, status, amount),
        ap (find_unique booking_id b.id) p.1 ∙ f.0,
        ap (find_unique ticket_id b.ticket_id) p.2 ∙ f.1,
      )

  transactional_lem :
      (r : Result (Unit {0}) × Store Number) (s : Store Number)
      → (transactional (λ _. r) s).0 ≡ ok tt
      → (transactional (λ _. r) s).1 ≡ r.1
  transactional_lem (ok a, u) s h = refl
  transactional_lem (err x, u) s h = ground arith

  -- When the handler of a completed checkout returns and the session's transaction is `t`, with a
  -- row `r`, a booking `b` and a ticket `k`, then the row is SUCCESS with its amount unchanged, the
  -- booking is CONFIRMED and the ticket is booked.
  pub handle_checkout_session_completed-Records :
      (session : Session) (t r : Transaction) (b : Booking) (k : Ticket) (s : Store Number)
      → find_transaction n c q now (λ t. same_text t.external_txn_id (some session.id)) s ≡ some t
      → find_unique transaction_id t.id s.transactions ≡ some r
      → booking_of t s ≡ some b
      → find_unique ticket_id b.ticket_id s.tickets ≡ some k
      → (handle_checkout_session_completed n c q now session s).0 ≡ ok tt
      → Records t r b k (handle_checkout_session_completed n c q now session s).1
  unfolding handle_checkout_session_completed
  handle_checkout_session_completed-Records session t r b k s f hr hb hk h =
      rw (f, handle_checkout_session_completed)
        (subst (Records t r b k)
          (sym (
            transactional_lem (complete_transaction n c q now session t s) s
              (rw (f, handle_checkout_session_completed) at h)))
          (complete_transaction-Records session t r b k s hr hb hk))

  -- The points that a booking's payer gets for a transaction.
  abbrev pub reward_params : Transaction → ℕ → ℕ → AwardParams
  reward_params t payer id = record {
    user_id = payer;
    action = booking;
    amount_cents = some t.amount;
    referenced_id = some id;
    reason = some "Booking confirmed";
  }

  recorded-loyalty :
      (session : Session) (t : Transaction) (s : Store Number)
      → (recorded session t s).loyalty ≡ s.loyalty
  recorded-loyalty session t s = ground arith

  award_points-no_rule :
      (params : AwardParams) (l : Loyalty Number)
      → rules_for n c q params.action l.rules ≡ []
      → (award_points n c q params now l).0 ≡ err not_found
  unfolding award_points
  award_points-no_rule params l h =
      ground (arith, h, ap (q.first (PointRule Number)) h, q.first-nil (PointRule Number))

  reward_booking-throws :
      (t : Transaction) (payer host : Option ℕ) (o : Option Booking) (s : Store Number) (p k : ℕ)
      (b : Booking)
      → payer ≡ some p
      → host ≡ some k
      → o ≡ some b
      → (award_points n c q (reward_params t p b.id) now s.loyalty).0 ≡ err not_found
      → (reward_booking n c q now t payer o host s).0 ≡ err not_found
  reward_booking-throws t payer host o s p k b e f g h = rw (e, f, g) (ground arith)

  complete_transaction-throws :
      (session : Session) (t : Transaction) (s : Store Number) (payer host : ℕ) (b : Booking)
      → t.payer_id ≡ some payer
      → t.payee_id ≡ some host
      → booking_of t s ≡ some b
      → rules_for n c q booking s.loyalty.rules ≡ []
      → (complete_transaction n c q now session t s).0 ≡ err not_found
  unfolding complete_transaction
  complete_transaction-throws session t s payer host b p h e r =
      reward_booking-throws t t.payer_id t.payee_id (booking_of t s) (recorded session t s) payer
        host b p h e
        (award_points-no_rule (reward_params t payer b.id) (recorded session t s).loyalty
          (ap (λ l. rules_for n c q booking l.rules) (recorded-loyalty session t s) ∙ r))

  transactional-throws :
      (r : Result (Unit {0}) × Store Number) (s : Store Number) (x : HttpError)
      → r.0 ≡ err x
      → transactional (λ _. r) s ≡ (err x, s)
  transactional-throws r s x h = rw h refl

  -- With no active rule for BOOKING the points service throws, and that undoes a completed
  -- checkout: the handler throws `not_found`, and the paid transaction, its booking and its ticket
  -- stay as they were.
  pub handle_checkout_session_completed-throws :
      (session : Session) (t : Transaction) (s : Store Number) (payer host : ℕ) (b : Booking)
      → find_transaction n c q now (λ t. same_text t.external_txn_id (some session.id)) s ≡ some t
      → t.payer_id ≡ some payer
      → t.payee_id ≡ some host
      → booking_of t s ≡ some b
      → rules_for n c q booking s.loyalty.rules ≡ []
      → handle_checkout_session_completed n c q now session s ≡ (err not_found, s)
  unfolding handle_checkout_session_completed
  handle_checkout_session_completed-throws session t s payer host b f p h e r =
      rw (f, handle_checkout_session_completed)
        (transactional-throws (complete_transaction n c q now session t s) s not_found
          (complete_transaction-throws session t s payer host b p h e r))
