-- ===== src/Bookings/Laws/Status.antt =====
-- The changes of a booking's status by the administration and by the seller.
use seatwaves_backend.Common.{
  ℕ, ◌≡◌, refl, inl, inr, Bool, ◌||◌, Option, none, some, ◌==◌, if◌then◌else◌, arith, Result, ok,
  err, not_found, forbidden, unauthorized, failure, is_some, Option-cases, Bool-cases,
}
use seatwaves_backend.Database.Table.{find_unique, find_unique-update}
use seatwaves_backend.Orders.Data.{Booking, BookingStatus, Ticket, booking_id, ticket_id}
use seatwaves_backend.Orders.Store.{Store}
use seatwaves_backend.Bookings.Status.{
  is_cancelled, is_delivered, set_status, update_status, update_seller_status,
}

abbrev pub is_final : BookingStatus → Bool
is_final status = is_cancelled status || is_delivered status

module _ {Number : Type 0} where
  abbrev pub status_at : ℕ → Store Number → Option Booking
  status_at id s = find_unique booking_id id s.bookings

  -- What `updateStatus` may answer, and what it leaves behind.
  abbrev pub Updates :
      ℕ
      → ℕ
      → BookingStatus
      → Store Number
      → Option Booking
      → Result (Unit {0}) × Store Number
      → Type 0
  Updates now id status s none r = r ≡ (err not_found, s)
  Updates now id status s (some b) r =
      if is_final b.status
      then r ≡ (err forbidden, s)
      else (r.0 ≡ ok tt)
        × ((j : ℕ)
            → status_at j r.1 ≡ (if id == j then some (set_status now status b) else status_at j s))

  -- `updateStatus` refuses a missing booking and one that is CANCELLED or DELIVERED, and changes
  -- nothing then; otherwise it gives that booking the status and leaves every other booking alone.
  pub update_status-Updates :
      (now id : ℕ) (status : BookingStatus) (s : Store Number)
      → Updates now id status s (status_at id s) (update_status now id status s)
  unfolding update_status
  update_status-Updates now id status s = elim (Option-cases (status_at id s)) [
    | inl e ↦ rw e refl
    | inr (b, e) ↦ rw e (elim (Bool-cases (is_final b.status)) [
      | inl f ↦ rw f refl
      | inr f ↦ rw f (
        refl,
        λ j. ground (
          arith,
          find_unique-update booking_id id j (set_status now status) s.bookings (λ r. refl),
        ),
      )
    ])
  ]

  -- What `updateSellerStatus` does with a booking, by its ticket.
  abbrev pub Sells :
      ℕ
      → ℕ
      → BookingStatus
      → ℕ
      → Booking
      → Store Number
      → Option Ticket
      → Result (Unit {0}) × Store Number
      → Type 0
  Sells now id status seller b s none r = r ≡ (err failure, s)
  Sells now id status seller b s (some t) r =
      if seller == t.seller_id
      then (r.0 ≡ ok tt)
        × ((j : ℕ)
            → status_at j r.1 ≡ (if id == j then some (set_status now status b) else status_at j s))
      else r ≡ (err unauthorized, s)

  -- What `updateSellerStatus` does, by the booking.
  abbrev pub UpdatesForSeller :
      ℕ
      → ℕ
      → BookingStatus
      → ℕ
      → Store Number
      → Option Booking
      → Result (Unit {0}) × Store Number
      → Type 0
  UpdatesForSeller now id status seller s none r = r ≡ (err not_found, s)
  UpdatesForSeller now id status seller s (some b) r =
      if is_some b.deleted_at
      then r ≡ (err not_found, s)
      else Sells now id status seller b s (find_unique ticket_id b.ticket_id s.tickets) r

  -- `updateSellerStatus` throws not_found for a booking that is missing or deleted, fails for one
  -- without a ticket, throws unauthorized to everyone but the seller of the ticket, and changes
  -- nothing then. Otherwise, whatever the status of the booking is, CANCELLED and DELIVERED
  -- included, it gives that booking the new status and leaves every other booking alone.
  pub update_seller_status-Updates :
      (now id : ℕ) (status : BookingStatus) (seller : ℕ) (s : Store Number)
      → UpdatesForSeller now id status seller s
          (status_at id s)
          (update_seller_status now id status seller s)
  unfolding update_seller_status
  update_seller_status-Updates now id status seller s = elim (Option-cases (status_at id s)) [
    | inl e ↦ rw e refl
    | inr (b, e) ↦ rw e (elim (Bool-cases (is_some b.deleted_at)) [
      | inl d ↦ rw d refl
      | inr d ↦ rw d (elim (Option-cases (find_unique ticket_id b.ticket_id s.tickets)) [
        | inl k ↦ rw k refl
        | inr (t, k) ↦ rw k (elim (Bool-cases (seller == t.seller_id)) [
          | inl h ↦ rw h (
            refl,
            λ j. ground (
              arith,
              find_unique-update booking_id id j (set_status now status) s.bookings (λ r. refl),
            ),
          )
          | inr h ↦ rw h refl
        ])
      ])
    ])
  ]
