-- ===== src/Bookings/Status.antt =====
-- `updateStatus` and `updateSellerStatus` of src/booking/booking.service.ts.
use seatwaves_backend.Common.{
  ℕ, Bool, true, false, ◌||◌, not, Option, none, some, ◌==◌, if◌then◌else◌, gets, ◌>>=◌, ◌>>◌,
  or_throw, throw_if, modify, not_found, unauthorized, forbidden, failure, is_some,
}
use seatwaves_backend.Database.Table.{find_unique}
use seatwaves_backend.Orders.Data.{
  Booking, BookingStatus, Ticket, booking_id, ticket_id, cancelled, delivered,
}
use seatwaves_backend.Orders.Data
use seatwaves_backend.Orders.Store.{Handler, write_booking}

abbrev pub is_cancelled : BookingStatus → Bool
is_cancelled Data.BookingStatus.cancelled = true
is_cancelled _ = false

abbrev pub is_delivered : BookingStatus → Bool
is_delivered delivered = true
is_delivered _ = false

-- `updatedAt` is set by the database on every update.
abbrev pub set_status : ℕ → BookingStatus → Booking → Booking
set_status now status b = record b { status = status; updated_at = now }

-- `deletedAt: null`
abbrev pub not_deleted : Option Booking → Option Booking
not_deleted none = none
not_deleted (some b) = if is_some b.deleted_at then none else some b

module _ {Number : Type 0} (now : ℕ) where
  -- `updateStatus`, of the administration.
  unfoldable pub update_status : ℕ → BookingStatus → Handler Number
  update_status id status = do
    bookings ← gets (λ s. s.bookings)
    b ← or_throw (find_unique booking_id id bookings) not_found
    throw_if (is_cancelled b.status || is_delivered b.status) forbidden
    modify (write_booking id (set_status now status))

  -- `updateSellerStatus`
  unfoldable pub update_seller_status : ℕ → BookingStatus → ℕ → Handler Number
  update_seller_status id status seller_id = do
    bookings ← gets (λ s. s.bookings)
    b ← or_throw (not_deleted (find_unique booking_id id bookings)) not_found
    tickets ← gets (λ s. s.tickets)
    t ← or_throw (find_unique ticket_id b.ticket_id tickets) failure
    throw_if (not (seller_id == t.seller_id)) unauthorized
    modify (write_booking id (set_status now status))
