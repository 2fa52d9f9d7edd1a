-- ===== src/Webhook/Tests.antt =====
-- Runs of the webhook service, and its theorems at concrete inputs.
use seatwaves_backend.Common.{ℕ, ◌≡◌, refl, List, [], ◌∷◌, none, some, ok, err, not_found}
use seatwaves_backend.Common.Int.{◌*ℤ◌}
use seatwaves_backend.Database.Table.{find_unique, update}
use seatwaves_backend.Database.Queries.{in_order}
use seatwaves_backend.Orders.Data.{Transaction, Booking, confirmed, booking_id}
use seatwaves_backend.Orders.Data
use seatwaves_backend.Orders.Store.{Store}
use seatwaves_backend.Points.Award.{award_points}
use seatwaves_backend.Points.Tests.{hundredths, short_months}
use seatwaves_backend.Bookings.Tests.{payment, stay, seat, shop}
use seatwaves_backend.Webhook.Event.{
  Session, Event, checkout_session_completed, checkout_session_expired,
}
use seatwaves_backend.Webhook.Handlers.{handle_checkout_session_completed}
use seatwaves_backend.Webhook.Job.{dispatch, process_webhook_job, enqueue_webhook_event}
use seatwaves_backend.Webhook.Laws.Job.{process_webhook_job-idempotent}
use seatwaves_backend.Webhook.Laws.Payments.{dispatch-KeepsSettled}
use seatwaves_backend.Webhook.Laws.Checkout.{
  Records, handle_checkout_session_completed-Records, handle_checkout_session_completed-throws,
}

abbrev checkout : Session
checkout = record { id = "cs_1"; payment_intent = some "pi_1"; customer = none }

abbrev paid : Event
paid = record {
  id = 90;
  type = "checkout.session.completed";
  payload = checkout_session_completed checkout;
}

abbrev pending_shop : Store ℕ
pending_shop = shop Data.BookingStatus.pending

-- A loyalty program without rules.
abbrev unruled_shop : Store ℕ
unruled_shop = record pending_shop { loyalty = record pending_shop.loyalty { rules = [] } }

-- The queue.
abbrev push : List Event → Event → List Event
push queue e = e ∷ queue

process_webhook_job-idempotent_example :
    (process_webhook_job hundredths short_months in_order 70 paid
        (process_webhook_job hundredths short_months in_order 60 paid pending_shop).1
      ≡ (ok tt, (process_webhook_job hundredths short_months in_order 60 paid pending_shop).1))
    × (enqueue_webhook_event hundredths short_months in_order push paid
          ((process_webhook_job hundredths short_months in_order 60 paid pending_shop).1, [])
        ≡ ((process_webhook_job hundredths short_months in_order 60 paid pending_shop).1, []))
unfolding process_webhook_job find_unique update award_points handle_checkout_session_completed ◌*ℤ◌
process_webhook_job-idempotent_example =
    process_webhook_job-idempotent hundredths short_months in_order 60 70 paid pending_shop push []
      refl

dispatch-KeepsSettled_example :
    find_unique booking_id 1
      (dispatch hundredths short_months in_order 60
        (checkout_session_expired checkout)
        (shop confirmed)).1.bookings
    ≡ some (stay confirmed)
unfolding find_unique
dispatch-KeepsSettled_example =
    dispatch-KeepsSettled hundredths short_months in_order 60 (checkout_session_expired checkout)
      (shop confirmed) tt 1 (stay confirmed) refl refl

handle_checkout_session_completed-Records_example :
    Records hundredths short_months in_order 60 payment payment
      (stay Data.BookingStatus.pending)
      seat
      (handle_checkout_session_completed hundredths short_months in_order 60 checkout
        pending_shop).1
unfolding handle_checkout_session_completed find_unique update award_points ◌*ℤ◌
handle_checkout_session_completed-Records_example =
    handle_checkout_session_completed-Records hundredths short_months in_order 60 checkout payment
      payment (stay Data.BookingStatus.pending) seat pending_shop refl refl refl refl refl

handle_checkout_session_completed-throws_example :
    handle_checkout_session_completed hundredths short_months in_order 60 checkout unruled_shop
    ≡ (err not_found, unruled_shop)
unfolding find_unique
handle_checkout_session_completed-throws_example =
    handle_checkout_session_completed-throws hundredths short_months in_order 60 checkout payment
      unruled_shop 7 8 (stay Data.BookingStatus.pending) refl refl refl refl refl
