-- ===== src/Bookings/Tests.antt =====
-- Runs of the booking service, and its theorems at concrete inputs.
use seatwaves_backend.Common.{
  ℕ, ◌≡◌, refl, ◌+◌, ◌<◌, true, false, [], ◌∷◌, none, some, arith, length, All, internal_server,
  failure,
}
use seatwaves_backend.Database.Table.{find_unique, update}
use seatwaves_backend.Database.Queries.{in_order}
use seatwaves_backend.Orders.Data.{
  Transaction, Booking, Ticket, User, confirmed, delivered, booking_payment, usd, success,
  BookingStatus,
}
use seatwaves_backend.Orders.Data
use seatwaves_backend.Orders.Store.{Store}
use seatwaves_backend.Points.Tests.{sample}
use seatwaves_backend.Stripe.Api.{StripeApi, System}
use seatwaves_backend.Bookings.Status.{update_status, update_seller_status}
use seatwaves_backend.Bookings.Cancel.{cancel_by_guest, latest_payment}
use seatwaves_backend.Stripe.Refund.{process_refund}
use seatwaves_backend.Bookings.Verify.{verify_booking_code}
use seatwaves_backend.Bookings.Code.{generate_mixed_otp}
use seatwaves_backend.Bookings.Laws.Status.{
  Updates, status_at, update_status-Updates, UpdatesForSeller, update_seller_status-Updates,
}
use seatwaves_backend.Bookings.Laws.Cancel.{
  Cancels, cancel_by_guest-Cancels, Leaves, cancel_by_guest-Leaves,
}
use seatwaves_backend.Bookings.Laws.Verify.{
  Delivers, verify_booking_code-Delivers, verify_booking_code-RollsBack,
}
use seatwaves_backend.Bookings.Laws.Code.{IsCodeChar, generate_mixed_otp-IsText}

-- A Stripe that knows one payment of 5000 cents; its state counts the calls that change it.
abbrev counting : StripeApi
counting = record {
  World = ℕ;
  retrieve_session = λ id w. none;
  list_sessions = λ id w. none;
  retrieve_intent = λ id w. some (record { latest_charge = some "ch_1"; amount = 5000 });
  retrieve_charge = λ id w. some (record { amount = 5000; amount_refunded = 0 });
  create_refund = λ id cents reason w. some ("re_1", w + 1);
  create_transfer = λ cents account w. some ("tr_1", w + 1);
  create_reversal = λ transfer cents w. some (w + 1);
}

-- A Stripe that refuses every refund and transfer.
abbrev refusing : StripeApi
refusing = record {
  World = ℕ;
  retrieve_session = λ id w. none;
  list_sessions = λ id w. none;
  retrieve_intent = λ id w. some (record { latest_charge = some "ch_1"; amount = 5000 });
  retrieve_charge = λ id w. some (record { amount = 5000; amount_refunded = 0 });
  create_refund = λ id cents reason w. none;
  create_transfer = λ cents account w. none;
  create_reversal = λ transfer cents w. none;
}

abbrev pub payment : Transaction
payment = record {
  id = 30;
  type = booking_payment;
  status = success;
  amount = 5000;
  currency = usd;
  payer_id = some 7;
  payee_id = some 8;
  booking_id = some 1;
  event_id = some 2;
  stripe_payment_intent = some "pi_1";
  stripe_transfer_id = none;
  stripe_account_id = none;
  stripe_charge_id = none;
  platform_fee = some 500;
  seller_amount = some 4500;
  external_txn_id = some "cs_1";
  parent_transaction_id = none;
  metadata = [];
  processed_at = none;
  settled_at = none;
  created_at = 10;
}

abbrev pub stay : BookingStatus → Booking
stay status = record {
  id = 1;
  user_id = 7;
  ticket_id = 4;
  total = 5000;
  status = status;
  updated_at = 10;
  deleted_at = none;
}

abbrev pub seat : Ticket
seat = record { id = 4; event_id = 2; seller_id = 8; is_booked = true }

abbrev pub shop : BookingStatus → Store ℕ
shop status = record {
  transactions = payment ∷ [];
  bookings = stay status ∷ [];
  tickets = seat ∷ [];
  users =
      record { id = 7; email = "guest@example.com"; stripe_account_id = none }
      ∷ record { id = 8; email = "seller@example.com"; stripe_account_id = some "acct_8" }
      ∷ [];
  events = [];
  otps = record { email = "guest@example.com"; otp = "AB12CD"; expires_at = some 100 } ∷ [];
  credits = [];
  loyalty = sample;
  outbox = [];
}

abbrev open_shop : System ℕ ℕ
open_shop = record { store = shop confirmed; stripe = 0 }

abbrev closed_shop : System ℕ ℕ
closed_shop = record { store = shop Data.BookingStatus.cancelled; stripe = 0 }

update_status-Updates_example :
    Updates 50 1 delivered
      (shop confirmed)
      (status_at 1 (shop confirmed))
      (update_status 50 1 delivered (shop confirmed))
update_status-Updates_example = update_status-Updates 50 1 delivered (shop confirmed)

update_seller_status-Updates_example :
    UpdatesForSeller 50 1 confirmed 8
      (shop delivered)
      (status_at 1 (shop delivered))
      (update_seller_status 50 1 confirmed 8 (shop delivered))
update_seller_status-Updates_example =
    update_seller_status-Updates 50 1 confirmed 8 (shop delivered)

-- A cancellation asks Stripe for one refund.
cancel-open : (cancel_by_guest counting ℕ in_order 50 false 1 7 open_shop).1.stripe ≡ 1
unfolding cancel_by_guest find_unique update process_refund
cancel-open = refl

cancel_by_guest-Cancels_example :
    Cancels counting ℕ in_order 50 1 7 open_shop
      (cancel_by_guest counting ℕ in_order 50 false 1 7 open_shop).1
unfolding cancel_by_guest find_unique update process_refund
cancel_by_guest-Cancels_example =
    cancel_by_guest-Cancels counting ℕ in_order 50 false 1 7 open_shop refl

cancel_by_guest-Leaves_example :
    Leaves refusing ℕ in_order 50 false open_shop
      (cancel_by_guest refusing ℕ in_order 50 false 1 7 open_shop).1
unfolding cancel_by_guest find_unique update process_refund
cancel_by_guest-Leaves_example =
    cancel_by_guest-Leaves refusing ℕ in_order 50 false 1 7 open_shop internal_server refl

-- The database refuses the closing transaction, and the row of the refund stays.
abbrev unfinished : Store ℕ
unfinished = (cancel_by_guest counting ℕ in_order 50 true 1 7 open_shop).1.store

unfinished_run :
    (length unfinished.transactions ≡ 1 + length (shop confirmed).transactions)
    × (unfinished.bookings ≡ (shop confirmed).bookings)
unfolding cancel_by_guest find_unique update process_refund
unfinished_run = (refl, refl)

verify_booking_code-Delivers_example :
    Delivers counting ℕ in_order 50 1 closed_shop
      (verify_booking_code counting ℕ in_order 50 false 1 "AB12CD" closed_shop).1
unfolding verify_booking_code find_unique update latest_payment
verify_booking_code-Delivers_example =
    verify_booking_code-Delivers counting ℕ in_order 50 false 1 "AB12CD" closed_shop true refl

-- The transfer is made and reversed.
verify-fails : (verify_booking_code counting ℕ in_order 50 true 1 "AB12CD" open_shop).1.stripe ≡ 2
unfolding verify_booking_code find_unique update latest_payment
verify-fails = refl

verify_booking_code-RollsBack_example :
    (verify_booking_code counting ℕ in_order 50 true 1 "AB12CD" open_shop).1.store ≡ shop confirmed
unfolding verify_booking_code find_unique update latest_payment
verify_booking_code-RollsBack_example =
    verify_booking_code-RollsBack counting ℕ in_order 50 true 1 "AB12CD" open_shop failure refl

abbrev draws : ℕ → ℕ
draws i = 30

draws-lt : (j : ℕ) → draws j < 36
draws-lt j = omega arith

generate_mixed_otp-IsText_example :
    (length (generate_mixed_otp draws 6) ≡ 6) × All IsCodeChar (generate_mixed_otp draws 6)
generate_mixed_otp-IsText_example = generate_mixed_otp-IsText draws 6 draws-lt
