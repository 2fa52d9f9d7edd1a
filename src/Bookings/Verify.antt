-- ===== src/Bookings/Verify.antt =====
-- `verifyBookingCode` of src/booking/booking.service.ts.
use Prim.Native.String.{String}
use text.Mathlib.Text.{◌==◌ as str_eq}
use seatwaves_backend.Common.{
  ℕ, Bool, false, ◌&&◌, not, List, [], ◌∷◌, map, Option, none, some, ◌==◌, ltb, if◌then◌else◌, keep,
  Action, ok, err, gets, pure, ◌>>=◌, ◌>>◌, or_throw, throw_if, bad_request, not_found,
  internal_server, failure, is_some, or_default,
}
use seatwaves_backend.Database.Table.{find_unique}
use seatwaves_backend.Database.Queries.{Queries}
use seatwaves_backend.Orders.Data.{
  Transaction, Booking, Ticket, User, usd, seller_payout, success, delivered, booking_id, ticket_id,
  user_id, transaction_id,
}
use seatwaves_backend.Orders.Store.{
  Store, BookingOtp, AdminCredit, notification, mail, write_booking, send,
}
use seatwaves_backend.Stripe.Api.{StripeApi, System, request}
use seatwaves_backend.Bookings.Status.{is_delivered, set_status}
use seatwaves_backend.Bookings.Cancel.{latest_payment}
use seatwaves_backend.Bookings.Code.{delete_otps}

-- `otpData.expiresAt && otpData.expiresAt < new Date()`
abbrev pub is_over : ℕ → Option ℕ → Bool
is_over now none = false
is_over now (some t) = ltb t now

-- What `verifyBookingCode` reads before it writes.
pub record Delivery : Type 0 where
  pub booking : Booking
  pub guest : User
  pub ticket : Ticket
  pub seller : User
  pub account : String
  pub payment : Transaction

module _ (api : StripeApi) (n : Type 0) (q : Queries) (now : ℕ) where
  abbrev pub find_otp : String → List BookingOtp → Option BookingOtp
  find_otp email otps = q.first BookingOtp (keep (λ o. str_eq o.email email) otps)

  -- The checks of `verifyBookingCode`, in their order.
  unfoldable pub check_code : ℕ → String → Action (System n api.World) Delivery
  check_code id otp = do
    s ← gets (λ s. s.store)
    b ← or_throw (find_unique booking_id id s.bookings) not_found
    k ← or_throw (find_unique ticket_id b.ticket_id s.tickets) failure
    seller ← or_throw (find_unique user_id k.seller_id s.users) failure
    guest ← or_throw (find_unique user_id b.user_id s.users) failure
    o ← or_throw (find_otp guest.email s.otps) not_found
    throw_if (not (str_eq o.otp otp)) bad_request
    throw_if (is_over now o.expires_at) bad_request
    t ← or_throw (latest_payment q b.id s.transactions) bad_request
    account ← or_throw seller.stripe_account_id bad_request
    pure (record {
      booking = b;
      guest = guest;
      ticket = k;
      seller = seller;
      account = account;
      payment = t;
    })

  -- `createTransferRaw`, if there is an amount for the seller; the id of the transfer.
  unfoldable pub pay_seller : Delivery → Action (System n api.World) (Option String)
  pay_seller d s =
      let cents = or_default d.payment.seller_amount 0 in
      if ltb 0 cents
      then (request (api.create_transfer cents d.account) internal_server >>= λ t. pure (some t)) s
      else (ok none, s)

  -- The fee is credited once for each booking.
  abbrev pub credit_fee : Delivery → List AdminCredit → List AdminCredit
  credit_fee d credits =
      let fee = or_default d.payment.platform_fee 0 in
      if not (is_some (q.first AdminCredit (keep (λ a. a.reference == d.booking.id) credits)))
        && ltb 0 fee
      then record { amount = fee; reference = d.booking.id } ∷ credits
      else credits

  -- The SELLER_PAYOUT transaction of a transfer.
  abbrev pub payout_row : Delivery → String → ℕ → Transaction
  payout_row d transfer i = record {
    id = i;
    type = seller_payout;
    status = success;
    amount = or_default d.payment.seller_amount 0;
    currency = usd;
    payer_id = none;
    payee_id = some d.seller.id;
    booking_id = some d.booking.id;
    event_id = some d.ticket.event_id;
    stripe_payment_intent = none;
    stripe_transfer_id = some transfer;
    stripe_account_id = some d.account;
    stripe_charge_id = none;
    platform_fee = none;
    seller_amount = none;
    external_txn_id = none;
    parent_transaction_id = some d.payment.id;
    metadata = [];
    processed_at = some now;
    settled_at = none;
    created_at = now;
  }

  abbrev pub add_payout : Delivery → Option String → List Transaction → List Transaction
  add_payout d none rows = rows
  add_payout d (some transfer) rows =
      payout_row d transfer (q.fresh_id (map transaction_id rows)) ∷ rows

  abbrev pub deliver : Delivery → Store n → Store n
  deliver d s =
      if is_delivered d.booking.status
      then s
      else write_booking d.booking.id (set_status now delivered) s

  -- The database transaction.
  unfoldable pub store_delivery : Delivery → Option String → Store n → Store n
  store_delivery d transfer s =
      let s' = deliver d s in
      record s' {
        credits = credit_fee d s'.credits;
        otps = delete_otps d.guest.email s'.otps;
        transactions = add_payout d transfer s'.transactions;
      }

  -- `reverseTransfer`, whose own error is only logged.
  abbrev pub reverse : Delivery → Option String → api.World → api.World
  reverse d none w = w
  reverse d (some transfer) w =
      or_default (api.create_reversal transfer (or_default d.payment.seller_amount 0) w) w

  -- The notifications and mails to both users.
  abbrev pub tell_users : Delivery → Store n → Store n
  tell_users d s = send (mail d.seller.id "Booking Verified - Payout Initiated") (
      send (mail d.guest.id "Booking Verified Successfully") (
        send (notification d.seller.id "Booking Verified")
          (send (notification d.guest.id "Booking Verified") s)))

  -- The end of `verifyBookingCode`: `fails` says whether the database refuses the transaction.
  unfoldable pub finish_delivery :
      Bool → Delivery → Option String → Action (System n api.World) Bool
  unfolding store_delivery
  finish_delivery fails d transfer s =
      if fails then (err failure, record s { stripe = reverse d transfer s.stripe }) else (
        ok (is_some transfer),
        record s { store = tell_users d (store_delivery d transfer s.store) },
      )

  -- `verifyBookingCode`; the result says whether a payout was made.
  unfoldable pub verify_booking_code : Bool → ℕ → String → Action (System n api.World) Bool
  unfolding check_code pay_seller finish_delivery
  verify_booking_code fails id otp = do
    d ← check_code id otp
    transfer ← pay_seller d
    finish_delivery fails d transfer
