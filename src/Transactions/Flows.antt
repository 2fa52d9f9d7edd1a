-- ===== src/Transactions/Flows.antt =====
-- `TransactionService`: payments of bookings, payouts and refunds.
use Prim.Native.String.{String}
use seatwaves_backend.Common.{
  ℕ, zero, suc, keep, Bool, true, false, not, ◌&&◌, ◌||◌, List, [], ◌∷◌, Option, none, some,
  if◌then◌else◌, same_id, bad_request, not_found, failure, Action, pure, gets, or_throw,
  transactional, ◌>>=◌, ◌>>◌,
}
use seatwaves_backend.Orders.Data.{
  booking_payment, seller_payout, admin_commission, booking_refund, coupon_refund, success, usd,
}
use seatwaves_backend.Transactions.Data.{
  Money, stripe_connect, Booking, Terms, Transaction, Books, find_booking, find_row,
}
use seatwaves_backend.Transactions.Service.{is_payment, insert_row}

-- The row at a position, or the last one.
abbrev pub row_at : {R : Type 0} → ℕ → List R → Option R
row_at pick [] = none
row_at pick (r ∷ []) = some r
row_at zero (r ∷ t) = some r
row_at (suc pick) (r ∷ x ∷ t) = row_at pick (x ∷ t)

module _ (m : Money) where
  abbrev State : Type 0
  State = Books m.Decimal

  abbrev pub fee : m.Number → m.Number → m.Number
  fee amount percentage = m.over (m.times amount percentage) m.hundred

  abbrev pub payment_terms : Booking → m.Number → m.Number → String → ℕ → Terms m.Decimal
  payment_terms b amount percentage intent customer = record {
    type = booking_payment;
    amount = m.decimal amount;
    currency = usd;
    provider = stripe_connect;
    payer_id = some customer;
    payee_id = none;
    booking_id = some b.id;
    event_id = some b.event_id;
    stripe_payment_intent = some intent;
    stripe_transfer_id = none;
    stripe_account_id = none;
    stripe_charge_id = none;
    platform_fee = some (m.decimal (fee amount percentage));
    seller_amount = some (m.decimal (m.minus amount (fee amount percentage)));
    external_txn_id = none;
    parent_id = none;
  }

  abbrev pub commission_terms : Booking → m.Number → m.Number → ℕ → Terms m.Decimal
  commission_terms b amount percentage payment = record {
    type = admin_commission;
    amount = m.decimal (fee amount percentage);
    currency = usd;
    provider = stripe_connect;
    payer_id = none;
    payee_id = none;
    booking_id = none;
    event_id = some b.event_id;
    stripe_payment_intent = none;
    stripe_transfer_id = none;
    stripe_account_id = none;
    stripe_charge_id = none;
    platform_fee = none;
    seller_amount = none;
    external_txn_id = none;
    parent_id = some payment;
  }

  -- The amounts that the columns of the payment have no room for.
  abbrev pub is_wide_payment : m.Number → m.Number → Bool
  is_wide_payment amount percentage =
      not (m.fits amount)
      || not (m.fits (fee amount percentage))
      || not (m.fits (m.minus amount (fee amount percentage)))

  abbrev pub create_payment :
      Booking → m.Number → m.Number → String → ℕ → Action (Books m.Decimal) (Transaction m.Decimal)
  create_payment b amount percentage intent customer =
      insert_row m (is_wide_payment amount percentage)
        (payment_terms b amount percentage intent customer) success none true

  abbrev pub create_commission :
      Booking
      → m.Number
      → m.Number
      → Transaction m.Decimal
      → Action (Books m.Decimal) (Transaction m.Decimal)
  create_commission b amount percentage payment =
      insert_row m (not (m.fits (fee amount percentage)))
        (commission_terms b amount percentage payment.id) success none true
      >> pure payment

  abbrev pub pay :
      Booking → m.Number → m.Number → String → ℕ → Action (Books m.Decimal) (Transaction m.Decimal)
  pay b amount percentage intent customer =
      create_payment b amount percentage intent customer >>= create_commission b amount percentage

  -- `processBookingPayment`
  unfoldable pub process_booking_payment :
      ℕ → m.Number → m.Number → String → ℕ → Action (Books m.Decimal) (Transaction m.Decimal)
  process_booking_payment booking amount percentage intent customer = transactional (
      gets (λ (s : State). find_booking booking s.bookings) >>= λ found.
      or_throw found not_found >>= λ b. pay b amount percentage intent customer)

  abbrev pub pays_for : ℕ → Transaction m.Decimal → Bool
  pays_for booking t = is_payment t.terms.type && same_id t.terms.booking_id (some booking)

  -- `transactions: { where: { type: BOOKING_PAYMENT } }` of a booking, and the first of them. There is
  -- no `orderBy`: `pick` says which of them the database puts first.
  abbrev pub first_payment : ℕ → ℕ → List (Transaction m.Decimal) → Option (Transaction m.Decimal)
  first_payment pick booking rows = row_at pick (keep (pays_for booking) rows)

  abbrev pub payout_terms :
      Booking → Transaction m.Decimal → m.Decimal → String → String → Terms m.Decimal
  payout_terms b original amount transfer account = record {
    type = seller_payout;
    amount = amount;
    currency = usd;
    provider = stripe_connect;
    payer_id = none;
    payee_id = some b.seller_id;
    booking_id = some b.id;
    event_id = some b.event_id;
    stripe_payment_intent = none;
    stripe_transfer_id = some transfer;
    stripe_account_id = some account;
    stripe_charge_id = none;
    platform_fee = none;
    seller_amount = none;
    external_txn_id = none;
    parent_id = some original.id;
  }

  abbrev pub write_payout :
      Booking
      → String
      → String
      → Transaction m.Decimal
      → m.Decimal
      → Action (Books m.Decimal) (Transaction m.Decimal)
  write_payout b transfer account original amount =
      insert_row m false (payout_terms b original amount transfer account) success none true

  -- `booking.transactions[0].sellerAmount` throws a TypeError when the booking has no payment.
  abbrev pub pay_out :
      Booking
      → String
      → String
      → Option (Transaction m.Decimal)
      → Action (Books m.Decimal) (Transaction m.Decimal)
  pay_out b transfer account first = or_throw first failure >>= λ original.
      or_throw original.terms.seller_amount bad_request >>= write_payout b transfer account original

  -- `processHostPayout`
  unfoldable pub process_host_payout :
      ℕ → ℕ → String → String → Action (Books m.Decimal) (Transaction m.Decimal)
  process_host_payout pick booking transfer account = transactional (
      gets (λ (s : State). find_booking booking s.bookings) >>= λ found.
      or_throw found bad_request >>= λ b.
      gets (λ (s : State). first_payment pick b.id s.transactions) >>= pay_out b transfer account)

  -- The event of the booking, when there is one.
  abbrev pub event_of : Option ℕ → List Booking → Option ℕ
  event_of none bookings = none
  event_of (some i) bookings = elim (find_booking i bookings) [
    | none ↦ none
    | some b ↦ some b.event_id
  ]

  abbrev pub refund_terms :
      Transaction m.Decimal → Option ℕ → m.Number → Option String → Terms m.Decimal
  refund_terms original event amount refund = record {
    type = if is_payment original.terms.type then booking_refund else coupon_refund;
    amount = m.decimal (m.minus_abs amount);
    currency = original.terms.currency;
    provider = original.terms.provider;
    payer_id = none;
    payee_id = original.terms.payer_id;
    booking_id = original.terms.booking_id;
    event_id = event;
    stripe_payment_intent = none;
    stripe_transfer_id = none;
    stripe_account_id = none;
    stripe_charge_id = refund;
    platform_fee = none;
    seller_amount = none;
    external_txn_id = none;
    parent_id = some original.id;
  }

  abbrev pub give_back :
      m.Number
      → Option String
      → Option (Transaction m.Decimal)
      → Action (Books m.Decimal) (Transaction m.Decimal)
  give_back amount refund found = or_throw found not_found >>= λ t.
      gets (λ (s : State). event_of t.terms.booking_id s.bookings) >>= λ event.
      insert_row m (not (m.fits (m.minus_abs amount))) (refund_terms t event amount refund) success
        none true

  -- `processRefund`
  unfoldable pub process_refund :
      ℕ → m.Number → Option String → Action (Books m.Decimal) (Transaction m.Decimal)
  process_refund original amount refund =
      transactional
        (gets (λ (s : State). find_row original s.transactions) >>= give_back amount refund)
