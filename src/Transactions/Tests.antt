-- ===== src/Transactions/Tests.antt =====
-- A run of the transaction service, and its theorem at a concrete input.
use seatwaves_backend.Common.{ℕ, ◌*◌, ◌/◌, ◌-◌, ◌≡◌, refl, List, [], ◌∷◌, map, none, some, ltb}
use seatwaves_backend.Database.Table.{find_unique, update}
use seatwaves_backend.Orders.Data.{
  TransactionType, booking_payment, admin_commission, seller_payout, booking_refund,
}
use seatwaves_backend.Transactions.Data.{
  Money, Transaction, Books, find_customer, find_booking, find_row,
}
use seatwaves_backend.Transactions.Service.{insert_row}
use seatwaves_backend.Transactions.Flows.{
  process_booking_payment, process_host_payout, process_refund,
}
use seatwaves_backend.Transactions.Decisions.{approve_transaction}
use seatwaves_backend.Transactions.Links.{IsSound}
use seatwaves_backend.Transactions.Calls.{
  BooksCall, pay, pay_out, refund, approve, after_call, after_all, after_all-IsSound,
}

-- Cents, and percentages that divide.
abbrev cents : Money
cents = record {
  Number = ℕ;
  Decimal = ℕ;
  hundred = 100;
  times = λ a b. a * b;
  over = λ a b. a / b;
  minus = λ a b. a - b;
  minus_abs = λ a. a;
  is_truthy = λ a. ltb 0 a;
  decimal = λ a. a;
  fits = λ a. ltb a 10_000_000_000;
}

abbrev books : Books ℕ
books = record {
  users =
      record { id = 1; stripe_customer_id = some "cus" }
      ∷ record { id = 2; stripe_customer_id = none }
      ∷ [];
  bookings = record { id = 5; event_id = 9; seller_id = 2 } ∷ [];
  events = 9 ∷ [];
  transactions = [];
  clock = 1_000;
  next_id = 30;
}

-- A payment with a fee of a tenth, the payout, a refund, a refund of nothing, and an approval.
abbrev calls : List (BooksCall cents)
calls =
    pay 5 20_000 10 "pi" 1
    ∷ pay_out 0 5 "tr" "acct"
    ∷ refund 30 500 none
    ∷ refund 77 500 none
    ∷ approve 32 1
    ∷ []

abbrev line : Transaction ℕ → TransactionType × ℕ
line t = (t.terms.type, t.terms.amount)

calls_run :
    map line (after_all cents calls books).transactions
    ≡ (booking_payment, 20_000)
      ∷ (admin_commission, 2_000)
      ∷ (seller_payout, 18_000)
      ∷ (booking_refund, 500)
      ∷ []
unfolding after_all after_call process_booking_payment process_host_payout process_refund
    approve_transaction insert_row find_customer find_booking find_row find_unique update
calls_run = refl

no_rows-IsSound : IsSound books
no_rows-IsSound = record { linked = tt; unique = tt; below = tt }

after_all-IsSound_example : IsSound (after_all cents calls books)
after_all-IsSound_example = after_all-IsSound cents calls books no_rows-IsSound
