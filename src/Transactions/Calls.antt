-- ===== src/Transactions/Calls.antt =====
-- Any sequence of calls of the transaction service.
use Prim.Native.String.{String}
use seatwaves_backend.Common.{ℕ, List, [], ◌∷◌, Option}
use seatwaves_backend.Orders.Data.{TransactionStatus, Metadata}
use seatwaves_backend.Transactions.Data.{Money, Books}
use seatwaves_backend.Transactions.Service.{
  CreateTransaction, create_transaction, update_transaction_status,
}
use seatwaves_backend.Transactions.Flows.{
  process_booking_payment, process_host_payout, process_refund,
}
use seatwaves_backend.Transactions.Decisions.{approve_transaction, reject_transaction}
use seatwaves_backend.Transactions.Links.{IsSound}
use seatwaves_backend.Transactions.Sound.{
  create_transaction-Sound, update_status-Sound, approve-Sound, reject-Sound,
}
use seatwaves_backend.Transactions.Paid.{process_booking_payment-Sound}
use seatwaves_backend.Transactions.PaidOut.{process_host_payout-Sound, process_refund-Sound}

module _ (m : Money) where
  pub data BooksCall : Type 0 where
    create : CreateTransaction m → BooksCall
    set_status : String → TransactionStatus → Option Metadata → BooksCall
    pay : ℕ → m.Number → m.Number → String → ℕ → BooksCall
    pay_out : ℕ → ℕ → String → String → BooksCall
    refund : ℕ → m.Number → Option String → BooksCall
    approve : ℕ → ℕ → BooksCall
    reject : ℕ → ℕ → String → BooksCall
    wait : ℕ → BooksCall

  -- The tables after a call, which may have thrown; time passes by itself.
  unfoldable pub after_call : BooksCall → Books m.Decimal → Books m.Decimal
  after_call (create d) s = (create_transaction m d s).1
  after_call (set_status intent status metadata) s =
      (update_transaction_status m intent status metadata s).1
  after_call (pay booking amount percentage intent customer) s =
      (process_booking_payment m booking amount percentage intent customer s).1
  after_call (pay_out pick booking transfer account) s =
      (process_host_payout m pick booking transfer account s).1
  after_call (refund original amount id) s = (process_refund m original amount id s).1
  after_call (approve i admin) s = (approve_transaction m i admin s).1
  after_call (reject i admin reason) s = (reject_transaction m i admin reason s).1
  after_call (wait now) s = record s { clock = now }

  unfoldable pub after_all : List BooksCall → Books m.Decimal → Books m.Decimal
  after_all [] s = s
  after_all (c ∷ calls) s = after_all calls (after_call c s)

  after_call-IsSound : (c : BooksCall) (s : Books m.Decimal) → IsSound s → IsSound (after_call c s)
  unfolding after_call
  after_call-IsSound (create d) s h = (create_transaction-Sound m d).keeps s h
  after_call-IsSound (set_status intent status metadata) s h =
      (update_status-Sound m intent status metadata).keeps s h
  after_call-IsSound (pay booking amount percentage intent customer) s h =
      (process_booking_payment-Sound m booking amount percentage intent customer).keeps s h
  after_call-IsSound (pay_out pick booking transfer account) s h =
      (process_host_payout-Sound m pick booking transfer account).keeps s h
  after_call-IsSound (refund original amount id) s h =
      (process_refund-Sound m original amount id).keeps s h
  after_call-IsSound (approve i admin) s h = (approve-Sound m i admin).keeps s h
  after_call-IsSound (reject i admin reason) s h = (reject-Sound m i admin reason).keeps s h
  after_call-IsSound (wait now) s h = record {
    linked = h.linked;
    unique = h.unique;
    below = h.below;
  }

  -- Under any sequence of calls, those that throw included, every row that names another one names a
  -- row that is there and fits it: a commission is the platform fee of its payment, a payout what its
  -- payment leaves to the seller of the same booking, and a refund goes to the payer of what it gives
  -- back, for the same booking, in the same currency, as a refund of a booking just when that was a
  -- payment of one; if it was so at the start, with unique ids below the next one.
  pub after_all-IsSound :
      (calls : List BooksCall) (s : Books m.Decimal) → IsSound s → IsSound (after_all calls s)
  unfolding after_all
  after_all-IsSound [] s h = h
  after_all-IsSound (c ∷ calls) s h =
      after_all-IsSound calls (after_call c s) (after_call-IsSound c s h)
