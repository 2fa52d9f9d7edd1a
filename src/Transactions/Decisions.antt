-- ===== src/Transactions/Decisions.antt =====
-- `TransactionService`: what the administration decides of a row.
use Prim.Native.String.{String}
use seatwaves_backend.Common.{ℕ, some, failure, Action, gets, or_throw, modify, pure, ◌>>=◌, ◌>>◌}
use seatwaves_backend.Orders.Data.{success, rejected}
use seatwaves_backend.Transactions.Data.{Money, Transaction, Books, find_row, find_customer}
use seatwaves_backend.Transactions.Service.{write_row}

module _ (m : Money) where
  abbrev State : Type 0
  State = Books m.Decimal

  abbrev pub approve : ℕ → ℕ → Transaction m.Decimal → Transaction m.Decimal
  approve admin now t = record t {
    status = success;
    approved_by_id = some admin;
    approved_at = some now;
  }

  abbrev pub reject : ℕ → ℕ → String → Transaction m.Decimal → Transaction m.Decimal
  reject admin now reason t = record t {
    status = rejected;
    approved_by_id = some admin;
    approved_at = some now;
    notes = some reason;
  }

  -- The row and the administrator that the update names; prisma throws when there is no such row, and
  -- the foreign key of `approvedById` refuses an id of no user.
  abbrev pub look_up : ℕ → ℕ → Action (Books m.Decimal) (Unit {0})
  look_up i admin = gets (λ (s : State). find_row i s.transactions) >>= λ found.
      or_throw found failure >> gets (λ (s : State). find_customer admin s.users) >>= λ known.
      or_throw known failure >> pure tt

  -- `approveTransaction` and `rejectTransaction`, of any row.
  unfoldable pub approve_transaction : ℕ → ℕ → Action (Books m.Decimal) (Unit {0})
  approve_transaction i admin =
      look_up i admin >> modify (λ (s : State). write_row m i (approve admin s.clock) s)

  unfoldable pub reject_transaction : ℕ → ℕ → String → Action (Books m.Decimal) (Unit {0})
  reject_transaction i admin reason =
      look_up i admin >> modify (λ (s : State). write_row m i (reject admin s.clock reason) s)
