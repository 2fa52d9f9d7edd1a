-- ===== src/Transactions/Data.antt =====
-- The tables that `transaction/transaction.service.ts` uses. The texts for people (`description`) are
-- left out. A new row takes the next id of a counter.
use Prim.Native.String.{String}
use seatwaves_backend.Common.{ℕ, Bool, List, Option}
use seatwaves_backend.Database.Table.{find_unique}
use seatwaves_backend.Orders.Data.{TransactionType, TransactionStatus, Currency, Metadata}

-- JavaScript's numbers and the `Decimal` of prisma, as far as the service uses them.
pub record Money : Type 1 where
  pub Number : Type 0
  pub Decimal : Type 0
  pub hundred : Number
  pub times : Number → Number → Number
  pub over : Number → Number → Number
  pub minus : Number → Number → Number
  -- `-Math.abs(x)`
  pub minus_abs : Number → Number
  pub is_truthy : Number → Bool
  -- `new Decimal(x)`, as the column keeps it
  pub decimal : Number → Decimal
  -- the column has the digits for it
  pub fits : Number → Bool

pub data Provider : Type 0 where
  stripe stripe_connect cash wallet : Provider

pub record Customer : Type 0 where
  pub id : ℕ
  pub stripe_customer_id : Option String

-- A booking with the event of its ticket and the seller of the event.
pub record Booking : Type 0 where
  pub id : ℕ
  pub event_id : ℕ
  pub seller_id : ℕ

module _ (Decimal : Type 0) where
  -- What no later write changes.
  pub record Terms : Type 0 where
    pub type : TransactionType
    pub amount : Decimal
    pub currency : Currency
    pub provider : Provider
    pub payer_id : Option ℕ
    pub payee_id : Option ℕ
    pub booking_id : Option ℕ
    pub event_id : Option ℕ
    pub stripe_payment_intent : Option String
    pub stripe_transfer_id : Option String
    pub stripe_account_id : Option String
    pub stripe_charge_id : Option String
    pub platform_fee : Option Decimal
    pub seller_amount : Option Decimal
    pub external_txn_id : Option String
    pub parent_id : Option ℕ

  pub record Transaction : Type 0 where
    pub id : ℕ
    pub terms : Terms
    pub status : TransactionStatus
    pub notes : Option String
    pub metadata : Metadata
    pub processed_at : Option ℕ
    pub approved_by_id : Option ℕ
    pub approved_at : Option ℕ

  pub record Books : Type 0 where
    pub users : List Customer
    pub bookings : List Booking
    pub events : List ℕ
    pub transactions : List Transaction
    pub clock : ℕ
    pub next_id : ℕ

unfoldable pub find_customer : ℕ → List Customer → Option Customer
find_customer = find_unique (λ (c : Customer). c.id)

unfoldable pub find_booking : ℕ → List Booking → Option Booking
find_booking = find_unique (λ (b : Booking). b.id)

module _ {Decimal : Type 0} where
  abbrev pub row_id : Transaction Decimal → ℕ
  row_id t = t.id

  unfoldable pub find_row : ℕ → List (Transaction Decimal) → Option (Transaction Decimal)
  find_row = find_unique row_id
