-- ===== src/Transactions/Service.antt =====
-- `TransactionService`: what writes a row or changes one.
use Prim.Native.String.{String}
use seatwaves_backend.Common.{
  has_id, ℕ, ◌+◌, Bool, true, false, not, ◌&&◌, ◌||◌, List, [], ◌∷◌, ◌++◌, Option, none, some, ◌==◌,
  if◌then◌else◌, is_some, or_default, bad_request, not_found, failure, ok, err, Action, gets,
  or_throw, throw_if, modify, transactional, ◌>>=◌, ◌>>◌,
}
use seatwaves_backend.Database.Table.{update}
use seatwaves_backend.Orders.Data.{
  TransactionType, booking_payment, TransactionStatus, Currency, usd, Metadata, put, same_text,
  type_code, is_success,
}
use seatwaves_backend.Transactions.Data.{
  Money, Provider, Terms, Transaction, Books, find_customer, find_booking, row_id,
}

-- `{ ...old, ...new }`
abbrev pub spread : Metadata → Metadata → Metadata
spread old [] = old
spread old ((k, v) ∷ new) = spread (put k v old) new

-- A key that is null, or the key of a row.
abbrev pub points_to : Option ℕ → (ℕ → Bool) → Bool
points_to none there = true
points_to (some i) there = there i

abbrev pub is_payment : TransactionType → Bool
is_payment t = type_code t == type_code booking_payment

module _ (m : Money) where
  abbrev Row : Type 0
  Row = Transaction m.Decimal

  abbrev State : Type 0
  State = Books m.Decimal

  -- The foreign keys of a row that is written.
  abbrev pub keys_hold : Terms m.Decimal → Books m.Decimal → Bool
  keys_hold t s =
      points_to t.payer_id (λ i. is_some (find_customer i s.users))
      && points_to t.payee_id (λ i. is_some (find_customer i s.users))
      && points_to t.booking_id (λ i. is_some (find_booking i s.bookings))
      && points_to t.event_id (λ i. has_id s.events i)

  abbrev pub new_row :
      ℕ → Terms m.Decimal → TransactionStatus → Option String → Option ℕ → Transaction m.Decimal
  new_row i terms status notes processed_at = record {
    id = i;
    terms = terms;
    status = status;
    notes = notes;
    metadata = [];
    processed_at = processed_at;
    approved_by_id = none;
    approved_at = none;
  }

  abbrev pub append_row : Transaction m.Decimal → Books m.Decimal → Books m.Decimal
  append_row r s = record s { transactions = s.transactions ++ r ∷ []; next_id = s.next_id + 1 }

  -- `transaction.create`: `is_wide` says that a column has no room for an amount.
  unfoldable pub insert_row :
      Bool
      → Terms m.Decimal
      → TransactionStatus
      → Option String
      → Bool
      → Action (Books m.Decimal) (Transaction m.Decimal)
  insert_row is_wide terms status notes is_processed s =
      let r = new_row s.next_id terms status notes (if is_processed then some s.clock else none) in
      if not is_wide && keys_hold terms s then (ok r, append_row r s) else (err failure, s)

  -- `CreateTransactionDto`
  pub record CreateTransaction : Type 0 where
    pub type : TransactionType
    pub amount : m.Number
    pub currency : Option Currency
    pub provider : Provider
    pub payer_id : ℕ
    pub payee_id : ℕ
    pub booking_id : Option ℕ
    pub experience_id : Option ℕ
    pub stripe_payment_intent : Option String
    pub stripe_transfer_id : Option String
    pub stripe_account_id : Option String
    pub stripe_charge_id : Option String
    pub platform_fee : Option m.Number
    pub seller_amount : Option m.Number
    pub external_txn_id : Option String
    pub notes : Option String

  -- `x ? new Decimal(x) : null`
  abbrev pub decimal_if : Option m.Number → Option m.Decimal
  decimal_if none = none
  decimal_if (some x) = if m.is_truthy x then some (m.decimal x) else none

  abbrev pub is_wide_if : Option m.Number → Bool
  is_wide_if none = false
  is_wide_if (some x) = not (m.fits x)

  abbrev pub terms_of_dto : CreateTransaction → Terms m.Decimal
  terms_of_dto d = record {
    type = d.type;
    amount = m.decimal d.amount;
    currency = or_default d.currency usd;
    provider = d.provider;
    payer_id = some d.payer_id;
    payee_id = some d.payee_id;
    booking_id = d.booking_id;
    event_id = d.experience_id;
    stripe_payment_intent = d.stripe_payment_intent;
    stripe_transfer_id = d.stripe_transfer_id;
    stripe_account_id = d.stripe_account_id;
    stripe_charge_id = d.stripe_charge_id;
    platform_fee = decimal_if d.platform_fee;
    seller_amount = decimal_if d.seller_amount;
    external_txn_id = d.external_txn_id;
    parent_id = none;
  }

  abbrev pub is_wide_dto : CreateTransaction → Bool
  is_wide_dto d = not (m.fits d.amount) || is_wide_if d.platform_fee || is_wide_if d.seller_amount

  -- `createTransaction`
  unfoldable pub create_transaction :
      CreateTransaction → Action (Books m.Decimal) (Transaction m.Decimal)
  create_transaction d = transactional (
      gets (λ (s : State). find_customer d.payer_id s.users) >>= λ found.
      or_throw found bad_request >>= λ payer.
      throw_if (not (is_some payer.stripe_customer_id)) bad_request
      >> gets (λ (s : State). find_customer d.payee_id s.users)
      >>= λ found. or_throw found bad_request >>= λ payee.
          throw_if (not (is_some payee.stripe_customer_id)) bad_request
          >> insert_row (is_wide_dto d) (terms_of_dto d) TransactionStatus.pending d.notes false)

  -- `findFirst({ where: { stripePaymentIntent } })`
  abbrev pub find_intent : String → List (Transaction m.Decimal) → Option (Transaction m.Decimal)
  find_intent i [] = none
  find_intent i (t ∷ ts) =
      if same_text t.terms.stripe_payment_intent (some i) then some t else find_intent i ts

  abbrev pub write_row :
      ℕ → (Transaction m.Decimal → Transaction m.Decimal) → Books m.Decimal → Books m.Decimal
  write_row i f s = record s { transactions = update row_id i f s.transactions }

  abbrev pub with_status :
      TransactionStatus → Option Metadata → ℕ → Transaction m.Decimal → Transaction m.Decimal
  with_status status metadata now t = record t {
    status = status;
    processed_at = if is_success status then some now else t.processed_at;
    metadata = spread t.metadata (or_default metadata []);
  }

  -- `updateTransactionStatus`, by the payment intent of the row.
  unfoldable pub update_transaction_status :
      String → TransactionStatus → Option Metadata → Action (Books m.Decimal) (Unit {0})
  update_transaction_status intent status metadata =
      gets (λ (s : State). find_intent intent s.transactions) >>= λ found.
      or_throw found not_found >>= λ t.
      modify (λ (s : State). write_row t.id (with_status status metadata s.clock) s)
