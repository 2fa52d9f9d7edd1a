-- ===== src/Orders/Data.antt =====
-- The tables of prisma/schema.prisma that hold bookings and payments. Ids of rows are natural
-- numbers, ids of Stripe are texts, amounts of money are cents and instants are milliseconds.
use Prim.Native.String.{String}
use text.Mathlib.Text.{◌==◌ as str_eq}
use seatwaves_backend.Common.{
  ℕ, Bool, true, false, List, [], ◌∷◌, Option, none, some, if◌then◌else◌, ◌==◌,
}

pub data BookingStatus : Type 0 where
  pending confirmed shipped delivered cancelled expired refunded : BookingStatus

pub data TransactionStatus : Type 0 where
  pending processing success failed rejected cancelled : TransactionStatus
  partially_refunded fully_refunded disputed : TransactionStatus

pub data TransactionType : Type 0 where
  booking_payment coupon_purchase seller_payout admin_commission booking_refund coupon_refund :
      TransactionType
  manual_deposit manual_withdrawal adjustment : TransactionType

pub data Currency : Type 0 where
  usd eur gbp : Currency

pub data Json : Type 0 where
  null : Json
  string : String → Json
  number : ℕ → Json

abbrev pub Metadata : Type 0
Metadata = List (String × Json)

-- The object literal `{ ...m, k: v }`.
abbrev pub put : String → Json → Metadata → Metadata
put k v [] = (k, v) ∷ []
put k v ((j, w) ∷ m) = if str_eq j k then (k, v) ∷ m else (j, w) ∷ put k v m

-- A key whose value is `undefined` is not stored.
abbrev pub drop_key : String → Metadata → Metadata
drop_key k [] = []
drop_key k ((j, w) ∷ m) = if str_eq j k then drop_key k m else (j, w) ∷ drop_key k m

abbrev pub put_defined : String → Option Json → Metadata → Metadata
put_defined k none m = drop_key k m
put_defined k (some v) m = put k v m

abbrev pub json_of : Option String → Json
json_of none = null
json_of (some s) = string s

pub record Transaction : Type 0 where
  pub id : ℕ
  pub type : TransactionType
  pub status : TransactionStatus
  pub amount : ℕ
  pub currency : Currency
  pub payer_id : Option ℕ
  pub payee_id : Option ℕ
  pub booking_id : Option ℕ
  pub event_id : Option ℕ
  pub stripe_payment_intent : Option String
  pub stripe_transfer_id : Option String
  pub stripe_account_id : Option String
  pub stripe_charge_id : Option String
  pub platform_fee : Option ℕ
  pub seller_amount : Option ℕ
  pub external_txn_id : Option String
  pub parent_transaction_id : Option ℕ
  pub metadata : Metadata
  pub processed_at : Option ℕ
  pub settled_at : Option ℕ
  pub created_at : ℕ

pub record Booking : Type 0 where
  pub id : ℕ
  pub user_id : ℕ
  pub ticket_id : ℕ
  pub total : ℕ
  pub status : BookingStatus
  pub updated_at : ℕ
  pub deleted_at : Option ℕ

pub record Ticket : Type 0 where
  pub id : ℕ
  pub event_id : ℕ
  pub seller_id : ℕ
  pub is_booked : Bool

pub record User : Type 0 where
  pub id : ℕ
  pub email : String
  pub stripe_account_id : Option String

abbrev pub transaction_id : Transaction → ℕ
transaction_id t = t.id

abbrev pub booking_id : Booking → ℕ
booking_id b = b.id

abbrev pub ticket_id : Ticket → ℕ
ticket_id t = t.id

abbrev pub user_id : User → ℕ
user_id u = u.id

-- `===` on texts that may be null; a filter by `undefined` is no filter, and is written out where
-- the source has one.
abbrev pub same_text : Option String → Option String → Bool
same_text none none = true
same_text (some a) (some b) = str_eq a b
same_text _ _ = false

abbrev pub type_code : TransactionType → ℕ
type_code booking_payment = 0
type_code coupon_purchase = 1
type_code seller_payout = 2
type_code admin_commission = 3
type_code booking_refund = 4
type_code coupon_refund = 5
type_code manual_deposit = 6
type_code manual_withdrawal = 7
type_code adjustment = 8

abbrev pub is_type : TransactionType → Transaction → Bool
is_type k t = type_code t.type == type_code k

abbrev pub is_success : TransactionStatus → Bool
is_success success = true
is_success _ = false

abbrev pub is_pending : BookingStatus → Bool
is_pending BookingStatus.pending = true
is_pending _ = false
