-- ===== src/Webhook/Event.antt =====
-- What the handlers read of Stripe's objects. An id that Stripe may leave null is an `Option`.
use Prim.Native.String.{String}
use seatwaves_backend.Common.{ℕ, List, Option}

pub record Session : Type 0 where
  pub id : String
  pub payment_intent : Option String
  pub customer : Option String

pub record PaymentIntent : Type 0 where
  pub id : String
  pub latest_charge : Option String
  pub transfer_group : Option String
  pub payment_method : Option String
  pub receipt_email : Option String
  pub last_payment_error : Option String
  pub cancellation_reason : Option String

pub record Transfer : Type 0 where
  pub id : String
  pub amount : ℕ
  pub currency : String
  -- `(transfer.currency || 'usd').toUpperCase()`
  pub upper_currency : String
  -- none also for an empty text
  pub description : Option String
  pub destination : Option String
  pub source_transaction : Option String
  pub transfer_group : Option String

pub record ApplicationFee : Type 0 where
  pub id : String
  pub amount : ℕ
  -- `(fee.currency || 'usd').toUpperCase()`
  pub upper_currency : String
  pub charge : Option String
  pub application : Option String
  pub account : Option String

pub record Refund : Type 0 where
  pub id : String
  pub amount : ℕ
  pub reason : Option String
  pub status : Option String

pub record Charge : Type 0 where
  pub id : String
  pub amount : ℕ
  pub amount_refunded : ℕ
  pub refunds : List Refund

-- `event.type` with `event.data.object`.
pub data Payload : Type 0 where
  checkout_session_completed checkout_session_expired : Session → Payload
  payment_intent_succeeded payment_intent_payment_failed payment_intent_canceled :
      PaymentIntent → Payload
  transfer_created : Transfer → Payload
  application_fee_created : ApplicationFee → Payload
  charge_refunded : Charge → Payload
  payout_paid charge_refund_updated unhandled : Payload

pub record Event : Type 0 where
  pub id : ℕ
  pub type : String
  pub payload : Payload
