-- ===== src/Stripe/Refund.antt =====
-- `resolvePaymentIntentId` and `processRefund` of src/stripe/stripe.service.ts.
use Prim.Native.String.{String}
use text.Mathlib.Text.{◌==◌ as str_eq, starts_with}
use seatwaves_backend.Common.{
  ℕ, ◌-◌, Bool, ◌||◌, [], ◌∷◌, map, Option, none, some, leb, if◌then◌else◌, keep, Action, Result,
  ok, err, gets, pure, ◌>>=◌, ◌>>◌, or_throw, throw_if, HttpError, bad_request, not_found,
  internal_server, failure, ◌==◌,
}
use seatwaves_backend.Database.Queries.{Queries}
use seatwaves_backend.Points.Award.{number_or, text_or}
use seatwaves_backend.Orders.Data.{Transaction, same_text, booking_refund, success, transaction_id}
use seatwaves_backend.Orders.Store.{Store}
use seatwaves_backend.Stripe.Api.{
  StripeApi, System, IntentInfo, in_transaction, rethrow, ask, request, or_error, write,
}

abbrev pub intent_or : Option (Option String) → Result String
intent_or none = err failure
intent_or (some none) = err bad_request
intent_or (some (some p)) = ok p

-- The first session of a payment link.
abbrev pub link_intent_or : Option (Option (Option String)) → Result String
link_intent_or none = err failure
link_intent_or (some none) = err bad_request
link_intent_or (some (some none)) = err bad_request
link_intent_or (some (some (some p))) = ok p

-- The last resort: an error of Stripe is swallowed.
abbrev pub intent_or_unsupported : Option (Option String) → Result String
intent_or_unsupported (some (some p)) = ok p
intent_or_unsupported _ = err bad_request

abbrev pub cap : ℕ → ℕ → ℕ
cap requested available = if leb requested available then requested else available

-- `throw error` for NotFoundException, and InternalServerErrorException for any other.
abbrev pub refund_error : HttpError → HttpError
refund_error not_found = not_found
refund_error _ = internal_server

-- The reasons that Stripe allows; any other text becomes `requested_by_customer`.
abbrev pub normalized_reason : Option String → String
normalized_reason reason =
    let r : String = text_or reason "" in
    if str_eq r "duplicate" || str_eq r "fraudulent" then r else "requested_by_customer"

module _ (api : StripeApi) where
  -- `resolvePaymentIntentId`
  unfoldable pub resolve_payment_intent_id : String → api.World → Result String
  resolve_payment_intent_id id w =
      if str_eq id ""
      then err bad_request
      else if starts_with id "pi_"
      then ok id
      else if starts_with id "cs_"
      then intent_or (api.retrieve_session id w)
      else if starts_with id "plink_"
      then link_intent_or (api.list_sessions id w)
      else intent_or_unsupported (api.retrieve_session id w)

  -- The refundable cents: of the charge what is not refunded yet, else the amount of the intent.
  unfoldable pub max_refundable : IntentInfo → api.World → Result ℕ
  max_refundable intent w = elim intent.latest_charge [
    | none ↦ ok intent.amount
    | some charge ↦ elim (api.retrieve_charge charge w) [
      | none ↦ err failure
      | some info ↦ ok (info.amount - info.amount_refunded)
    ]
  ]

  module _ (n : Type 0) (q : Queries) (now : ℕ) where
    -- The refund transaction of an original one.
    abbrev pub refund_row : Transaction → Option String → String → ℕ → ℕ → Transaction
    refund_row t charge refund cents i = record {
      id = i;
      type = booking_refund;
      status = success;
      amount = cents;
      currency = t.currency;
      payer_id = t.payee_id;
      payee_id = t.payer_id;
      booking_id = none;
      event_id = none;
      stripe_payment_intent = none;
      stripe_transfer_id = none;
      stripe_account_id = none;
      stripe_charge_id = charge;
      platform_fee = none;
      seller_amount = none;
      external_txn_id = some refund;
      parent_transaction_id = some t.id;
      metadata = [];
      processed_at = some now;
      settled_at = some now;
      created_at = now;
    }

    -- The row is created unless the refund is already stored.
    unfoldable pub store_refund : Transaction → Option String → String → ℕ → Store n → Store n
    store_refund t charge refund cents s =
        elim (q.first Transaction
          (keep (λ r. same_text r.external_txn_id (some refund)) s.transactions)) [
            | some _ ↦ s
            | none ↦ record s {
              transactions =
                  refund_row t charge refund cents (q.fresh_id (map transaction_id s.transactions))
                  ∷ s.transactions;
            }
          ]

    abbrev pub paid_by : String → String → Transaction → Bool
    paid_by resolved identifier t =
        same_text t.stripe_payment_intent (some resolved)
        || same_text t.stripe_payment_intent (some identifier)

    -- The end of `processRefund`: the id of the refund and the cents that Stripe was asked for.
    unfoldable pub issue_refund :
        String
        → Option ℕ
        → Option String
        → Transaction
        → IntentInfo
        → ℕ
        → Action (System n api.World) (String × ℕ)
    unfolding store_refund
    issue_refund resolved refund_amount reason t intent available = do
      let cents = cap (number_or refund_amount available) available
      throw_if (cents == 0) bad_request
      refund ← request (api.create_refund resolved cents (normalized_reason reason)) failure
      write (store_refund t intent.latest_charge refund cents)
      pure (refund, cents)

    -- What `processRefund` does with the transaction it found.
    unfoldable pub refund_transaction :
        String → Option ℕ → Option String → Transaction → Action (System n api.World) (String × ℕ)
    unfolding max_refundable issue_refund
    refund_transaction resolved refund_amount reason t = do
      intent ← ask (λ w. or_error (api.retrieve_intent resolved w) failure)
      available ← ask (max_refundable intent)
      issue_refund resolved refund_amount reason t intent available

    -- The callback of the database transaction in `processRefund`.
    unfoldable pub refund_identified :
        String → Option ℕ → Option String → Action (System n api.World) (String × ℕ)
    unfolding resolve_payment_intent_id refund_transaction
    refund_identified identifier refund_amount reason = do
      resolved ← ask (resolve_payment_intent_id identifier)
      rows ← gets (λ s. s.store.transactions)
      t ← or_throw (q.first Transaction (keep (paid_by resolved identifier) rows)) not_found
      refund_transaction resolved refund_amount reason t

    -- `processRefund`
    unfoldable pub process_refund :
        String → Option ℕ → Option String → Action (System n api.World) (String × ℕ)
    unfolding refund_identified
    process_refund identifier refund_amount reason =
        in_transaction (rethrow refund_error (refund_identified identifier refund_amount reason))
