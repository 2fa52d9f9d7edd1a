-- ===== src/Webhook/Transfers.antt =====
-- The handlers of fees, transfers and refunds in src/webhook/webhook.service.ts.
use Prim.Native.String.{String}
use mathlib.Core.Option
use text.Mathlib.Text.{◌==◌ as str_eq}
use seatwaves_backend.Common.{
  ℕ, Bool, false, ◌&&◌, ◌||◌, List, [], ◌∷◌, map, Option, none, some, if◌then◌else◌, keep, ◌==◌,
}
use seatwaves_backend.Database.Queries.{Queries}
use seatwaves_backend.Points.Data.{Numbers}
use seatwaves_backend.Points.Award.{text_or}
use seatwaves_backend.Orders.Data.{
  Transaction, User, Currency, usd, eur, gbp, string, number, json_of, put, put_defined, same_text,
  is_type, success, partially_refunded, fully_refunded, booking_payment, admin_commission,
  seller_payout, transaction_id, Metadata,
}
use seatwaves_backend.Orders.Store.{Store, activity, write_transaction, send}
use seatwaves_backend.Webhook.Event.{ApplicationFee, Transfer, Refund, Charge}

-- `(Currency as any)[code] ?? Currency.USD`
abbrev pub currency_of : String → Currency
currency_of c = if str_eq c "EUR" then eur else if str_eq c "GBP" then gbp else usd

-- A condition that is left out of an `OR` when there is nothing to compare with.
abbrev pub given_and : Option String → (String → Bool) → Bool
given_and none p = false
given_and (some x) p = p x

-- `x ?? now` on a date that may be null.
abbrev pub or_now : Option ℕ → ℕ → Option ℕ
or_now none now = some now
or_now (some t) now = some t

abbrev pub or_text_id : Option String → String → Option String
or_text_id none x = some x
or_text_id (some y) x = some y

abbrev pub parent_event : Option Transaction → Option ℕ
parent_event none = none
parent_event (some t) = t.event_id

abbrev pub parent_booking : Option Transaction → Option ℕ
parent_booking none = none
parent_booking (some t) = t.booking_id

module _ (n : Numbers) (q : Queries) (now : ℕ) where
  open n use {Number}

  abbrev pub first_transaction : (Transaction → Bool) → Store Number → Option Transaction
  first_transaction p s = q.first Transaction (keep p s.transactions)

  abbrev pub add_transaction : (ℕ → Transaction) → Store Number → Store Number
  add_transaction make s = record s {
    transactions = make (q.fresh_id (map transaction_id s.transactions)) ∷ s.transactions;
  }

  -- The update of a commission that is already stored.
  abbrev pub renew_commission : ApplicationFee → Transaction → Transaction → Transaction
  renew_commission fee t r = record r {
    status = success;
    processed_at = or_now t.processed_at now;
    settled_at = or_now t.settled_at now;
    metadata =
        put "applicationId" (json_of fee.application)
          (put "applicationFeeId" (string fee.id) t.metadata);
  }

  -- The commission that the handler creates under the booking payment of the charge.
  abbrev pub commission : ApplicationFee → Option Transaction → ℕ → Transaction
  commission fee parent i = record {
    id = i;
    type = admin_commission;
    status = success;
    amount = fee.amount;
    currency = currency_of fee.upper_currency;
    payer_id = none;
    payee_id = none;
    booking_id = parent_booking parent;
    event_id = parent_event parent;
    stripe_payment_intent = none;
    stripe_transfer_id = none;
    stripe_account_id = none;
    stripe_charge_id = fee.charge;
    platform_fee = none;
    seller_amount = none;
    external_txn_id = some fee.id;
    parent_transaction_id = Option.map transaction_id parent;
    metadata =
        ("source", string "webhook.application_fee.created")
        ∷ ("applicationFeeId", string fee.id)
        ∷ put_defined "chargeId" (Option.map string fee.charge) (
            ("applicationId", json_of fee.application)
            ∷ ("originAccountId", json_of fee.account)
            ∷ []);
    processed_at = some now;
    settled_at = some now;
    created_at = now;
  }

  abbrev pub is_commission_of : ApplicationFee → Transaction → Bool
  is_commission_of fee t =
      same_text t.external_txn_id (some fee.id)
      || given_and fee.charge
          (λ x. same_text t.stripe_charge_id (some x) && is_type admin_commission t)

  abbrev pub is_payment_of : Option String → Transaction → Bool
  is_payment_of charge t =
      given_and charge (λ x. same_text t.stripe_charge_id (some x) && is_type booking_payment t)

  -- `if (chargeId) parent = await tx.transaction.findFirst(...)`
  abbrev pub payment_of : Option String → Store Number → Option Transaction
  payment_of none s = none
  payment_of (some x) s = first_transaction (is_payment_of (some x)) s

  -- `handleApplicationFeeCreated`
  unfoldable pub handle_application_fee_created : ApplicationFee → Store Number → Store Number
  handle_application_fee_created fee s = elim (first_transaction (is_commission_of fee) s) [
    | some t ↦ write_transaction t.id (renew_commission fee t) s
    | none ↦ add_transaction (commission fee (payment_of fee.charge s)) s
  ]

  abbrev pub is_transfer_of : Transfer → Transaction → Bool
  is_transfer_of transfer t =
      same_text t.stripe_transfer_id (some transfer.id)
      || given_and transfer.source_transaction (λ x. same_text t.stripe_charge_id (some x))
      || given_and transfer.transfer_group (λ x. same_text t.stripe_payment_intent (some x))

  abbrev pub is_parent_of : Transfer → Transaction → Bool
  is_parent_of transfer t =
      (given_and transfer.source_transaction (λ x. same_text t.stripe_charge_id (some x))
        || given_and transfer.transfer_group (λ x. same_text t.stripe_payment_intent (some x)))
      && is_type booking_payment t

  -- The metadata that `transfer.created` adds to a stored transaction.
  abbrev pub transfer_metadata : Transfer → Metadata → Metadata
  transfer_metadata transfer m =
      put_defined "transferGroup" (Option.map string transfer.transfer_group) (
        put_defined "sourceChargeId" (Option.map string transfer.source_transaction) (
          put_defined "transferDescription" (Option.map string transfer.description) (
            put "transferCurrency" (string transfer.currency) (
              put "transferAmount" (number transfer.amount) (
                put "destinationAccount" (json_of transfer.destination)
                  (put "transferCreatedAt" (number now) m))))))

  abbrev pub settle_transfer : Transfer → Transaction → Transaction → Transaction
  settle_transfer transfer t r = record r {
    status = success;
    settled_at = some now;
    processed_at = some now;
    stripe_transfer_id = or_text_id t.stripe_transfer_id transfer.id;
    metadata = transfer_metadata transfer t.metadata;
  }

  -- The payout that the handler creates for a host.
  abbrev pub payout : Transfer → String → ℕ → Option Transaction → ℕ → Transaction
  payout transfer destination host parent i = record {
    id = i;
    type = seller_payout;
    status = success;
    amount = transfer.amount;
    currency = currency_of transfer.upper_currency;
    payer_id = none;
    payee_id = some host;
    booking_id = parent_booking parent;
    event_id = parent_event parent;
    stripe_payment_intent = none;
    stripe_transfer_id = some transfer.id;
    stripe_account_id = some destination;
    stripe_charge_id = transfer.source_transaction;
    platform_fee = none;
    seller_amount = none;
    external_txn_id = none;
    parent_transaction_id = Option.map transaction_id parent;
    metadata =
        ("source", string "webhook.transfer.created")
        ∷ put_defined "sourceChargeId" (Option.map string transfer.source_transaction) (
            put_defined "transferGroup" (Option.map string transfer.transfer_group) (
              ("destinationAccount", string destination)
              ∷ ("transferAmount", number transfer.amount)
              ∷ ("transferCurrency", string transfer.upper_currency)
              ∷ []));
    processed_at = some now;
    settled_at = some now;
    created_at = now;
  }

  abbrev pub find_host : String → Store Number → Option User
  find_host account s =
      q.first User (keep (λ u. same_text u.stripe_account_id (some account)) s.users)

  -- The payout for the destination account, if it belongs to a user.
  abbrev pub create_payout : Transfer → Option String → Store Number → Store Number
  create_payout transfer none s = s
  create_payout transfer (some account) s = elim (find_host account s) [
    | none ↦ s
    | some host ↦ send (activity (some host.id) "HOST_PAYOUT") (
        add_transaction
          (payout transfer account host.id (first_transaction (is_parent_of transfer) s)) s)
  ]

  -- `handleTransferCreated`
  unfoldable pub handle_transfer_created : Transfer → Store Number → Store Number
  handle_transfer_created transfer s = elim (first_transaction (is_transfer_of transfer) s) [
    | some t ↦ write_transaction t.id (settle_transfer transfer t) s
    | none ↦ create_payout transfer transfer.destination s
  ]

  abbrev pub settle_refund : Charge → Refund → Transaction → Transaction
  settle_refund charge refund r = record r {
    status = success;
    amount = refund.amount;
    settled_at = some now;
    processed_at = some now;
    metadata =
        ("refundId", string refund.id)
        ∷ ("refundReason", string (text_or refund.reason "requested_by_customer"))
        ∷ ("originalChargeId", string charge.id)
        ∷ ("status", json_of refund.status)
        ∷ [];
  }

  -- The loop over the refunds of the charge: those that the database knows are settled.
  unfoldable pub refund_loop : Charge → List Refund → Store Number → Store Number
  refund_loop charge [] s = s
  refund_loop charge (refund ∷ refunds) s =
      refund_loop charge refunds
        (elim (first_transaction (λ t. same_text t.external_txn_id (some refund.id)) s) [
          | none ↦ s
          | some t ↦ write_transaction t.id (settle_refund charge refund) s
        ])

  abbrev pub refund_original : Charge → Transaction → Transaction → Transaction
  refund_original charge t r = record r {
    status = if charge.amount_refunded == charge.amount then fully_refunded else partially_refunded;
    metadata = put "totalRefunded" (number charge.amount_refunded) t.metadata;
  }

  -- `handleChargeRefunded`
  unfoldable pub handle_charge_refunded : Charge → Store Number → Store Number
  unfolding refund_loop
  handle_charge_refunded charge s =
      elim (first_transaction (λ t. same_text t.stripe_charge_id (some charge.id)) s) [
        | none ↦ s
        | some t ↦ send (activity t.payer_id "BOOKING_REFUNDED") (
            write_transaction t.id (refund_original charge t) (refund_loop charge charge.refunds s))
      ]
