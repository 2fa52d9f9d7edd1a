-- ===== src/Webhook/Job.antt =====
-- `enqueueWebhookEvent` and `processWebhookJob` of src/webhook/webhook.service.ts.
use seatwaves_backend.Common.{ℕ, Bool, true, false, List, ◌∷◌, Option, none, some, Result, ok, err}
use seatwaves_backend.Database.Table.{find_unique, update}
use seatwaves_backend.Database.Queries.{Queries}
use seatwaves_backend.Points.Data.{Numbers, Calendar}
use seatwaves_backend.Orders.Store.{Store, Handler, WebhookEvent, WebhookEventStatus, event_id}
use seatwaves_backend.Webhook.Event.{
  Payload, Event, checkout_session_completed, checkout_session_expired, payment_intent_succeeded,
  payment_intent_payment_failed, payment_intent_canceled, transfer_created, application_fee_created,
  charge_refunded, payout_paid, charge_refund_updated, unhandled,
}
use seatwaves_backend.Webhook.Handlers.{
  handle_checkout_session_completed, handle_checkout_session_expired,
  handle_payment_intent_succeeded, handle_payment_intent_failed, handle_payment_intent_cancelled,
}
use seatwaves_backend.Webhook.Transfers.{
  handle_transfer_created, handle_application_fee_created, handle_charge_refunded,
}

abbrev pub is_processed : Option WebhookEvent → Bool
is_processed none = false
is_processed (some e) = elim e.status [ WebhookEventStatus.processed ↦ true | _ ↦ false ]

module _ (n : Numbers) (c : Calendar) (q : Queries) where
  open n use {Number}

  -- The `switch` on the type of the event.
  unfoldable pub dispatch : ℕ → Payload → Handler Number
  dispatch now (checkout_session_completed session) s =
      handle_checkout_session_completed n c q now session s
  dispatch now (checkout_session_expired session) s =
      handle_checkout_session_expired n c q now session s
  dispatch now (payment_intent_succeeded intent) s =
      handle_payment_intent_succeeded n c q now intent s
  dispatch now (payment_intent_payment_failed intent) s =
      handle_payment_intent_failed n c q now intent s
  dispatch now (payment_intent_canceled intent) s =
      handle_payment_intent_cancelled n c q now intent s
  dispatch now (transfer_created transfer) s = (ok tt, handle_transfer_created n q now transfer s)
  dispatch now (application_fee_created fee) s =
      (ok tt, handle_application_fee_created n q now fee s)
  dispatch now (charge_refunded charge) s = (ok tt, handle_charge_refunded n q now charge s)
  dispatch now payout_paid s = (ok tt, s)
  dispatch now charge_refund_updated s = (ok tt, s)
  dispatch now unhandled s = (ok tt, s)

  -- The upsert of the event's row with the outcome.
  unfoldable pub mark_event :
      Event → WebhookEventStatus → Bool → ℕ → List WebhookEvent → List WebhookEvent
  mark_event e status error now events = elim (find_unique event_id e.id events) [
    | none ↦
        record {
          stripe_event_id = e.id;
          type = e.type;
          status = status;
          processed_at = some now;
          error = error;
        }
        ∷ events
    | some _ ↦
        update event_id e.id
          (λ r. record r {
            status = status;
            processed_at = some now;
            error = elim error [ true ↦ true | false ↦ r.error ];
          })
          events
  ]

  abbrev pub finish : Event → WebhookEventStatus → Bool → ℕ → Store Number → Store Number
  finish e status error now s = record s { events = mark_event e status error now s.events }

  abbrev pub settle_job :
      Event → ℕ → Result (Unit {0}) × Store Number → Result (Unit {0}) × Store Number
  settle_job e now (ok _, s) = (ok tt, finish e WebhookEventStatus.processed false now s)
  settle_job e now (err x, s) = (err x, finish e WebhookEventStatus.failed true now s)

  -- `processWebhookJob`
  unfoldable pub process_webhook_job : ℕ → Event → Handler Number
  unfolding dispatch mark_event
  process_webhook_job now e s = elim (is_processed (find_unique event_id e.id s.events)) [
    | true ↦ (ok tt, s)
    | false ↦ settle_job e now (dispatch now e.payload s)
  ]

  -- The row that `enqueueWebhookEvent` creates for a new event.
  abbrev pub remember_event : Event → List WebhookEvent → List WebhookEvent
  remember_event e events = elim (find_unique event_id e.id events) [
    | some _ ↦ events
    | none ↦
        record {
          stripe_event_id = e.id;
          type = e.type;
          status = WebhookEventStatus.pending;
          processed_at = none;
          error = false;
        }
        ∷ events
  ]

  -- `enqueueWebhookEvent`, over the queue's `add` with the event's id as the id of the job.
  unfoldable pub enqueue_webhook_event :
      (List Event → Event → List Event)
      → Event
      → Store Number × List Event
      → Store Number × List Event
  enqueue_webhook_event add e (s, queue) =
      elim (is_processed (find_unique event_id e.id s.events)) [
        | true ↦ (s, queue)
        | false ↦ (record s { events = remember_event e s.events }, add queue e)
      ]
