-- ===== src/Webhook/Laws/Job.antt =====
-- `enqueueWebhookEvent` and `processWebhookJob` of src/webhook/webhook.service.ts.
use seatwaves_backend.Common.{
  ℕ, ◌≡◌, refl, ap, inl, inr, true, false, List, ◌∷◌, some, Result, ok, err, arith, Option-cases,
  Bool-cases,
}
use seatwaves_backend.Database.Table.{find_unique, find_unique-update_self, find_unique-id}
use seatwaves_backend.Database.Queries.{Queries}
use seatwaves_backend.Points.Data.{Numbers, Calendar}
use seatwaves_backend.Orders.Store.{Store, WebhookEvent, WebhookEventStatus, event_id}
use seatwaves_backend.Webhook.Event.{Event}
use seatwaves_backend.Webhook.Job.{
  is_processed, dispatch, mark_event, settle_job, process_webhook_job, enqueue_webhook_event,
}

module _ (n : Numbers) (c : Calendar) (q : Queries) where
  open n use {Number}

  abbrev new_event : Event → ℕ → WebhookEvent
  new_event e now = record {
    stripe_event_id = e.id;
    type = e.type;
    status = WebhookEventStatus.processed;
    processed_at = some now;
    error = false;
  }

  find_head :
      (r : WebhookEvent) (i : ℕ) (events : List WebhookEvent)
      → event_id r ≡ i
      → find_unique event_id i (r ∷ events) ≡ some r
  unfolding find_unique
  find_head r i events h = ground arith

  marked_processed :
      (e : Event) (now : ℕ) (events : List WebhookEvent)
      → is_processed (
          find_unique event_id e.id
            (mark_event n c q e WebhookEventStatus.processed false now events))
        ≡ true
  unfolding mark_event
  marked_processed e now events = elim (Option-cases (find_unique event_id e.id events)) [
    | inl f ↦ rw (f, mark_event) (ap is_processed (find_head (new_event e now) e.id events refl))
    | inr (r, f) ↦
        rw (f, mark_event)
          (ap is_processed (
            find_unique-update_self event_id e.id
              (λ r. record r { status = WebhookEventStatus.processed; processed_at = some now })
              events f (find_unique-id event_id e.id events f)))
  ]

  -- The events of a job: a job that fails leaves the event FAILED and is tried again.
  settle_job_lem :
      (e : Event) (now : ℕ) (r : Result (Unit {0})) (s' : Store Number)
      → (settle_job n c q e now (r, s')).0 ≡ ok tt
      → is_processed (find_unique event_id e.id (settle_job n c q e now (r, s')).1.events) ≡ true
  settle_job_lem e now (ok a) s' h = marked_processed e now s'.events
  settle_job_lem e now (err x) s' h = ground arith

  process_processed :
      (now : ℕ) (e : Event) (s : Store Number)
      → is_processed (find_unique event_id e.id s.events) ≡ true
      → process_webhook_job n c q now e s ≡ (ok tt, s)
  unfolding process_webhook_job
  process_processed now e s h = rw (h, process_webhook_job) refl

  process-processed :
      (now : ℕ) (e : Event) (s : Store Number)
      → (process_webhook_job n c q now e s).0 ≡ ok tt
      → is_processed (find_unique event_id e.id (process_webhook_job n c q now e s).1.events) ≡ true
  unfolding process_webhook_job
  process-processed now e s h =
      elim (Bool-cases (is_processed (find_unique event_id e.id s.events))) [
        | inl p ↦ rw (p, process_webhook_job) p
        | inr p ↦
            rw (p, process_webhook_job)
              (settle_job_lem e now (dispatch n c q now e.payload s).0
                (dispatch n c q now e.payload s).1 (rw (p, process_webhook_job) at h))
      ]

  -- Stripe delivers an event more than once: when a job of the event returned, every later job of
  -- it, at any time, returns and changes nothing, and no further job is added to the queue for it.
  pub process_webhook_job-idempotent :
      (now later : ℕ) (e : Event) (s : Store Number) (add : List Event → Event → List Event)
      (queue : List Event)
      → (process_webhook_job n c q now e s).0 ≡ ok tt
      → (process_webhook_job n c q later e (process_webhook_job n c q now e s).1
          ≡ (ok tt, (process_webhook_job n c q now e s).1))
        × (enqueue_webhook_event n c q add e ((process_webhook_job n c q now e s).1, queue)
            ≡ ((process_webhook_job n c q now e s).1, queue))
  unfolding enqueue_webhook_event
  process_webhook_job-idempotent now later e s add queue h =
      let p = process-processed now e s h in
      (
        process_processed later e (process_webhook_job n c q now e s).1 p,
        rw (p, enqueue_webhook_event) refl,
      )
