-- ===== src/Webhook/Laws.antt =====
-- What `processWebhookJob` and the handlers of src/webhook/webhook.service.ts guarantee.
pub mod Job
pub mod Notices
pub mod Payments
pub mod Checkout
