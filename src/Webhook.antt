-- ===== src/Webhook.antt =====
-- The Stripe webhooks of src/webhook/webhook.service.ts.
pub mod Event
pub mod Handlers
pub mod Transfers
pub mod Job
pub mod Laws
mod Tests
