-- ===== src/Stripe.antt =====
-- Refunds through Stripe, of src/stripe/stripe.service.ts.
pub mod Api
pub mod Rollback
pub mod Refund
pub mod Refunds
