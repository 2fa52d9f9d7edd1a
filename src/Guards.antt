-- ===== src/Guards.antt =====
-- Guards: src/common/guards/rate-limit.guard.ts.
pub mod Counter
pub mod RateLimit
pub mod Window
mod Tests
