-- ===== src/Access.antt =====
-- Permissions: src/common/guards/permissions.guard.ts over src/common/services/cache.service.ts.
pub mod Guard
pub mod Freshness
mod Tests
