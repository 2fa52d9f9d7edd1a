-- ===== src/Locks.antt =====
-- Locks over Redis: src/common/services/distributed-lock.service.ts.
pub mod Redis
pub mod Lock
pub mod Schedule
pub mod Exclusion
pub mod Laws
mod Tests
