-- ===== src/Points/Ledger.antt =====
-- The balances and batches of src/points/points.service.ts: the invariant, and a child for each
-- operation.
pub mod Holdings
pub mod Award
pub mod Batches
pub mod Redeem
pub mod Sums
pub mod Expire
pub mod Tiers
