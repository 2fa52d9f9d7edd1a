-- ===== src/Points.antt =====
-- The loyalty points of src/points/points.service.ts: rules, batches of reward points and the
-- balance of each user. Numbers of points are integers, as in the database; amounts of money are
-- natural numbers of cents.
pub mod Data
pub mod Award
pub mod Redeem
pub mod Expire
pub mod Tier
pub mod Ledger
pub mod Tests
