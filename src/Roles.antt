-- ===== src/Roles.antt =====
-- The roles of the users: `role/role.service.ts`, `common/guards/roles.guard.ts`, the caches that the
-- two guards keep, and the decision of `users/users.service.ts` that makes a user a seller.
pub mod Data
pub mod Service
pub mod Guard
pub mod Calls
pub mod Plain
mod Joins
mod Coherence
mod Factories
mod Writes
mod Refinement
pub mod Seller
mod Sellers
mod Tests
