-- ===== src/Transactions.antt =====
-- The rows of payments and what is written about them: `transaction/transaction.service.ts`.
pub mod Data
pub mod Service
pub mod Flows
pub mod Decisions
mod Links
mod Sound
mod Paid
mod PaidOut
pub mod Calls
mod Tests
