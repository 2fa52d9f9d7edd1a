-- ===== src/Events.antt =====
-- Events, their tickets and the collections of the front page: `event/event.service.ts`.
pub mod Data
pub mod Chunks
mod Writing
mod Loop
pub mod Service
mod Creation
mod Ownership
pub mod Bulk
mod Growth
mod Uploads
mod Summaries
pub mod Collections
mod Tidy
mod Tests
