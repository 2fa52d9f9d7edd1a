-- ===== src/Recurrence.antt =====
-- Recurring events: src/event/recurrence.ts over src/common/utc.ts.
pub mod Utc
pub mod Rules
pub mod Expand
pub mod Reference
pub mod Daily
pub mod Start
pub mod Days
pub mod Left
pub mod Weekly
pub mod Align
pub mod Named
pub mod Branches
pub mod Window
pub mod Next
mod Tests
