-- ===== src/Orders.antt =====
-- Bookings, payments and tickets, and the services that write them.
pub mod Data
pub mod Store
