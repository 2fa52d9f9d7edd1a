-- ===== src/Bookings.antt =====
-- The changes of bookings in src/booking/booking.service.ts.
pub mod Status
pub mod Cancel
pub mod Code
pub mod Verify
pub mod Laws
pub mod Tests
