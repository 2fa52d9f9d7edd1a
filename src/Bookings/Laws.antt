-- ===== src/Bookings/Laws.antt =====
-- What the operations of src/booking/booking.service.ts guarantee, in a child for each.
pub mod Status
pub mod Cancel
pub mod Code
pub mod Verify
