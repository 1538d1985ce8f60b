-- ===== src/SeatLock.antt =====
-- concert-ticketing/src/booking/seat-lock: holding a seat for a while.
pub mod Ports
pub mod Adapter
pub mod Spec
pub mod Audit
pub mod UseCases
pub mod Locking
pub mod Controller
