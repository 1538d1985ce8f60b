-- ===== src/Order.antt =====
-- concert-ticketing/src/booking/order: orders from held seats, and their timeout.
pub mod Ports
pub mod Repository
pub mod UseCases
pub mod Attempt
pub mod Creation
pub mod Replay
pub mod Release
pub mod Expiry
pub mod Pricing
