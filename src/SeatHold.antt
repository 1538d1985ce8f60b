-- ===== src/SeatHold.antt =====
-- concert-ticketing/src/booking/order/adapters/redis-seat-hold.adapter.ts: the locks as orders use
-- them.
pub mod Adapter
pub mod Spec
