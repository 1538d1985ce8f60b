-- ===== src/Queue.antt =====
-- concert-ticketing/src/queue: the virtual waiting room in front of an event's sale.
pub mod Ports
pub mod Adapter
pub mod Spec
pub mod Cycle
pub mod Progress
pub mod Places
pub mod Rounds
pub mod History
pub mod Capacity
pub mod Fifo
pub mod Line
pub mod WaitingRoom
pub mod UseCases
pub mod Turns
