-- ===== src/Tests.antt =====
-- The theorems at concrete inputs, over the reference server, database and broker.
mod Given
mod Holds
mod Rooms
mod Rounds
mod Orders
mod Locks
mod Accounts
mod Signups
mod Organizers
mod Types
mod Links
mod Concerts
mod Members
mod Layouts
