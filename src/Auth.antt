-- ===== src/Auth.antt =====
-- concert-ticketing/src/auth: accounts, one-time codes, sessions.
pub mod Keys
pub mod Service
pub mod Codes
pub mod Sessions
pub mod Guard
pub mod Registration
pub mod Confirmation
