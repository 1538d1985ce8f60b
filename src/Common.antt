-- ===== src/Common.antt =====
-- What all parts of the server share: identifiers, exceptions and actions.
pub mod Ids
pub mod Exception
pub mod Action
pub mod AuditLog
