-- ===== src/Types.antt =====
-- The contract's types (types.rs): errors, statuses, stored records and events.
pub mod Errors
pub mod Records
pub mod Events
