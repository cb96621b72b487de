-- ===== src/Events.antt =====
-- The event log of the server: clawpot-server/src/events.
pub mod Store
pub mod Writer
pub mod Query
pub mod Rows
