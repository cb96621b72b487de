-- ===== src/Agent.antt =====
-- The agent in the guest, clawpot-agent/src, and the server's client of it,
-- clawpot-server/src/agent/client.rs.
pub mod Exec
pub mod Stream
pub mod Client
