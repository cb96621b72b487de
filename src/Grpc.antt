-- ===== src/Grpc.antt =====
-- The gRPC service of the server and its shutdown: clawpot-server/src/grpc/service.rs and the
-- handler `shutdown_signal` of clawpot-server/src/main.rs.
pub mod Server
pub mod Create
pub mod Delete
pub mod Requested
pub mod Query
pub mod Interleaved
pub mod Accounting
pub mod Invariant
