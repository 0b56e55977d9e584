-- ===== src/Grpc.antt =====
-- grpc/src: the hybrid server.
pub mod Status
pub mod Frame
pub mod Call
pub mod Cors
pub mod Idempotency
mod Tests
