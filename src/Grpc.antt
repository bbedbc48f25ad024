-- ===== src/Grpc.antt =====
-- A call over gRPC, from the client to the handler and back.
pub mod Handler
pub mod Transport
pub mod Negotiated
pub mod Status
pub mod Served
pub mod Stages
pub mod Received
pub mod Call
