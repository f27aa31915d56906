-- ===== src/Startup.antt =====
-- The start of the process: pkg/spdk/driver.go, the constructors of the servers, and the gRPC server.
pub mod System
pub mod Config
pub mod Nodes
pub mod Grpc
pub mod Parsed
pub mod Chosen
pub mod Serving
