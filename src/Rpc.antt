-- ===== src/Rpc.antt =====
-- pkg/util/jsonrpc.go: the JSON-RPC client of an SPDK target.
pub mod Message
pub mod Client
pub mod Log
