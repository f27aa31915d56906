-- ===== src/Target.antt =====
-- The storage nodes: interface `SpdkNode` of pkg/util/jsonrpc.go and its two implementations.
pub mod Nvmf
pub mod Iscsi
pub mod Node
pub mod Unpublish
pub mod Making
