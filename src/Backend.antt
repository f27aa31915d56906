-- ===== src/Backend.antt =====
-- The backends of `xpuInitiator`: pkg/util/opiinitiator.go and pkg/util/smainitiator.go, and what
-- an initiator needs of them.
pub mod Contract
pub mod Opi
pub mod Sma
