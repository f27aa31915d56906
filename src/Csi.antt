-- ===== src/Csi.antt =====
-- pkg/csi-common and the CSI messages that the servers exchange.
pub mod Driver
pub mod Defaults
pub mod Endpoint
pub mod Identity
