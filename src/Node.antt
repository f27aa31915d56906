-- ===== src/Node.antt =====
-- The node side: what the driver does on the machine that uses a volume.
pub mod Host
pub mod Context
pub mod Initiator
pub mod Server
pub mod Devices
pub mod Sessions
pub mod Unstaging
pub mod RoundTrip
pub mod Xpu
pub mod Sysfs
pub mod Attached
