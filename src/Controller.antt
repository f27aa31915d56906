-- ===== src/Controller.antt =====
-- pkg/spdk/controllerserver.go: the CSI controller service.
pub mod Message
pub mod Server
pub mod Handlers
pub mod Ids
pub mod Capabilities
pub mod Schedule
pub mod Nodes
pub mod Deletion
pub mod Making
pub mod Tried
pub mod Creation
pub mod Unconfigured
pub mod Snapshots
pub mod Capacity
