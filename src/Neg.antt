-- ===== src/Neg.antt =====
-- pkg/networkendpointgroup: the syncer of one service port and the manager of all syncers.
pub mod Endpoint
pub mod Cloud
pub mod Sync
pub mod Zones
pub mod Syncer
pub mod Lifecycle
pub mod Manager
pub mod Collect
mod Tests
