-- ===== src/Network.antt =====
-- node/src/network.rs: the node that several peers share, its sessions and its catching up.
pub mod Wire
pub mod Framing
pub mod Handshake
pub mod Batches
pub mod Node
pub mod Durability
pub mod Restart
pub mod Session
pub mod Connection
pub mod Sessions
pub mod Budgets
pub mod Sync
pub mod Growth
pub mod CatchUp
pub mod Slots
