-- ===== src/Reorg.antt =====
-- node/src/v3: the choice of a branch and the plan that leads from one tip to another. The node
-- does not run this code yet.
pub mod BlockIndex
pub mod Links
pub mod Paths
pub mod SoftWalk
pub mod Forks
pub mod Plan
pub mod Preflight
pub mod Fingerprint
pub mod Ancestry
pub mod Heights
pub mod Planned
pub mod BranchSelect
pub mod Sandbox
