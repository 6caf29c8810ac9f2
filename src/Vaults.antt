-- ===== src/Vaults.antt =====
-- backend/src/modules/vaults: a child module for each file of routes or services, and what they
-- keep true together.
pub mod Authz
pub mod Lifecycle
pub mod Deletion
pub mod Members
pub mod Invitations
pub mod Sharing
pub mod Rotation
pub mod Owners
pub mod Reads
pub mod Export
