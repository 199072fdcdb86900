-- ===== src/Registry.antt =====
-- The schema registry, crates/schema-registry.
pub mod Types
pub mod Externals
pub mod Storage
pub mod Db
pub mod Update
pub mod Transfer
pub mod Laws
pub mod Stored
pub mod Versions
pub mod Metadata
pub mod Created
pub mod Linked
pub mod Greatest
pub mod NewVersion
pub mod NewSchema
pub mod Renamed
pub mod Memory
pub mod Replication
pub mod Start
pub mod Reading
pub mod Replica
pub mod Wire
pub mod Rpc
pub mod Views
pub mod Consumed
pub mod Histories
pub mod Replicated
pub mod TypeChange
pub mod Roles
pub mod Tests
