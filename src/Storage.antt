-- ===== src/Storage.antt =====
-- The block layer: storage/block.go, storage/storage.go, storage/storagejob.go and their neighbours.
pub mod Types
pub mod Refs
pub mod Blocks
pub mod Names
pub mod Jobs
pub mod Handles
pub mod Invariant
pub mod InMemory
pub mod Encoded
pub mod BlockNames
mod Tests
