-- ===== src/Device.antt =====
-- The flat-device backend of storage/tree: places on the device, superblocks, and the file below.
pub mod Location
pub mod Superblocks
pub mod MemoryFile
pub mod Allocator
pub mod Backend
pub mod Start
pub mod Tests
