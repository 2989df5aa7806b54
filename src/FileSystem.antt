-- ===== src/FileSystem.antt =====
-- lfs_fuse.c: the log file system over the caches.
pub mod Metadata
pub mod Paths
pub mod RoundTrip
pub mod Operations
pub mod Reload
pub mod Mknod
pub mod Sizes
pub mod Write
pub mod Calls
pub mod Append
pub mod Capacity
pub mod Eviction
pub mod Spilled
pub mod Overflow
pub mod LoadPath
pub mod Appends
pub mod Nodes
pub mod Start
