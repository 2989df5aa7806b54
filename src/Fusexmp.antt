-- ===== src/Fusexmp.antt =====
-- fusexmp.c: an earlier version of lfs_fuse.c, over the same caches. What the two files share is
-- modelled by the names of FileSystem.
pub mod Calls
pub mod Metadata
pub mod Operations
pub mod Unread
pub mod Reused
