-- ===== src/Disk.antt =====
-- The on-disk file system, src/fs/disk.rs and src/fs/disk/.
pub mod FreeMap
pub mod Inode
pub mod Directory
