-- ===== src/Files.antt =====
-- Byte streams and files: src/io.rs, src/fs.rs and src/fs/inmem.rs.
pub mod Stream
pub mod Vnode
pub mod File
pub mod Memory
mod Tests
