-- ===== src/Mem.antt =====
-- Memory management, src/mem/.
pub mod Words
pub mod FreeList
pub mod Buddy
pub mod Arena
pub mod Heap
pub mod Entry
pub mod PageTable
