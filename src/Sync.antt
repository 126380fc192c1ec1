-- ===== src/Sync.antt =====
-- Synchronization, src/sync/.
pub mod Semaphore
pub mod Sleep
pub mod Condvar
pub mod Intr
pub mod Once
