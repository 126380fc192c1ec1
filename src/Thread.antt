-- ===== src/Thread.antt =====
-- Kernel threads, src/thread.rs and src/thread/, with the sleep queue and the timer that wakes from
-- it.
pub mod Scheduler
pub mod Fcfs
pub mod State
pub mod Manager
pub mod SleepQueue
pub mod Calls
pub mod Timer
pub mod Sample
mod Tests
