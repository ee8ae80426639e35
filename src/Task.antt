-- ===== src/Task.antt =====
-- main.c: what a worker thread does with one task.
pub mod Services
pub mod Defs
pub mod Finished
pub mod Locks
pub mod Files
pub mod Listing
pub mod Disk
mod Tests
