-- ===== src/FileLocks.antt =====
-- file_locks.h and file_locks.c: the table of per-path locks. The parts between `table_lock` and
-- its unlock are single functions here; the blocking `pthread_mutex_lock` on a slot is the partial
-- function `lock_slot`.
pub mod Find
pub mod Defs
pub mod Table
pub mod Initial
pub mod Refs
pub mod LongPath
pub mod Threads
pub mod Lifetime
pub mod Alone
pub mod Print
mod Tests
