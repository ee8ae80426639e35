-- ===== src/Queue.antt =====
-- queue.h and queue.c: the generic linked-list queue, over an explicit memory.
pub mod Memory
pub mod Defs
pub mod Chain
pub mod Fifo
pub mod Take
pub mod Walk
pub mod Refine
mod Tests
