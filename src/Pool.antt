-- ===== src/Pool.antt =====
-- main.c: the client threads, the worker threads, the main thread and the handler of SIGINT, with
-- the two queues between them.
pub mod Defs
pub mod Flow
pub mod Tasks
pub mod Awake
pub mod Answered
pub mod Abandoned
pub mod Sleeper
pub mod Shutdown
pub mod LostWakeup
mod Tests
