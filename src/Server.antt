-- ===== src/Server.antt =====
-- main.c: `execute_task` over the real quota functions and locks. Files, directories and memory are
-- those of the operating system.
pub mod Os
pub mod Defs
pub mod Lawful
pub mod Sizes
pub mod Changed
pub mod Deleted
pub mod Reading
pub mod Quota
pub mod Turns
pub mod Memory
pub mod RoundTrip
pub mod Start
pub mod Stop
pub mod Traversal
mod Tests
