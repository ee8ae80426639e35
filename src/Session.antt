-- ===== src/Session.antt =====
-- main.c: what a client thread does with the lines that a client sends.
pub mod Defs
pub mod Auth
pub mod Commands
pub mod Folders
pub mod Buffer
pub mod Wire
pub mod Serve
mod Tests
