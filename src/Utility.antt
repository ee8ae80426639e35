-- ===== src/Utility.antt =====
-- utility.c: splitting commands, counting digits, and whole transfers over a socket.
pub mod Words
pub mod Decimal
pub mod Transfer
pub mod Drip
pub mod Whole
mod Tests
