-- ===== src/Client.antt =====
-- test_client.c: the client for trying the server by hand, against the server.
pub mod Defs
pub mod Sent
pub mod Arrives
pub mod Upload
pub mod Stored
mod Tests
pub mod Words
