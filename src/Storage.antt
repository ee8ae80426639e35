-- ===== src/Storage.antt =====
-- storage.c: the accounts and quotas that the server keeps in SQLite.
pub mod Sqlite
pub mod Defs
pub mod Accounts
pub mod SignIn
pub mod Quotas
pub mod Works
pub mod Memory
pub mod Creation
pub mod Race
mod Tests
