-- ===== src/Session/Serve.antt =====
-- One connection in `handle_client`: the sign-in, and then command after command until the client
-- leaves. What a worker makes of a task is `execute_task`; the `malloc` of the task itself and its
-- mutex and condition variable are taken to succeed.
pub mod Defs
pub mod Quiet
pub mod Ends
pub mod Admitted
mod Tests
pub mod Machine
mod Runs
