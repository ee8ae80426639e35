-- ===== src/Lib.antt =====
-- Verification of the multi-threaded file storage server: a server with sign-up and login, quotas
-- and concurrent uploads, downloads, deletions and listings over TCP.
--
-- Parts of the program and where they are modelled.
--
-- * file_locks.c, file_locks.h: FileLocks. `FileLock` and `FileLockTable` are the structs;
--   `find_lock_slot` and `release_file_lock` are the functions of those names, and
--   `acquire_file_lock` is split at the point where it gives up `table_lock`: `acquire_slot` is what
--   it does before, `lock_slot` its wait for the slot's own mutex. FileLocks.Table holds the
--   well-formedness of the table, FileLocks.Refs its view as a map from paths to reference counts,
--   FileLocks.LongPath what happens to paths that do not fit, FileLocks.Alone a worker that is
--   alone, FileLocks.Print what `file_lock_table_print` shows, FileLocks.Threads any number of
--   threads that use one table, as a step relation with any paths (its theorems are about the states
--   that are reached while the threads get locks of paths of less than 512 bytes only), and
--   FileLocks.Lifetime its mutexes and memory
--   from `file_lock_table_init`, any call of which may fail, to `file_lock_table_destroy`.
-- * queue.c, queue.h: Queue. Nodes and copied elements live at addresses of an explicit memory
--   (Queue.Memory); a `Queue*` is an optional record, and a flag says whether its struct is
--   allocated. Queue.Chain says what a queue in memory stands
--   for, Queue.Fifo, Queue.Take and Queue.Walk prove the functions, Queue.Refine whole runs.
-- * utility.c, utility.h: Utility. Utility.Words is `firstWord` and its use on a command line,
--   Utility.Decimal is `countDigits`, Utility.Transfer is `send_all` and `recv_all`.
-- * storage.c, storage.h: Storage. Storage.Sqlite is the interface of what storage.c calls,
--   Storage.Defs has its functions; Storage.Accounts and Storage.SignIn are about sign-up and login,
--   Storage.Quotas, Storage.Works and Storage.Race about quotas. A function that opens the file, prepares one
--   statement and steps it once is an instance of `query`. Storage.Memory is a database that keeps
--   the laws. Storage.Creation is `init_db`, over an interface of its own.
-- * main.c, task.h: Task. `execute_task` is written over an interface of what it calls
--   (Task.Services), so that whatever the other threads do between two calls is part of the next
--   call; one function per command, split where the lock is held. Task.Locks follows the lock,
--   Task.Files the file, Task.Listing the buffer of LIST.
-- * The parts together: Server. Server.Defs fills that interface with the functions of storage.c and
--   file_locks.c, and files, directories and memory from the operating system (Server.Os);
--   `run_tasks` is what one worker does task after task. Server.Lawful shows that the parts keep
--   what `execute_task` relies on, Server.Changed, Server.Deleted, Server.Reading and Server.Quota
--   follow the files and the used space, Server.Turns whole runs, Server.RoundTrip an
--   upload and the download after it, Server.Traversal names that leave a folder.
--   Server.Start is `main` up to the listening socket, Server.Stop its end after the joins.
-- * main.c, client.h: Session. `signup_login`, `upload` and `handleCmd`, over the functions of
--   storage.c, the socket, `mkdir` and `malloc`. Session.Auth is about who is let in,
--   Session.Buffer about the name that is kept, Session.Folders about the folders' names,
--   Session.Commands about what is read of the connection. Session.Wire has what is sent back, and
--   how test_client.c reads it; Session.Serve puts one connection of `handle_client` together, from
--   the sign-in to the last command, with `execute_task` for what the workers do: `Conn` is the
--   socket, the memory of `CmdSize` and the world, `turn` a round of the loop. Session.Serve.Ends and
--   Session.Serve.Admitted prove it, Session.Serve.Runs runs it.
-- * main.c, the threads: Pool. `handle_client`, `handle_worker`, the accept loop of `main`, its joins
--   and `handle_signint` are steps of one system (Pool.Defs): the two queues with their mutexes and
--   condition variables, the flag `ServerRunning`, and where each thread stands. What a worker makes
--   of a task is `execute_task` of Task. Pool.Flow counts the places of a task, Pool.Tasks,
--   Pool.Awake, Pool.Answered, Pool.Shutdown and Pool.LostWakeup follow tasks, sleepers, answers and
--   the shutdown.
-- * test_client.c, the client: Client. What it sends for a line and a file, and how it takes a
--   line apart; Client.Upload, Client.Stored and Client.Words hold it against the server.
--
-- A client thread takes a line apart with `firstWord` and calls `signup` or `login`; for each command
-- it puts a task into the queue, and a worker runs `execute_task`, which checks the quota in
-- storage.c, takes the lock of the file's path from file_locks.c, works on the file, charges the
-- user and releases the lock.
--
-- Numbers. `int` and `size_t` counters are kept as bit patterns with their wrap-around written out
-- (Base.Word). C strings are lists of bytes without the final zero.
--
-- Fuel. The loops of `queue_destroy` and `queue_print` follow pointers; the model gives them a
-- number of rounds, and the theorems hold for any number above the length of the queue. `send_all`
-- and `recv_all` get one round more than there are bytes, and each round that goes on moves a byte; the
-- digits of `n` are written with `n + 1` rounds, and each divides the number by ten. A connection gets
-- as many rounds as there are bytes to come; a round that goes on takes one or more.
--
-- Parameters. `malloc` is an argument of the queue's functions; its theorems ask that it returns
-- NULL or an address that is not allocated. `log10` is rounded down to the leading digit's exponent.
-- The socket is a record of `recv` and `send`, of which the theorems ask what a stream promises.
-- SQLite is a record of its calls, any of which may fail; `IsSqlite` says what a step of each of the
-- statements of storage.c tells of the tables and makes of them, and what a transaction keeps. It
-- assumes that nobody else writes between two calls of one function. The difference of two C longs
-- in `check_quota` and in an UPLOAD is taken without overflow; the conversion of a `size_t` to a long
-- is `long_of`.
--
-- `execute_task` has the quota functions, the locks, files and `malloc` as parameters, with two sets
-- of laws. `IsServices` says which of them take and give back a lock; any number of threads keeps it.
-- `IsExclusive` says what becomes of a file while the lock of its path, of less than 512 bytes, is
-- held. It assumes that no other thread changes the file in that time, which the locks give only
-- where all threads call the file by the same text: `x` and `./x` are one file and two locks. Each
-- theorem that needs it says so. An `fclose` may fail after a full `fwrite`, and then it promises
-- nothing of the file. Task.Disk is an instance of both, and so are the real parts of Server for a
-- worker that is alone: there a wait for a lock that is not free is a flag of the state, `waiting`, after which
-- nothing that follows happens in the program. Of the operating system `IsOs` says what POSIX
-- documents; which file a path leads to is its function `resolve`.
--
-- In Pool the operating system may wake a sleeper unasked and fail the `malloc`s of `queue_enqueue`:
-- `Env` says which of this it does. The sizes of the pools are parameters. A client thread has one
-- task at a time, so a pointer to a task is told by the number of the thread. The mutex of a task
-- and its condition variable are not told apart from its flag `done`: a client thread goes on when
-- the flag is set. SIGINT comes once.
--
-- Not modelled: output to the terminal apart from `queue_print` and `file_lock_table_print`; a task
-- for which there is no memory or no mutex; a queue or a thread that cannot be made at the start; the
-- NULL arguments of the lock functions (the server passes none); a `strdup` that fails; and the other
-- programs for tests, with the prompt and the files of test_client.c.
mod Base
pub mod FileLocks
pub mod Queue
pub mod Utility
pub mod Storage
pub mod Task
pub mod Session
pub mod Pool
pub mod Client
pub mod Server
