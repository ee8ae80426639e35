-- ===== src/FileLocks/Threads.antt =====
-- Any number of threads on one lock table, interleaved. The parts under `table_lock` are single
-- steps; a thread that waits for a slot's mutex stands between `acquire_slot` and `lock_slot`.
pub mod Counts
pub mod Inv
pub mod Safety
use client_worker_thread_poo.Base.{ℕ, ◌^◌, ◌<◌, ◌≡◌, Option, none, some, ◌==◌, Text, length}
use client_worker_thread_poo.Base.Family.{update}
use client_worker_thread_poo.FileLocks.Defs.{
  FileLockTable, file_lock_table_init, filepath_max, acquire_slot, lock_slot, release_file_lock,
}
use Counts.{Pc, idle, waiting, holding}

pub record System : Type 0 where
  pub table : FileLockTable
  pub pc : ℕ → Pc

pub data Step (n : ℕ) (s : System) : System → Type 0 where
  -- `acquire_file_lock` up to the wait on the slot's mutex
  request :
      (i k : ℕ) (p : Text) (t : FileLockTable)
      → i < n
      → s.pc i ≡ idle
      → acquire_slot s.table p ≡ (some k, t)
      → Step n s (record { table = t; pc = update s.pc i (waiting p k) })
  -- `acquire_file_lock` that returns NULL
  refuse :
      (i : ℕ) (p : Text) (t : FileLockTable)
      → i < n
      → s.pc i ≡ idle
      → acquire_slot s.table p ≡ (none, t)
      → Step n s (record { table = t; pc = s.pc })
  -- the return of `pthread_mutex_lock` on the slot
  enter :
      (i k : ℕ) (p : Text) (t : FileLockTable)
      → i < n
      → s.pc i ≡ waiting p k
      → lock_slot s.table k ≡ some t
      → Step n s (record { table = t; pc = update s.pc i (holding p k) })
  leave :
      (i k : ℕ) (p : Text)
      → i < n
      → s.pc i ≡ holding p k
      → Step n s (record { table = release_file_lock s.table p; pc = update s.pc i idle })

unfoldable pub init : System
init = record { table = file_lock_table_init; pc = λ _. idle }

-- Each path that a thread has been given a slot for, and waits on, has less than 512 bytes.
abbrev pub ShortWaits : ℕ → System → Type 0
ShortWaits n s = (i k : ℕ) (p : Text) → i < n → s.pc i ≡ waiting p k → length p < filepath_max

-- The states that the threads reach while they take the locks of such paths only
pub data Reach (n : ℕ) : System → Type 0 where
  start : Reach n init
  later : {s t : System} → Reach n s → Step n s t → ShortWaits n t → Reach n t
