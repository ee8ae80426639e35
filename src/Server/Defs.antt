-- ===== src/Server/Defs.antt =====
-- What `execute_task` calls, from the functions of storage.c and file_locks.c.
use client_worker_thread_poo.Base.{
  ℕ, Bool, true, false, Option, none, some, List, [], ◌∷◌, Text, ◌>>=◌,
}
use client_worker_thread_poo.Task.Defs.{Task, execute_task}
use client_worker_thread_poo.FileLocks.Defs.{
  FileLockTable, acquire_slot, lock_slot, release_file_lock,
}
use client_worker_thread_poo.Storage.Sqlite.{Sqlite}
use client_worker_thread_poo.Storage.Defs.{
  check_quota, get_user_quota, get_used_space, update_used_space,
}
use client_worker_thread_poo.Task.Services.{Services}
use client_worker_thread_poo.Server.Os.{Os}

module _ (db : Sqlite) (os : Os) where
  -- What the threads share. `waiting` says that the worker waits for the mutex of a slot that no one
  -- else gives back: what follows in the code does not happen then.
  pub record Shared : Type 0 where
    pub accounts : db.State
    pub table : FileLockTable
    pub disk : os.State
    pub waiting : Bool

  abbrev with_data : {A : Type 0} → A × db.State → Shared → A × Shared
  with_data (a, s) w = (a, record w { accounts = s })

  abbrev with_disk : {A : Type 0} → A × os.State → Shared → A × Shared
  with_disk (a, s) w = (a, record w { disk = s })

  -- `pthread_mutex_lock(&file_lock->lock)` at the end of `acquire_file_lock`
  unfoldable pub lock_or_wait : Option FileLockTable → Shared → Bool × Shared
  lock_or_wait none w = (true, record w { waiting = true })
  lock_or_wait (some t) w = (true, record w { table = t })

  -- The rest of it, where a slot was found or not
  unfoldable pub lock_found : Option ℕ × FileLockTable → Shared → Bool × Shared
  lock_found (none, t) w = (false, record w { table = t })
  lock_found (some i, t) w = lock_or_wait (lock_slot t i) (record w { table = t })

  unfoldable pub acquire_file_lock : Text → Shared → Bool × Shared
  acquire_file_lock p w = lock_found (acquire_slot w.table p) w

  abbrev pub services : Services
  services = record {
    World = Shared;
    check_quota = λ i z w. with_data (check_quota db i z w.accounts) w;
    get_user_quota = λ i w. with_data (get_user_quota db i w.accounts) w;
    get_used_space = λ i w. with_data (get_used_space db i w.accounts) w;
    update_used_space = λ i d w. with_data (update_used_space db i d w.accounts) w;
    acquire_file_lock = acquire_file_lock;
    release_file_lock = λ p w. record w { table = release_file_lock w.table p };
    stat = λ p w. with_disk (os.stat p w.disk) w;
    open_write = λ p w. with_disk (os.open_write p w.disk) w;
    write = λ p b w. with_disk (os.write p b w.disk) w;
    close_write = λ p w. with_disk (os.close_write p w.disk) w;
    open_read = λ p w. with_disk (os.open_read p w.disk) w;
    size = λ p w. with_disk (os.size p w.disk) w;
    read = λ p n w. with_disk (os.read p n w.disk) w;
    close = λ p w. record w { disk = os.close p w.disk };
    malloc = λ n w. with_disk (os.malloc n w.disk) w;
    unlink = λ p w. with_disk (os.unlink p w.disk) w;
    list_dir = λ p w. with_disk (os.list_dir p w.disk) w;
  }

-- The tasks that one worker takes from the queue, one after the other; what it answers is left out.
-- `none` is an overrun of memory.
unfoldable pub run_tasks : (srv : Services) → List Task → srv.World → Option srv.World
run_tasks srv [] w = some w
run_tasks srv (k ∷ ks) w = execute_task srv k w >>= λ r. run_tasks srv ks r.1
