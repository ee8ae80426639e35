-- ===== src/Server/Turns.antt =====
-- A worker that runs task after task over the real quota functions and locks.
use client_worker_thread_poo.Base.{
  ℕ, ◌<◌, ◌≡◌, refl, ap, subst, ◌⊎◌, inl, inr, Option, none, some, List, [], ◌∷◌, Text, length,
  ◌>>=◌,
}
use client_worker_thread_poo.FileLocks.Defs.{filepath_max}
use client_worker_thread_poo.Storage.Sqlite.{Sqlite, IsSqlite}
use client_worker_thread_poo.Storage.Works.{Works}
use client_worker_thread_poo.Task.Defs.{
  Cmd, upload, download, delete, list, unknown, Task, filepath, execute_download, execute_list,
  run_cmd, execute_task,
}
use client_worker_thread_poo.Task.Locks.{Outcome, execute_task-Outcome}
use client_worker_thread_poo.Server.Os.{Os, IsOs, TakesAll}
use client_worker_thread_poo.Server.Defs.{Shared, services, run_tasks}
use client_worker_thread_poo.Server.Lawful.{Free, services-IsServices, free-Held, held-Free}
use client_worker_thread_poo.Server.Sizes.{Distinct}
use client_worker_thread_poo.Server.Changed.{execute_upload-Changed}
use client_worker_thread_poo.Server.Deleted.{execute_delete-Changed}
use client_worker_thread_poo.Server.Reading.{SameIn, execute_download-Same, execute_list-SameIn}
use client_worker_thread_poo.Server.Quota.{
  IsPlaced, changes_files, InStep, Changed-Charged, unchanged-Charged,
}

abbrev pub Each : (Task → Type 0) → List Task → Type 0
Each P [] = Unit {0}
Each P (k ∷ ks) = P k × Each P ks

abbrev pub HasList : List Task → Type 0
HasList [] = ⊥
HasList (k ∷ ks) = (k.cmd ≡ list) ⊎ HasList ks

-- The path of its file has less than 512 bytes.
abbrev pub IsShort : Task → Type 0
IsShort k = length (filepath k) < filepath_max

module _ (db : Sqlite) (os : Os) where
  -- The tasks were run and `P` holds, or memory was overrun, for which there was a LIST.
  abbrev pub Ended : List Task → (Shared db os → Type 0) → Option (Shared db os) → Type 0
  Ended ks P none = HasList ks
  Ended ks P (some w) = P w

  Ended-cons :
      (k : Task) (ks : List Task) (P : Shared db os → Type 0) (o : Option (Shared db os))
      → Ended ks P o
      → Ended (k ∷ ks) P o
  Ended-cons k ks P none h = inr h
  Ended-cons k ks P (some w) h = h

  module _ (P : Shared db os → Type 0) (Good : Task → Type 0)
      (keeps : (k : Task) (w : Shared db os) (r : Task × Shared db os)
        → Good k
        → P w
        → execute_task (services db os) k w ≡ some r
        → P r.1)
      (only_list : (k : Task) (w : Shared db os)
        → Good k
        → P w
        → execute_task (services db os) k w ≡ none
        → k.cmd ≡ list) where
    -- What every task keeps, a list of tasks keeps.
    run_tasks-Ended :
        (ks : List Task) (w : Shared db os)
        → Each Good ks
        → P w
        → Ended ks P (run_tasks (services db os) ks w)
    unfolding run_tasks
    run_tasks-Ended [] w g p = p
    run_tasks-Ended (k ∷ ks) w (g, gs) p =
        after (execute_task (services db os) k w) refl (λ u. run_tasks-Ended ks u gs)
      where
        after :
            (o : Option (Task × Shared db os))
            → execute_task (services db os) k w ≡ o
            → ((u : Shared db os) → P u → Ended ks P (run_tasks (services db os) ks u))
            → Ended (k ∷ ks) P (o >>= λ r. run_tasks (services db os) ks r.1)
        after none e rest = inl (only_list k w g p e)
        after (some r) e rest = Ended-cons k ks P _ (rest r.1 (keeps k w r g p e))

module _ (db : Sqlite) (os : Os) (law' : IsOs os) where
  outcome :
      (k : Task) (w : Shared db os)
      → IsShort k
      → Free db os w
      → Outcome
          (services db os)
          (services-IsServices db os law')
          k.cmd
          (execute_task (services db os) k w)
  outcome k w short free =
      execute_task-Outcome (services db os) (services-IsServices db os law') k w short
        (free-Held db os law' w free)

  task-Free :
      (k : Task) (w : Shared db os) (r : Task × Shared db os)
      → IsShort k
      → Free db os w
      → execute_task (services db os) k w ≡ some r
      → Free db os r.1
  task-Free k w r short free e =
      held-Free db os law' r.1
        (subst
          (λ (o : Option (Task × Shared db os)).
            Outcome (services db os) (services-IsServices db os law') k.cmd o)
          e (outcome k w short free)).0

  task_only_list :
      (k : Task) (w : Shared db os)
      → IsShort k
      → Free db os w
      → execute_task (services db os) k w ≡ none
      → k.cmd ≡ list
  task_only_list k w short free e =
      subst
        (λ (o : Option (Task × Shared db os)).
          Outcome (services db os) (services-IsServices db os law') k.cmd o)
        e (outcome k w short free)

  -- A worker that runs task after task while no other thread uses the locks, over the real
  -- `acquire_file_lock` and `release_file_lock` and whatever fails of SQLite, files and memory, for
  -- paths of less than 512 bytes: if at the beginning none of the 1024 slots of the lock table is in
  -- use, locked or referenced, and its count is 0, the worker never waits for a lock, and after all
  -- tasks the same holds of the table. Only for a LIST among the tasks can memory be overrun before
  -- that.
  pub run_tasks-Free :
      (ks : List Task) (w : Shared db os)
      → Each IsShort ks
      → Free db os w
      → Ended db os ks (Free db os) (run_tasks (services db os) ks w)
  run_tasks-Free = run_tasks-Ended db os (Free db os) IsShort task-Free task_only_list

  module _ (law : IsSqlite db) (works : Works db) (full : TakesAll os) (own : ℕ → List Text)
      (distinct : (user : ℕ) → Distinct (own user)) where
    ChargedIn : Option (Task × Shared db os) → Type 0
    ChargedIn none = Unit {0}
    ChargedIn (some r) = InStep db law os law' own distinct r.1

    reads :
        (w : Shared db os) (o : Option (Task × Shared db os))
        → InStep db law os law' own distinct w
        → SameIn db law os law' w o
        → ChargedIn o
    unfolding ChargedIn
    reads w none h s = tt
    reads w (some r) h (a, e) =
        unchanged-Charged db law os law' own distinct _ _ _ _ a (λ g. ap (λ x. x g) e) h

    run_cmd-ChargedIn :
        (c : Cmd) (k : Task) (w : Shared db os)
        → IsPlaced law'.resolve own k
        → InStep db law os law' own distinct w
        → k.cmd ≡ c
        → ChargedIn (run_cmd (services db os) c k w)
    unfolding run_cmd ChargedIn
    run_cmd-ChargedIn upload k w p h e =
        Changed-Charged db law os law' own distinct _ _ _ k.gahak.user_id _ h
          (p.own_file (ap changes_files e)) (λ u. p.no_other u (ap changes_files e))
          (execute_upload-Changed db law os law' works full k w p.whole p.bounded)
    run_cmd-ChargedIn delete k w p h e =
        Changed-Charged db law os law' own distinct _ _ _ k.gahak.user_id _ h
          (p.own_file (ap changes_files e)) (λ u. p.no_other u (ap changes_files e))
          (execute_delete-Changed db law os law' works full k w)
    run_cmd-ChargedIn download k w p h e =
        reads w (some (execute_download (services db os) k w)) h
          (execute_download-Same db law os law' k w)
    run_cmd-ChargedIn list k w p h e =
        reads w (execute_list (services db os) k w) h (execute_list-SameIn db law os law' k w)
    run_cmd-ChargedIn unknown k w p h e = h

    task-Kept :
        (k : Task) (w : Shared db os) (r : Task × Shared db os)
        → IsShort k × IsPlaced law'.resolve own k
        → Free db os w × InStep db law os law' own distinct w
        → execute_task (services db os) k w ≡ some r
        → Free db os r.1 × InStep db law os law' own distinct r.1
    unfolding ChargedIn execute_task
    task-Kept k w r (short, placed) (free, h) e = (
      task-Free k w r short free e,
      subst ChargedIn e (run_cmd-ChargedIn k.cmd k w placed h refl),
    )

    -- The used space that is charged stays the space that is taken. One worker runs task after task
    -- over the real functions of storage.c and file_locks.c, where no call of SQLite fails and the
    -- disk takes all that is written, `fclose` included; opening, unlinking, reading and `malloc` may fail. Each user
    -- has its own list of distinct files; a task that uploads or deletes leads to one of its user's
    -- files and of no other user; all paths have less than 512 bytes, and the length that comes with
    -- a payload is its length, below 2 ^ 63 as that of any object in memory. If at the beginning no lock is in use, and for every user with a row
    -- in the table `quotas` the used space is the total size of the user's files and within the
    -- quota, which is in the range of SQLite's integers, then all that holds after all tasks. Only
    -- for a LIST among the tasks can memory be overrun before that.
    pub run_tasks-InStep :
        (ks : List Task) (w : Shared db os)
        → Each (λ k. IsShort k × IsPlaced law'.resolve own k) ks
        → Free db os w × InStep db law os law' own distinct w
        → Ended db os ks
            (λ u. Free db os u × InStep db law os law' own distinct u)
            (run_tasks (services db os) ks w)
    run_tasks-InStep =
        run_tasks-Ended db os (λ u. Free db os u × InStep db law os law' own distinct u)
          (λ k. IsShort k × IsPlaced law'.resolve own k) task-Kept
          (λ k w (short, _) (free, _). task_only_list k w short free)
