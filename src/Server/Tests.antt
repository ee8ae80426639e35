-- ===== src/Server/Tests.antt =====
-- The server with real parts at concrete tasks.
use client_worker_thread_poo.Base.{
  ℕ, ◌≡◌, ◌≢◌, ◌+◌, ◌<◌, ◌++◌, Bool, subst, refl, sym, ap, ◌∙◌, inl, inr, false, true, Option, none,
  some, some_inj, List, [], ◌∷◌, arith, Text, codes, length, take, drop, str_eq, Bool-cases, ◌==◌,
  if◌then◌else◌,
}
use client_worker_thread_poo.Base.Int.{pos, -ℤ_parts}
use client_worker_thread_poo.FileLocks.Defs.{
  filepath_max, file_lock_table_init, acquire_slot, lock_slot, find_lock_slot, find_path, find_free,
  claim, clip,
}
use client_worker_thread_poo.FileLocks.Alone.{init-AllFree}
use client_worker_thread_poo.Storage.Sqlite.{Quota, Tables, Column, error}
use client_worker_thread_poo.Storage.Memory.{File, memory, memory-IsSqlite, memory-tables, read}
use client_worker_thread_poo.Storage.Works.{Works}
use client_worker_thread_poo.Task.Defs.{
  Cmd, upload, download, delete, Task, user_dir, filepath, execute_upload, execute_download,
  execute_delete, delete_locked,
}
use client_worker_thread_poo.Utility.Decimal.{decimal, decimal_loop}
use client_worker_thread_poo.Task.Disk.{task_of, task_of-path, task_of_short}
use client_worker_thread_poo.Server.Os.{Os}
use client_worker_thread_poo.Server.Defs.{
  Shared, services, run_tasks, acquire_file_lock, lock_found, lock_or_wait,
}
use client_worker_thread_poo.Server.Lawful.{Free}
use client_worker_thread_poo.Server.Sizes.{total_nothing, Distinct}
use client_worker_thread_poo.Server.Quota.{IsPlaced, InStep, Counts}
use client_worker_thread_poo.Server.Memory.{
  memory_os, memory_os-IsOs, memory_os-resolve, memory_os-files, memory_os-OsWorks,
}
use client_worker_thread_poo.Server.Traversal.{folder, delete_of_another}
use client_worker_thread_poo.Server.Changed.{tables_of, Fits}
use client_worker_thread_poo.Server.RoundTrip.{upload-download}
use client_worker_thread_poo.Server.Turns.{Ended, run_tasks-Free, run_tasks-InStep}

abbrev plain_path : Text → Text
plain_path p = p

abbrev os : Os
os = memory_os plain_path

-- The user 7 has a quota of 1000 bytes and no files.
abbrev row_of_seven : Quota
row_of_seven = record { quota_bytes = pos 1000; used_bytes = pos 0 }

abbrev accounts : File
accounts = record {
  now = record {
    names = [];
    quotas = λ i. elim i [ pos n ↦ if n == 7 then some row_of_seven else none | _ ↦ none ];
  };
  at_begin = none;
}

abbrev start : Shared memory os
start = record {
  accounts = accounts;
  table = file_lock_table_init;
  disk = λ _. none;
  waiting = false;
}

abbrev tasks : List Task
tasks = task_of upload ∷ task_of download ∷ task_of delete ∷ []

start-Free : Free memory os start
start-Free = (refl, init-AllFree)

run_tasks-Free_example :
    Ended memory os tasks (Free memory os) (run_tasks (services memory os) tasks start)
run_tasks-Free_example =
    run_tasks-Free memory os (memory_os-IsOs plain_path) tasks start
      (task_of_short upload, (task_of_short download, (task_of_short delete, tt))) start-Free

abbrev own : ℕ → List Text
own n = if n == 7 then codes "ann7/notes" ∷ [] else []

own-Distinct : (n : ℕ) → Distinct (own n)
own-Distinct n = elim (Bool-cases (n == 7)) [
  | inl seven ↦ rw seven (tt, tt)
  | inr other ↦ rw other tt
]

seven_or_none :
    (b : Bool) (user : ℕ) (q : Quota)
    → (if b then some row_of_seven else none) ≡ some q
    → Counts (own user) (λ _. none) q
seven_or_none true user q at =
    subst (Counts (own user) (λ _. none)) (some_inj at)
      (rw (total_nothing (own user)) (refl, omega arith, (omega arith, omega arith)))
seven_or_none false user q at = cc

start-InStep : InStep memory memory-IsSqlite os (memory_os-IsOs plain_path) own own-Distinct start
start-InStep user q at = rw (memory_os-files plain_path (λ _. none)) (
    seven_or_none (user == 7) user q
      (sym (ap (λ (t : Tables). t.quotas (pos user)) (memory-tables accounts)) ∙ at))

placed : (c : Cmd) → IsPlaced (memory_os-IsOs plain_path).resolve own (task_of c)
placed c = record {
  own_file = λ h. inl (memory_os-resolve plain_path (filepath (task_of c)) ∙ task_of-path c);
  no_other = λ u h ne. elim (Bool-cases (u == 7)) [
    | inl same ↦ absurd (ne (ground arith))
    | inr other ↦ rw other tt
  ];
  whole = refl;
  bounded = omega arith;
}

read_ne : {A : Type 0} (o : Option A) (f : A → Column) → read o f ≢ error
read_ne none f e = cc
read_ne (some a) f e = cc

memory-Works : Works memory
memory-Works = record {
  opens = λ s. refl;
  prepares = λ st s. refl;
  steps_quota = λ i s. read_ne (s.now.quotas i) _;
  steps_used = λ i s. read_ne (s.now.quotas i) _;
  steps_update = λ i d s e. cc;
  commits = λ s. refl;
}

run_tasks-InStep_example :
    Ended memory os tasks
      (λ u.
        Free memory os u
        × InStep memory memory-IsSqlite os (memory_os-IsOs plain_path) own own-Distinct u)
      (run_tasks (services memory os) tasks start)
run_tasks-InStep_example =
    run_tasks-InStep memory os (memory_os-IsOs plain_path) memory-IsSqlite memory-Works
      (λ p b s. (refl, refl)) own own-Distinct tasks start
      (
        (task_of_short upload, placed upload),
        ((task_of_short download, placed download), ((task_of_short delete, placed delete), tt)),
      )
      (start-Free, start-InStep)

-- The user bob with the id 8, whose folder is `bob8`, sends DELETE with the name of a file of ann.
abbrev out_of_bob : Text → Text
out_of_bob p = if str_eq (take 8 p) (codes "bob8/../") then drop 8 p else p

abbrev bob_task : Task
bob_task = record (task_of delete) {
  gahak = record { user_id = 8; username = codes "bob" };
  filename = codes "../ann7/notes";
}

abbrev stored : Shared memory (memory_os out_of_bob)
stored = record {
  accounts = accounts;
  table = file_lock_table_init;
  disk = λ f. if str_eq f (codes "ann7/notes") then some (codes "hello") else none;
  waiting = false;
}

bob_path : filepath bob_task ≡ codes "bob8/../ann7/notes"
unfolding filepath user_dir decimal decimal_loop
bob_path = refl

bob-Free : Free memory (memory_os out_of_bob) stored
bob-Free = (refl, init-AllFree)

bob_locks : (acquire_file_lock memory (memory_os out_of_bob) (filepath bob_task) stored).0 ≡ true
unfolding acquire_file_lock lock_found lock_or_wait acquire_slot lock_slot find_lock_slot find_path
    find_free claim clip file_lock_table_init filepath user_dir decimal decimal_loop
bob_locks = refl

bob_succeeds :
    (execute_delete (services memory (memory_os out_of_bob)) bob_task stored).0.status ≡ pos 0
unfolding execute_delete delete_locked acquire_file_lock lock_found lock_or_wait acquire_slot
    lock_slot find_lock_slot find_path find_free claim clip file_lock_table_init filepath user_dir
    decimal decimal_loop str_eq
bob_succeeds = refl

bob_short : length (folder bob_task.gahak) + length (filepath (task_of download)) + 4 < filepath_max
unfolding decimal decimal_loop
bob_short = rw (task_of-path download) (omega arith)

bob_up :
    (memory_os-IsOs out_of_bob).resolve
      (folder bob_task.gahak ++ (codes "/../" ++ filepath (task_of download)))
    ≡ (memory_os-IsOs out_of_bob).resolve (filepath (task_of download))
unfolding decimal decimal_loop str_eq
bob_up = rw (task_of-path download) (
    memory_os-resolve out_of_bob (codes "bob8/../ann7/notes")
    ∙ sym (memory_os-resolve out_of_bob (codes "ann7/notes")))

delete_of_another_example :
    (memory_os-IsOs out_of_bob).files
      (execute_delete (services memory (memory_os out_of_bob)) bob_task stored).1.disk
      ((memory_os-IsOs out_of_bob).resolve (filepath (task_of download)))
    ≡ none
delete_of_another_example =
    delete_of_another memory (memory_os out_of_bob) (memory_os-IsOs out_of_bob) bob_task
      (task_of download) stored (ap (λ p. codes "../" ++ p) (sym (task_of-path download))) bob_short
      bob_up bob-Free bob_succeeds

-- The row of user 7 at the start
start_row :
    (tables_of memory memory-IsSqlite os (memory_os-IsOs plain_path) start).quotas (pos 7)
    ≡ some row_of_seven
start_row = ap (λ (t : Tables). t.quotas (pos 7)) (memory-tables accounts)

start-Fits : Fits 5 (pos 7) (tables_of memory memory-IsSqlite os (memory_os-IsOs plain_path) start)
start-Fits = rw start_row (omega (arith, -ℤ_parts (pos 1000) (pos 0)))

upload-download_example :
    ((execute_upload (services memory os) (task_of upload) start).0.status ≡ pos 0)
    × (let after = (execute_upload (services memory os) (task_of upload) start).1 in
        ((execute_download (services memory os) (task_of download) after).0.status ≡ pos 0)
        × ((execute_download (services memory os) (task_of download) after).0.resp ≡ codes "hello"))
upload-download_example =
    upload-download memory memory-IsSqlite memory-Works os (memory_os-IsOs plain_path)
      (memory_os-OsWorks plain_path) (task_of upload) (task_of download) (codes "hello") start refl
      refl (task_of-path download ∙ sym (task_of-path upload)) (task_of_short upload)
      (rw start_row (omega arith)) (rw start_row (omega arith)) start-Fits start-Free
