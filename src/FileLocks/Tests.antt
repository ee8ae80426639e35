-- ===== src/FileLocks/Tests.antt =====
-- file_locks.c at concrete tables: runs by evaluation, and the theorems at states where their
-- hypotheses hold.
use client_worker_thread_poo.Base.{
  ℕ, ◌<◌, ◌≡◌, refl, true, not, ◌==◌, Option, none, some, arith, Text, codes, str_eq, replicate,
  length, get_elem?, inc32, Bool-cases, inl, inr,
}
use client_worker_thread_poo.FileLocks.Defs.{
  FileLock, FileLockTable, file_lock_table_init, max_file_locks, filepath_max, find_lock_slot,
  find_path, find_free, clip, claim, count_claim, acquire_slot, lock_slot, release_file_lock,
}
use client_worker_thread_poo.FileLocks.Table.{IsTable, Countable, acquire_slot-IsTable}
use client_worker_thread_poo.FileLocks.Initial.{init-IsTable, free_lock-at}
use client_worker_thread_poo.FileLocks.Refs.{
  refs, refs_in, refs-acquire_slot, refs-release_file_lock,
}
use client_worker_thread_poo.FileLocks.LongPath.{long_path_never_released}
use client_worker_thread_poo.FileLocks.Lifetime.{nothing, init_table, Lifetime, init_table-Lifetime}
use client_worker_thread_poo.FileLocks.Threads.{System, Reach, start, later, request, enter, init}
use client_worker_thread_poo.FileLocks.Threads.Counts.{Pc, idle, waiting, holding}
use client_worker_thread_poo.FileLocks.Threads.Safety.{
  mutual_exclusion, waiting_progress, slots_returned,
}
use client_worker_thread_poo.Base.Family.{update}

abbrev file : Text
file = codes "ann1/notes"

-- the table after the first request for `file`, and once its mutex is held
abbrev asked : FileLockTable
asked = (acquire_slot file_lock_table_init file).1

abbrev or_else : Option FileLockTable → FileLockTable → FileLockTable
or_else none t = t
or_else (some u) t = u

abbrev taken : FileLockTable
taken = or_else (lock_slot asked 0) asked

init-Countable : Countable file_lock_table_init
unfolding file_lock_table_init
init-Countable i l e = rw (free_lock-at max_file_locks i l e) (omega arith)

first_slot : (acquire_slot file_lock_table_init file).0 ≡ some 0
unfolding acquire_slot file_lock_table_init find_lock_slot find_path find_free
first_slot = refl

second_reference : refs (acquire_slot asked file).1 file ≡ 2
unfolding acquire_slot file_lock_table_init find_lock_slot find_path find_free refs refs_in claim
    count_claim clip str_eq inc32
second_reference = refl

asked-IsTable : IsTable asked
asked-IsTable =
    acquire_slot-IsTable file_lock_table_init file (omega arith) init-IsTable init-Countable

refs-acquire_slot_example : refs asked file ≡ 1
unfolding refs refs_in file_lock_table_init str_eq
refs-acquire_slot_example =
    refs-acquire_slot file_lock_table_init file init-IsTable file 0 (omega arith) init-Countable
      first_slot

refs-release_file_lock_example : refs (release_file_lock asked file) file ≡ 0
unfolding refs refs_in file_lock_table_init str_eq acquire_slot find_lock_slot find_path find_free
    claim count_claim clip inc32
refs-release_file_lock_example = refs-release_file_lock asked file asked-IsTable file

-- 600 bytes do not fit a slot.
abbrev long_file : Text
long_file = replicate 600 b'a'

abbrev long_asked : FileLockTable
long_asked = (acquire_slot file_lock_table_init long_file).1

abbrev long_taken : FileLockTable
long_taken = or_else (lock_slot long_asked 0) long_asked

init-clipped :
    (i : ℕ) (l : FileLock)
    → get_elem? file_lock_table_init.locks i ≡ some l
    → length l.filepath < 512
unfolding file_lock_table_init
init-clipped i l e = rw (free_lock-at max_file_locks i l e) (omega arith)

long_slot : acquire_slot file_lock_table_init long_file ≡ (some 0, long_asked)
unfolding acquire_slot file_lock_table_init find_lock_slot find_path find_free
long_slot = refl

long_locked : lock_slot long_asked 0 ≡ some long_taken
unfolding acquire_slot file_lock_table_init find_lock_slot find_path find_free lock_slot claim
long_locked = refl

long_path_never_released_example :
    ((l : FileLock) × (get_elem? long_taken.locks 0 ≡ some l) × (l.in_use ≡ true) × (l.lock ≡ true))
    × (release_file_lock long_taken long_file ≡ long_taken)
long_path_never_released_example =
    long_path_never_released file_lock_table_init long_asked long_taken long_file 0 init-clipped
      (omega arith) long_slot long_locked

long_again : acquire_slot long_taken long_file ≡ (some 1, (acquire_slot long_taken long_file).1)
unfolding acquire_slot file_lock_table_init find_lock_slot find_path find_free lock_slot claim
    count_claim clip inc32 str_eq
long_again = refl

-- Two threads: thread 0 is inside, thread 1 waits for it.
abbrev one_inside : System
one_inside = record {
  table = taken;
  pc = update (update (λ _. idle) 0 (waiting file 0)) 0 (holding file 0);
}

abbrev asked_twice : FileLockTable
asked_twice = (acquire_slot taken file).1

abbrev one_waits : System
one_waits = record { table = asked_twice; pc = update one_inside.pc 1 (waiting file 0) }

-- whatever the threads wait for is `file`
abbrev IsShortWait : Pc → Type 0
IsShortWait q = (k : ℕ) (p : Text) → q ≡ waiting p k → length p < filepath_max

file-IsShortWait : (m : ℕ) → IsShortWait (waiting file m)
file-IsShortWait m k p e = let same : p ≡ file = cc in rw same (omega arith)

update-IsShortWait :
    (f : ℕ → Pc) (i : ℕ) (q : Pc)
    → IsShortWait q
    → ((j : ℕ) → IsShortWait (f j))
    → (j : ℕ) → IsShortWait (update f i q j)
update-IsShortWait f i q new old j = elim (Bool-cases (i == j)) [
  | inl hit ↦ rw hit new
  | inr miss ↦ rw miss (old j)
]

-- no thread, one that waits, and one that holds
none_wait : (j : ℕ) → IsShortWait (init.pc j)
unfolding init
none_wait j k p e = cc

first_waits : (j : ℕ) → IsShortWait (update init.pc 0 (waiting file 0) j)
first_waits = update-IsShortWait init.pc 0 (waiting file 0) (file-IsShortWait 0) none_wait

first_holds :
    (j : ℕ) → IsShortWait (update (update init.pc 0 (waiting file 0)) 0 (holding file 0) j)
first_holds = update-IsShortWait _ 0 (holding file 0) (λ k p e. cc) first_waits

one_waits-Reach : Reach 2 one_waits
unfolding init file_lock_table_init acquire_slot find_lock_slot find_path find_free claim
    count_claim clip inc32 lock_slot str_eq
one_waits-Reach =
    later
      (later
        (later start (request 0 0 file asked (omega arith) refl refl)
          (λ i k p _. first_waits i k p))
        (enter 0 0 file taken (omega arith) refl refl) (λ i k p _. first_holds i k p))
      (request 1 0 file asked_twice (omega arith) refl refl)
      (λ i k p _. update-IsShortWait _ 1 (waiting file 0) (file-IsShortWait 0) first_holds i k p)

mutual_exclusion_example : ◌≡◌ {A = ℕ} 0 0
mutual_exclusion_example =
    mutual_exclusion 2 one_waits (omega arith) one_waits-Reach 0 0 0 0 file (omega arith)
      (omega arith) refl refl

waiting_progress_example : (j : ℕ) × (j < 2) × (one_waits.pc j ≡ holding file 0)
unfolding file_lock_table_init acquire_slot find_lock_slot find_path find_free claim count_claim
    clip inc32 lock_slot str_eq
waiting_progress_example =
    waiting_progress 2 one_waits (omega arith) one_waits-Reach 1 0 file (omega arith) refl refl

slots_returned_example : (init.table.count ≡ 0) × ((q : Text) → refs init.table q ≡ 0)
unfolding init
slots_returned_example = slots_returned 2 init (omega arith) start (λ i. refl)

-- The fourth mutex cannot be made.
abbrev dirty : ℕ → FileLock
dirty i = record { filepath = file; lock = true; ref_count = 7; in_use = true }

init_table-Lifetime_example : Lifetime (init_table dirty true true (λ i. not (i == 3)) nothing)
init_table-Lifetime_example = init_table-Lifetime dirty true true (λ i. not (i == 3))
