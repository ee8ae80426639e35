-- ===== src/FileLocks/Defs.antt =====
-- The table of file_locks.c and its operations.
use client_worker_thread_poo.Base.{
  ℕ, suc, Bool, true, false, not, ◌&&◌, Option, none, some, List, [], ◌∷◌, Text, str_eq, take,
  replicate, get_elem?, set, inc32, dec32, ◌==◌, if◌then◌else◌,
}

-- MAX_FILE_LOCKS and FILEPATH_MAX
abbrev pub max_file_locks : ℕ
max_file_locks = 1024

abbrev pub filepath_max : ℕ
filepath_max = 512

-- `lock` says whether the slot's mutex is held; `ref_count` is the bit pattern of the C int.
pub record FileLock : Type 0 where
  pub filepath : Text
  pub lock : Bool
  pub ref_count : ℕ
  pub in_use : Bool

pub record FileLockTable : Type 0 where
  pub locks : List FileLock
  pub count : ℕ

abbrev pub free_lock : FileLock
free_lock = record { filepath = []; lock = false; ref_count = 0; in_use = false }

-- What `file_lock_table_init` returns when every allocation and mutex succeeds.
unfoldable pub file_lock_table_init : FileLockTable
file_lock_table_init = record { locks = replicate max_file_locks free_lock; count = 0 }

abbrev pub holds_path : Text → FileLock → Bool
holds_path p l = l.in_use && str_eq l.filepath p

-- The first loop of `find_lock_slot`, from index `i` on.
unfoldable pub find_path : Text → ℕ → List FileLock → Option ℕ
find_path p i [] = none
find_path p i (l ∷ ls) = if holds_path p l then some i else find_path p (suc i) ls

-- The second loop.
unfoldable pub find_free : ℕ → List FileLock → Option ℕ
find_free i [] = none
find_free i (l ∷ ls) = if not l.in_use then some i else find_free (suc i) ls

-- `none` stands for -1.
unfoldable pub find_lock_slot : FileLockTable → Text → Bool → Option ℕ
find_lock_slot t p create = elim (find_path p 0 t.locks) [
  | some i ↦ some i
  | none ↦ if create then find_free 0 t.locks else none
]

-- `strncpy` into the array of FILEPATH_MAX bytes, the last one set to zero.
unfoldable pub clip : Text → Text
clip p = take 511 p

-- What `acquire_file_lock` makes of the slot that it found, up to `ref_count++`.
unfoldable pub claim : Text → FileLock → FileLock
claim p l =
    if l.in_use
    then record l { ref_count = inc32 l.ref_count }
    else record l { filepath = clip p; ref_count = inc32 0; in_use = true }

-- `table->count` after that.
unfoldable pub count_claim : ℕ → FileLock → ℕ
count_claim n l = if l.in_use then n else inc32 n

-- `acquire_file_lock` up to the release of `table_lock`: the slot, or `none` if the table is full.
unfoldable pub acquire_slot : FileLockTable → Text → Option ℕ × FileLockTable
acquire_slot t p = elim (find_lock_slot t p true) [
  | none ↦ (none, t)
  | some i ↦ elim (get_elem? t.locks i) [
    | none ↦ (none, t)
    | some l ↦ (some i, record { locks = set t.locks i (claim p l); count = count_claim t.count l })
  ]
]

-- `pthread_mutex_lock(&file_lock->lock)`: `none` while another thread holds it.
unfoldable pub lock_slot : FileLockTable → ℕ → Option FileLockTable
lock_slot t i = elim (get_elem? t.locks i) [
  | none ↦ none
  | some l ↦
      if l.lock then none else some (record t { locks = set t.locks i (record l { lock = true }) })
]

-- What `release_file_lock` makes of the slot that it found.
unfoldable pub drop_ref : FileLock → FileLock
drop_ref l =
    if dec32 l.ref_count == 0
    then record { filepath = []; lock = false; ref_count = dec32 l.ref_count; in_use = false }
    else record l { lock = false; ref_count = dec32 l.ref_count }

unfoldable pub count_drop : ℕ → FileLock → ℕ
count_drop n l = if dec32 l.ref_count == 0 then dec32 n else n

-- `release_file_lock`, which holds `table_lock` throughout. A path with no slot changes nothing.
unfoldable pub release_file_lock : FileLockTable → Text → FileLockTable
release_file_lock t p = elim (find_lock_slot t p false) [
  | none ↦ t
  | some i ↦ elim (get_elem? t.locks i) [
    | none ↦ t
    | some l ↦ record { locks = set t.locks i (drop_ref l); count = count_drop t.count l }
  ]
]
