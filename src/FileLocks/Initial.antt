-- ===== src/FileLocks/Initial.antt =====
-- The table that `file_lock_table_init` returns.
use mathlib.Core.Bool.{false≢true}
use client_worker_thread_poo.Base.{
  ℕ, zero, suc, ◌≡◌, refl, sym, ap, ◌∙◌, some, arith, get_elem?, get_elem?-replicate,
  length-replicate, replicate,
}
use client_worker_thread_poo.FileLocks.Defs.{
  FileLock, max_file_locks, file_lock_table_init, free_lock,
}
use client_worker_thread_poo.FileLocks.Table.{IsSlot, IsTable, used_count}

free_locks-used : (m : ℕ) → used_count (replicate m free_lock) ≡ 0
unfolding used_count
free_locks-used zero = refl
free_locks-used (suc m) = omega (arith, free_locks-used m)

pub free_lock-at :
    (m k : ℕ) (l : FileLock) → get_elem? (replicate m free_lock) k ≡ some l → l ≡ free_lock
free_lock-at m k l e = sym (get_elem?-replicate m free_lock k l e)

free_lock-IsSlot : IsSlot free_lock
free_lock-IsSlot = record {
  used = λ u. cc;
  unused = λ u. refl;
  word = omega arith;
  clipped = omega arith;
}

-- The table that `file_lock_table_init` returns is well formed.
pub init-IsTable : IsTable file_lock_table_init
unfolding file_lock_table_init
init-IsTable = record {
  capacity = length-replicate max_file_locks free_lock;
  slots = λ k l e. rw (free_lock-at max_file_locks k l e) free_lock-IsSlot;
  unique = λ i j l k e f u w same.
      absurd (
        false≢true (ap (λ (x : FileLock). x.in_use) (sym (free_lock-at max_file_locks i l e)) ∙ u));
  counted = sym (free_locks-used max_file_locks);
}
