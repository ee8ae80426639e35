-- ===== src/FileLocks/Print.antt =====
-- `file_lock_table_print`.
use client_worker_thread_poo.Base.{
  ℕ, suc, ◌≡◌, refl, List, [], ◌∷◌, arith, Text, length, if◌then◌else◌,
}
use client_worker_thread_poo.FileLocks.Defs.{FileLock, FileLockTable}
use client_worker_thread_poo.FileLocks.Table.{IsTable, used_count}

-- A line: the number of the slot, its path and its references
pub record LockLine : Type 0 where
  pub slot : ℕ
  pub filepath : Text
  pub ref_count : ℕ

-- The loop, from slot `i` on
unfoldable pub print_slots : ℕ → List FileLock → List LockLine
print_slots i [] = []
print_slots i (l ∷ ls) =
    let rest = print_slots (suc i) ls in
    if l.in_use
    then record { slot = i; filepath = l.filepath; ref_count = l.ref_count } ∷ rest
    else rest

-- The number of active locks, and the lines
unfoldable pub file_lock_table_print : FileLockTable → ℕ × List LockLine
file_lock_table_print t = (t.count, print_slots 0 t.locks)

length-print_slots : (i : ℕ) (ls : List FileLock) → length (print_slots i ls) ≡ used_count ls
unfolding print_slots used_count
length-print_slots i [] = refl
length-print_slots i (l ∷ ls) = ground (arith, length-print_slots (suc i) ls)

-- Of a well-formed table, the number that is printed is that of the lines.
pub file_lock_table_print-IsTable :
    (t : FileLockTable)
    → IsTable t
    → (file_lock_table_print t).0 ≡ length (file_lock_table_print t).1
unfolding file_lock_table_print
file_lock_table_print-IsTable t w = omega (arith, w.counted, length-print_slots 0 t.locks)
