-- ===== src/Server/Stop.antt =====
-- main.c: the end of `main`, when all threads have been joined.
mod Tests
use client_worker_thread_poo.Base.{
  ℕ, ◌<◌, ◌≡◌, refl, Bool, true, false, Option, none, some, List, length, ◌>>=◌,
}
use client_worker_thread_poo.FileLocks.Defs.{FileLockTable, max_file_locks}
use client_worker_thread_poo.FileLocks.Lifetime.{
  Held, Ready, Gone, file_lock_table_destroy, file_lock_table_destroy-Gone,
}
use client_worker_thread_poo.Queue.Memory.{Memory}
use client_worker_thread_poo.Queue.Defs.{Queue, queue_destroy}
use client_worker_thread_poo.Queue.Chain.{Entry, IsQueue}
use client_worker_thread_poo.Queue.Walk.{Without, queue_destroy-Without}

module _ {A B : Type 0} where
  -- The clients and the tasks that are left are in memories of their own; `none` is a misuse of
  -- memory or of a mutex. `b` and `c` say whether the structs of the two queues are allocated.
  unfoldable pub main_stop :
      (fuel : ℕ)
      → Option FileLockTable
      → Held
      → Option Queue
      → Bool
      → Memory A
      → Option Queue
      → Bool
      → Memory B
      → Option (Held × (Bool × Memory A) × (Bool × Memory B))
  main_stop fuel table h clients b m tasks c u = file_lock_table_destroy table h >>= λ h'.
      queue_destroy fuel clients b m >>= λ m'.
      queue_destroy fuel tasks c u >>= λ u'. some (h', m', u')

  -- The end of `main` gives back the lock table and both queues. With the block and all mutexes of the
  -- lock table in place, and for well-formed queues with their structs allocated and with less elements
  -- than the rounds that their loops are given, it misuses no memory and no mutex; of the table
  -- nothing is left, both structs are freed, and of each queue exactly the nodes and elements are
  -- gone.
  pub main_stop-Gone :
      (fuel : ℕ) (t : FileLockTable) (h : Held) (q r : Queue) (m : Memory A) (u : Memory B)
      (es : List (Entry A)) (fs : List (Entry B))
      → Ready max_file_locks h
      → IsQueue m q es
      → IsQueue u r fs
      → length es < fuel
      → length fs < fuel
      → (h' : Held) × ((m' : Memory A) × ((u' : Memory B) × (main_stop fuel
                (some t)
                h
                (some q)
                true
                m
                (some r)
                true
                u
              ≡ some (h', (false, m'), (false, u')))
            × Gone h'
            × Without es m m'
            × Without fs u u'))
  unfolding main_stop
  main_stop-Gone fuel t h q r m u es fs ready v w lt lt' =
      let (h', e, gone) = file_lock_table_destroy-Gone t h ready in
      let (m', e', left) = queue_destroy-Without fuel m q es v lt in
      let (u', e'', left') = queue_destroy-Without fuel u r fs w lt' in
      (h', (m', (u', rw (e, e', e'') refl, gone, left, left')))
