-- ===== src/Server/Stop/Tests.antt =====
-- The end of the server with a client and a task left.
use client_worker_thread_poo.Base.{
  ℕ, ◌≡◌, refl, true, false, none, some, [], ◌∷◌, arith, leb, ltb, ◌&&◌,
}
use client_worker_thread_poo.FileLocks.Defs.{max_file_locks, file_lock_table_init}
use client_worker_thread_poo.FileLocks.Lifetime.{Held, Ready, Gone}
use client_worker_thread_poo.Queue.Memory.{null, node, value, Memory, write}
use client_worker_thread_poo.Queue.Defs.{Queue}
use client_worker_thread_poo.Queue.Chain.{entry, IsQueue}
use client_worker_thread_poo.Queue.Walk.{Without}
use client_worker_thread_poo.Server.Stop.{main_stop, main_stop-Gone}

abbrev nothing : Memory ℕ
nothing p = none

-- The queue with the one element 10, its node at 1 and its element at 2.
abbrev ten : Memory ℕ
ten = write (write nothing 2 (some (value 10))) 1 (some (node 2 null))

abbrev one : Queue
one = record { front = 1; rear = 1; size = 1; data_size = 4 }

one-IsQueue : IsQueue ten one (entry 1 2 10 ∷ [])
unfolding write
one-IsQueue = record {
  front = refl;
  rear = refl;
  size = refl;
  bound = omega arith;
  linked = (refl, refl, omega arith, omega arith, tt);
  apart = (refl, refl, omega arith, tt);
}

abbrev all_made : Held
all_made = record {
  block = true;
  table_lock = true;
  slot_lock = λ x. leb 0 x && ltb x max_file_locks;
}

all_made-Ready : Ready max_file_locks all_made
all_made-Ready = record { block = refl; table_lock = refl; slot_lock = λ x. refl }

main_stop-Gone_example :
    (h' : Held) × ((m' : Memory ℕ) × ((u' : Memory ℕ) × (main_stop 2
            (some file_lock_table_init)
            all_made
            (some one)
            true
            ten
            (some one)
            true
            ten
          ≡ some (h', (false, m'), (false, u')))
        × Gone h'
        × Without (entry 1 2 10 ∷ []) ten m'
        × Without (entry 1 2 10 ∷ []) ten u'))
main_stop-Gone_example =
    main_stop-Gone 2 file_lock_table_init all_made one one ten ten (entry 1 2 10 ∷ [])
      (entry 1 2 10 ∷ []) all_made-Ready one-IsQueue one-IsQueue (omega arith) (omega arith)
