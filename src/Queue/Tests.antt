-- ===== src/Queue/Tests.antt =====
-- queue.c at concrete memories: runs by evaluation, and the theorems at queues where their
-- hypotheses hold.
use client_worker_thread_poo.Base.{
  ℕ, ◌≡◌, refl, Bool, true, false, Option, none, some, List, [], ◌∷◌, arith, if◌then◌else◌, inc64,
  dec64,
}
use client_worker_thread_poo.Queue.Memory.{
  Ptr, null, Cell, Memory, write, load_node, load_value, free, set_next,
}
use client_worker_thread_poo.Queue.Defs.{
  Queue, queue_init, queue_size, queue_is_empty, link_last, queue_enqueue, queue_dequeue,
  queue_peek,
}
use client_worker_thread_poo.Queue.Fifo.{Fresh}
use client_worker_thread_poo.Queue.Refine.{
  enqueue, dequeue, peek, Reply, run, perform, Promise, run-Promise,
}

-- A `malloc` with four blocks to give: the first of 1 to 4 that is not allocated, else NULL.
is_taken : Option (Cell ℕ) → Bool
is_taken none = false
is_taken (some c) = true

first_free : Memory ℕ → Ptr
unfolding is_taken
first_free m =
    if is_taken (m 1)
    then if is_taken (m 2) then if is_taken (m 3) then if is_taken (m 4) then 0 else 4 else 3 else 2
    else 1

four_blocks : ℕ → Memory ℕ → Ptr
unfolding first_free
four_blocks k m = first_free m

not_taken : (o : Option (Cell ℕ)) → is_taken o ≡ false → o ≡ none
unfolding is_taken
not_taken none h = refl
not_taken (some c) h = cc

four_blocks-Fresh : Fresh four_blocks
unfolding four_blocks
four_blocks-Fresh k m h =
    ground (arith, not_taken (m 1), not_taken (m 2), not_taken (m 3), not_taken (m 4))

abbrev nothing : Memory ℕ
nothing p = none

abbrev empty : Queue
empty = record { front = null; rear = null; size = 0; data_size = 4 }

two_in_two_out :
    run four_blocks
      (enqueue 10 ∷ enqueue 20 ∷ enqueue 30 ∷ dequeue ∷ peek ∷ dequeue ∷ dequeue ∷ [])
      (some empty)
      nothing
    ≡ some (
        (true, none, 1)
        ∷ (true, none, 2)
        ∷ (false, none, 2)
        ∷ (true, some 10, 1)
        ∷ (true, some 20, 1)
        ∷ (true, some 20, 0)
        ∷ (false, none, 0)
        ∷ [])
unfolding run perform four_blocks queue_enqueue queue_dequeue queue_peek queue_size queue_is_empty
    link_last write load_node load_value free set_next inc64 dec64
two_in_two_out = refl

run-Promise_example :
    (rs : List (Reply ℕ)) × (run four_blocks (enqueue 10 ∷ dequeue ∷ []) (some empty) nothing
      ≡ some rs)
    × Promise [] (enqueue 10 ∷ dequeue ∷ []) rs
unfolding queue_init
run-Promise_example =
    run-Promise four_blocks four_blocks-Fresh (enqueue 10 ∷ dequeue ∷ []) nothing 4 empty refl
      (omega arith)
