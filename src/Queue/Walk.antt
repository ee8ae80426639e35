-- ===== src/Queue/Walk.antt =====
-- The loops of queue.c: `queue_destroy` and `queue_print` from the front to NULL.
use client_worker_thread_poo.Base.{
  ℕ, zero, suc, ◌<◌, ◌≡◌, refl, ◌∙◌, true, false, none, some, List, [], ◌∷◌, arith, ==_ne, length,
  if◌then◌else◌,
}
use client_worker_thread_poo.Queue.Memory.{
  Ptr, null, node, value, Memory, write, load_node-node, load_value-value, free-some,
}
use client_worker_thread_poo.Queue.Defs.{
  Queue, Piece, header, item, arrow, newline, destroy_loop, queue_destroy, free_queue, print_loop,
  queue_print,
}
use client_worker_thread_poo.Queue.Chain.{
  Entry, items, first, has, Linked, Apart, IsQueue, write-Linked, write_other,
}
use client_worker_thread_poo.Queue.Take.{queue_is_empty-cons}

module _ {A : Type 0} where
  -- `m'` is `m` less all the blocks of the entries.
  abbrev pub Without : List (Entry A) → Memory A → Memory A → Type 0
  Without es m m' = (p : Ptr) → m' p ≡ (if has p es then none else m p)

  removed :
      (m : Memory A) (e : Entry A) (es : List (Entry A)) (p : Ptr)
      → (if has p es then none else write (write m e.block none) e.cell none p)
        ≡ (if has p (e ∷ es) then none else m p)
  unfolding write
  removed m e es p = ground arith

  destroy_loop-Without :
      (fuel : ℕ) (m : Memory A) (es : List (Entry A))
      → Linked m es null
      → Apart es
      → length es < fuel
      → (m' : Memory A) × (destroy_loop fuel (first es null) m ≡ some m') × Without es m m'
  unfolding destroy_loop
  destroy_loop-Without zero m es h a lt = absurd (omega arith)
  destroy_loop-Without (suc fuel) m [] h a lt = (m, refl, λ p. refl)
  destroy_loop-Without (suc fuel) m (e ∷ es) (hn, hv, n0, b0, rest) (oc, ob, ne, apart) lt =
      let m₁ = write m e.block none in
      let m₂ = write m₁ e.cell none in
      let (m', run, gone) =
        destroy_loop-Without fuel m₂ es
          (write-Linked m₁ es null e.cell none oc (write-Linked m es null e.block none ob rest))
          apart (omega arith) in
      (
        m',
        rw
            (
              ==_ne e.cell null n0,
              load_node-node m e.cell n0 e.block (first es null) hn,
              free-some m e.block b0 (value e.item) hv,
              free-some m₁ e.cell n0 (node e.block (first es null))
                  (write_other m e.block e.cell none ne ∙ hn),
            )
            run,
        λ p. gone p ∙ removed m e es p,
      )

  -- `queue_destroy` comes to its end in as many rounds as the queue has elements and one more, with
  -- no use of freed memory, and what it frees are exactly the nodes and elements of the queue and its
  -- struct.
  pub queue_destroy-Without :
      (fuel : ℕ) (m : Memory A) (q : Queue) (es : List (Entry A))
      → IsQueue m q es
      → length es < fuel
      → (m' : Memory A) × (queue_destroy fuel (some q) true m ≡ some (false, m')) × Without es m m'
  unfolding queue_destroy free_queue
  queue_destroy-Without fuel m q es v lt =
      let (m', e, left) = destroy_loop-Without fuel m es v.linked v.apart lt in
      (m', rw (v.front, e) refl, left)

  -- The elements with arrows between them, and a newline.
  abbrev pub shown : List A → List (Piece A)
  shown [] = newline ∷ []
  shown (a ∷ []) = item a ∷ newline ∷ []
  shown (a ∷ b ∷ rest) = item a ∷ arrow ∷ shown (b ∷ rest)

  print_loop-shown :
      (fuel : ℕ) (m : Memory A) (es : List (Entry A))
      → Linked m es null
      → length es < fuel
      → print_loop fuel (first es null) m ≡ some (shown (items es))
  unfolding print_loop
  print_loop-shown zero m es h lt = absurd (omega arith)
  print_loop-shown (suc fuel) m [] h lt = refl
  print_loop-shown (suc fuel) m (e ∷ []) (hn, hv, n0, b0, rest) lt = rw (
    ==_ne e.cell null n0,
    load_node-node m e.cell n0 e.block null hn,
    load_value-value m e.block b0 e.item hv,
    print_loop-shown fuel m [] tt (omega arith),
  )
  print_loop-shown (suc fuel) m (e ∷ x ∷ es) (hn, hv, n0, b0, rest) lt = rw (
    ==_ne e.cell null n0,
    load_node-node m e.cell n0 e.block x.cell hn,
    load_value-value m e.block b0 e.item hv,
    print_loop-shown fuel m (x ∷ es) rest (omega arith),
    ==_ne x.cell null rest.2,
  )

  -- On a queue with elements `queue_print`, given more rounds than elements, shows their number and
  -- then each of them, from the front to the rear.
  pub queue_print-shown :
      (fuel : ℕ) (m : Memory A) (q : Queue) (e : Entry A) (es : List (Entry A))
      → IsQueue m q (e ∷ es)
      → length (e ∷ es) < fuel
      → queue_print fuel (some q) true m ≡ some (header (length (e ∷ es)) ∷ shown (items (e ∷ es)))
  unfolding queue_print
  queue_print-shown fuel m q e es v lt = rw (
    queue_is_empty-cons m q e es v,
    v.front,
    v.size,
    print_loop-shown fuel m (e ∷ es) v.linked lt,
  )
