-- ===== src/Queue/Take.antt =====
-- `queue_dequeue` and `queue_peek` against the list of entries.
use client_worker_thread_poo.Base.{
  ◌≡◌, ◌≢◌, refl, sym, ◌∙◌, ◌⊎◌, inl, inr, Bool, true, false, Option, none, some, List, [], ◌∷◌,
  arith, ◌==◌, ==_iff, ==_ne, ◌>>=◌, dec64, dec64_small, if◌then◌else◌,
}
use client_worker_thread_poo.Queue.Memory.{
  Ptr, null, node, value, Memory, write, load_node, load_value, free, load_node-node,
  load_value-value, free-some,
}
use client_worker_thread_poo.Queue.Defs.{Queue, queue_is_empty, queue_dequeue, queue_peek}
use client_worker_thread_poo.Queue.Chain.{
  Entry, first, last, has, Linked, IsQueue, write-Linked, write_other, write_self,
}
use client_worker_thread_poo.Queue.Fifo.{Done}

-- `data` is written only if it is not NULL.
abbrev pub copied : {A : Type 0} → Bool → A → Option A
copied wanted a = if wanted then some a else none

-- The `rear` that `queue_dequeue` leaves is the last of the remaining nodes.
rear_after :
    {A : Type 0} (m : Memory A) (p : Ptr) (es : List (Entry A))
    → Linked m es null
    → (if first es null == null then null else last p es) ≡ last null es
rear_after m p [] h = refl
rear_after m p (e ∷ es) h = rw (==_ne e.cell null h.2)

module _ {A : Type 0} (m : Memory A) (q : Queue) where
  pub queue_is_empty-nil : IsQueue m q [] → queue_is_empty (some q) ≡ true
  unfolding queue_is_empty
  queue_is_empty-nil v = (==_iff q.front null).1 v.front

  pub queue_is_empty-cons :
      (e : Entry A) (es : List (Entry A)) → IsQueue m q (e ∷ es) → queue_is_empty (some q) ≡ false
  unfolding queue_is_empty
  queue_is_empty-cons e es v = ==_ne q.front null (λ z. v.linked.2 (sym v.front ∙ z))

  -- On an empty queue `queue_dequeue` fails and changes nothing.
  pub queue_dequeue-nil :
      (wanted : Bool)
      → IsQueue m q []
      → queue_dequeue (some q) wanted m ≡ some (false, none, some q, m)
  unfolding queue_dequeue
  queue_dequeue-nil wanted v = rw (queue_is_empty-nil v)

  -- On a queue with elements `queue_dequeue` succeeds, copies the front element out if a place is
  -- given, frees its two blocks, leaves the other elements in order and changes no other memory.
  pub queue_dequeue-cons :
      (wanted : Bool) (e : Entry A) (es : List (Entry A))
      → IsQueue m q (e ∷ es)
      → ((d : Done m q (e ∷ es) es (copied wanted e.item) (queue_dequeue (some q) wanted m))
          × (d.memory e.cell ≡ none)
          × (d.memory e.block ≡ none))
  unfolding queue_dequeue
  queue_dequeue-cons wanted e es v =
      let (hn, hv, n0, b0, rest) = v.linked in
      let (oc, ob, ne, apart) = v.apart in
      let d = e.block in
      let next = first es null in
      let m₁ = write m d none in
      let m₂ = write m₁ q.front none in
      let load : load_node m q.front ≡ some (d, next) =
        rw v.front (load_node-node m e.cell n0 d next hn) in
      let copy : (if wanted then load_value m d >>= (λ a. some (some a)) else some none)
          ≡ some (copied wanted e.item) =
        rw (load_value-value m d b0 e.item hv) (ground arith) in
      let free_data : free m d ≡ some m₁ = free-some m d b0 (value e.item) hv in
      let free_node : free m₁ q.front ≡ some m₂ =
        rw v.front (free-some m₁ e.cell n0 (node d next) (write_other m d e.cell none ne ∙ hn)) in
      rw (queue_is_empty-cons e es v, load, copy, free_data, free_node)
        (
          record {
            queue = record q {
              front = next;
              rear = (if next == null then null else q.rear);
              size = dec64 q.size;
            };
            memory = m₂;
            result = refl;
            same_data_size = refl;
            is_queue = record {
              front = refl;
              rear = rw v.rear (rear_after m e.cell es rest);
              size = omega (arith, dec64_small q.size, v.size, v.bound);
              bound = omega (arith, v.bound);
              linked =
                  write-Linked m₁ es null q.front none (rw v.front oc)
                    (write-Linked m es null d none ob rest);
              apart = apart;
            };
            elsewhere = λ p o o'.
                write_other m₁ q.front p none (λ z. ne_head p o (z ∙ v.front))
                ∙ write_other m d p none (λ z. ne_block p o z);
          },
          rw v.front (write_self m₁ e.cell none),
          rw v.front (write_other m₁ e.cell d none (λ z. ne (sym z)) ∙ write_self m d none),
        )
    where
      ne_head : (p : Ptr) → has p (e ∷ es) ≡ false → p ≢ e.cell
      ne_head p o z = ground arith

      ne_block : (p : Ptr) → has p (e ∷ es) ≡ false → p ≢ e.block
      ne_block p o z = ground arith

  -- `queue_peek` copies the front element out and changes nothing.
  pub queue_peek-cons :
      (e : Entry A) (es : List (Entry A))
      → IsQueue m q (e ∷ es)
      → queue_peek (some q) true m ≡ some (true, some e.item, some q, m)
  unfolding queue_peek
  queue_peek-cons e es v =
      let (hn, hv, n0, b0, rest) = v.linked in
      let load : load_node m q.front ≡ some (e.block, first es null) =
        rw v.front (load_node-node m e.cell n0 e.block (first es null) hn) in
      rw (queue_is_empty-cons e es v, load, load_value-value m e.block b0 e.item hv)

  -- On an empty queue, or with no place for the copy, it fails and changes nothing.
  pub queue_peek-nothing :
      (wanted : Bool)
      → (IsQueue m q []) ⊎ (wanted ≡ false)
      → queue_peek (some q) wanted m ≡ some (false, none, some q, m)
  unfolding queue_peek
  queue_peek-nothing wanted (inl v) = rw (queue_is_empty-nil v)
  queue_peek-nothing wanted (inr w) = rw w (ground arith)
