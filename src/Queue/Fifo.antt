-- ===== src/Queue/Fifo.antt =====
-- `queue_enqueue`, `queue_dequeue` and `queue_peek` against the list of entries.
use mathlib.Core.Bool.{false≢true}
use client_worker_thread_poo.Base.{
  ℕ, ◌+◌, ◌^◌, ◌<◌, ◌≡◌, ◌≢◌, refl, sym, ap, ◌∙◌, ◌⊎◌, inl, inr, true, false, Option, none, some,
  List, [], ◌∷◌, ◌++◌, arith, ◌==◌, ==_iff, ==_ne, length, length-append, Bool-cases, inc64,
  inc64_small,
}
use client_worker_thread_poo.Queue.Memory.{
  Ptr, null, Cell, raw, node, value, Memory, write, set_next, free-some, set_next-node,
}
use client_worker_thread_poo.Queue.Defs.{Queue, Outcome, sizeof_node, link_last, queue_enqueue}
use client_worker_thread_poo.Queue.Chain.{
  Entry, entry, last, has, IsQueue, write-Linked, not-has_of_none, has-append, Apart-append,
  last-append, Linked-append, write_other, write_self, ne_of_has, Linked-Tail,
}

-- What an operation that succeeds leaves: the entries, and all other memory as it was.
pub record Done {A : Type 0} (m : Memory A) (q : Queue) (old new : List (Entry A)) (out : Option A)
    (r : Outcome A) : Type 0 where
  pub queue : Queue
  pub memory : Memory A
  pub result : r ≡ some (true, out, some queue, memory)
  pub same_data_size : queue.data_size ≡ q.data_size
  pub is_queue : IsQueue memory queue new
  pub elsewhere : (p : Ptr) → has p old ≡ false → has p new ≡ false → memory p ≡ m p

module _ {A : Type 0} where
  link_last-Done :
      (m : Memory A) (q : Queue) (n d : Ptr) (a : A) (es : List (Entry A))
      → IsQueue m q es
      → length es + 1 < 2 ^ 64
      → has n es ≡ false
      → has d es ≡ false
      → n ≢ d
      → n ≢ null
      → d ≢ null
      → m n ≡ some (node d null)
      → m d ≡ some (value a)
      → Done m q es (es ++ entry n d a ∷ []) none (link_last q n m)
  unfolding link_last
  link_last-Done m q n d a [] v room on od ne n0 d0 hn hd =
      let empty : (q.rear == null) ≡ true = (==_iff q.rear null).1 v.rear in
      record {
        queue = record q { front = n; rear = n; size = inc64 q.size };
        memory = m;
        result = rw (empty, link_last);
        same_data_size = refl;
        is_queue = record {
          front = refl;
          rear = refl;
          size = omega (arith, inc64_small q.size, v.size);
          bound = room;
          linked = (hn, hd, n0, d0, tt);
          apart = (refl, refl, ne, tt);
        };
        elsewhere = λ p _ _. refl;
      }
  link_last-Done m q n d a (e ∷ es) v room on od ne n0 d0 hn hd =
      let t = Linked-Tail m e es null n v.linked v.apart in
      let r : q.rear ≡ last e.cell es = v.rear in
      let m' = write m (last e.cell es) (some (node t.data_ptr n)) in
      let linked_list : (q.rear == null) ≡ false = ==_ne q.rear null (λ z. t.ne_null (sym r ∙ z)) in
      let relinked : set_next m q.rear n ≡ some m' =
        rw r (set_next-node m (last e.cell es) t.ne_null t.data_ptr null n t.holds) in
      let outside = λ (p : Ptr) (o : has p (e ∷ es) ≡ false).
        write_other m (last e.cell es) p (some (node t.data_ptr n))
          (ne_of_has (e ∷ es) p (last e.cell es) o t.inside) in
      record {
        queue = record q { rear = n; size = inc64 q.size };
        memory = m';
        result = rw (linked_list, relinked, link_last);
        same_data_size = refl;
        is_queue = record {
          front = v.front;
          rear = sym (last-append e.cell es (entry n d a));
          size = omega (arith, inc64_small q.size, v.size, length-append {0} es (entry n d a ∷ []));
          bound = omega (arith, room, length-append {0} es (entry n d a ∷ []));
          linked =
              Linked-append m' (e ∷ es) (entry n d a) null t.linked
                (outside n on ∙ hn, outside d od ∙ hd, n0, d0, tt);
          apart = Apart-append (e ∷ es) (entry n d a) v.apart on od ne;
        };
        elsewhere = λ p o _. outside p o;
      }

  write-none-restores :
      (m : Memory A) (n : Ptr) (c : Cell A)
      → m n ≡ none
      → (p : Ptr) → write (write m n (some c)) n none p ≡ m p
  unfolding write
  write-none-restores m n c e p = ground arith

  not_new :
      (p n d : Ptr) (a : A) (es : List (Entry A))
      → has p (es ++ entry n d a ∷ []) ≡ false
      → (p ≢ n) × (p ≢ d)
  not_new p n d a es o = (
    λ e. ground (arith, has-append p es (entry n d a)),
    λ e. ground (arith, has-append p es (entry n d a)),
  )

  module _ (malloc : ℕ → Memory A → Ptr) where
    -- What `malloc` returns is not allocated yet.
    abbrev pub Fresh : Type 0
    Fresh = (k : ℕ) (m : Memory A) → malloc k m ≢ null → m (malloc k m) ≡ none

    abbrev pub node_ptr : Memory A → Ptr
    node_ptr m = malloc sizeof_node m

    abbrev pub block_ptr : Queue → Memory A → Ptr
    block_ptr q m = malloc q.data_size (write m (node_ptr m) (some raw))

    -- The two blocks that `queue_enqueue` gets are new, and differ.
    fresh_blocks :
        (m : Memory A) (q : Queue)
        → Fresh
        → node_ptr m ≢ null
        → block_ptr q m ≢ null
        → (m (node_ptr m) ≡ none) × (m (block_ptr q m) ≡ none) × (node_ptr m ≢ block_ptr q m)
    fresh_blocks m q fresh n0 d0 =
        let n = node_ptr m in
        let d = block_ptr q m in
        let m₁ = write m n (some raw) in
        let md₁ : m₁ d ≡ none = fresh q.data_size m₁ d0 in
        let ne : n ≢ d = λ e.
          (let bad : ◌≡◌ {A = Option (Cell A)} none (some raw) =
              sym md₁ ∙ ap m₁ (sym e) ∙ write_self m n (some raw) in
            cc) in
        (fresh sizeof_node m n0, sym (write_other m n d _ (λ e. ne (sym e))) ∙ md₁, ne)

    -- When `malloc` returns unallocated addresses and both allocations succeed, `queue_enqueue` on a
    -- queue with room in its counter puts the element behind all others, and changes no other memory.
    pub queue_enqueue-append :
        (m : Memory A) (q : Queue) (a : A) (es : List (Entry A))
        → Fresh
        → IsQueue m q es
        → length es + 1 < 2 ^ 64
        → node_ptr m ≢ null
        → block_ptr q m ≢ null
        → Done m q es
            (es ++ entry (node_ptr m) (block_ptr q m) a ∷ [])
            none
            (queue_enqueue malloc (some q) (some a) m)
    unfolding queue_enqueue
    queue_enqueue-append m q a es fresh v room n0 d0 =
        let n = node_ptr m in
        let d = block_ptr q m in
        let m₁ = write m n (some raw) in
        let m₂ = write m₁ d (some (value a)) in
        let m₃ = write m₂ n (some (node d null)) in
        let (mn, md, ne) = fresh_blocks m q fresh n0 d0 in
        let on : has n es ≡ false = not-has_of_none m es null n v.linked mn in
        let od : has d es ≡ false = not-has_of_none m es null d v.linked md in
        let v₃ : IsQueue m₃ q es = record {
          front = v.front;
          rear = v.rear;
          size = v.size;
          bound = v.bound;
          linked =
              write-Linked m₂ es null n _ on
                (write-Linked m₁ es null d _ od (write-Linked m es null n _ on v.linked));
          apart = v.apart;
        } in
        let done =
          link_last-Done m₃ q n d a es v₃ room on od ne n0 d0 (write_self m₂ n _)
            (write_other m₂ n d _ (λ e. ne (sym e)) ∙ write_self m₁ d _) in
        rw (==_ne n null n0, ==_ne d null d0)
          (record {
            queue = done.queue;
            memory = done.memory;
            result = done.result;
            same_data_size = done.same_data_size;
            is_queue = done.is_queue;
            elsewhere = λ p o o'.
                (let (pn, pd) = not_new p n d a es o' in
                  done.elsewhere p o o'
                  ∙ write_other m₂ n p _ pn
                  ∙ write_other m₁ d p _ pd
                  ∙ write_other m n p _ pn);
          })

    blocks_not_null :
        (m : Memory A) (q : Queue) (a : A)
        → (some a ≡ none) ⊎ ((node_ptr m ≡ null) ⊎ (block_ptr q m ≡ null))
        → (node_ptr m == null) ≡ false
        → (block_ptr q m == null) ≡ false
        → ⊥
    blocks_not_null m q a (inl e) got both = cc
    blocks_not_null m q a (inr (inl e)) got both = false≢true (sym got ∙ (==_iff _ null).1 e)
    blocks_not_null m q a (inr (inr e)) got both = false≢true (sym both ∙ (==_iff _ null).1 e)

    -- When an allocation fails, or there is no element to copy, `queue_enqueue` returns false, and the
    -- queue and all memory are as before: a node whose element has no block is freed again.
    pub queue_enqueue-unchanged :
        (m : Memory A) (q : Queue) (input : Option A)
        → Fresh
        → (input ≡ none) ⊎ ((node_ptr m ≡ null) ⊎ (block_ptr q m ≡ null))
        → (m' : Memory A) × (queue_enqueue malloc (some q) input m ≡ some (false, none, some q, m'))
          × ((p : Ptr) → m' p ≡ m p)
    unfolding queue_enqueue
    queue_enqueue-unchanged m q none fresh h = (m, refl, λ p. refl)
    queue_enqueue-unchanged m q (some a) fresh h = elim (Bool-cases (node_ptr m == null)) [
      | inl no_node ↦ (m, rw no_node, λ p. refl)
      | inr got ↦ elim (Bool-cases (block_ptr q m == null)) [
        | inl no_block ↦
            let n0 : node_ptr m ≢ null = λ e. false≢true (sym got ∙ (==_iff _ null).1 e) in
            (
              write (write m (node_ptr m) (some raw)) (node_ptr m) none,
              rw (
                got,
                no_block,
                free-some (write m (node_ptr m) (some raw)) (node_ptr m) n0 raw
                    (write_self m (node_ptr m) (some raw)),
              ),
              write-none-restores m (node_ptr m) raw (fresh sizeof_node m n0),
            )
        | inr both ↦ absurd (blocks_not_null m q a h got both)
      ]
    ]
