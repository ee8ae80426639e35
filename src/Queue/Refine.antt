-- ===== src/Queue/Refine.antt =====
-- Any run of the queue's functions against a plain list, first in, first out.
use client_worker_thread_poo.Base.{
  ℕ, suc, ◌+◌, ◌^◌, ◌<◌, ◌≡◌, refl, sym, ap, subst, fun_ext, ℕ_discrete, ◌∙◌, ◌⊎◌, inl, inr, Bool,
  true, false, Option, none, some, List, [], ◌∷◌, ◌++◌, arith, ◌>>=◌, length, length-append,
}
use client_worker_thread_poo.Queue.Memory.{Ptr, null, Memory}
use client_worker_thread_poo.Queue.Defs.{
  Queue, Outcome, queue_init, queue_size, queue_enqueue, queue_dequeue, queue_peek,
}
use client_worker_thread_poo.Queue.Chain.{Entry, entry, items, items-append, IsQueue}
use client_worker_thread_poo.Queue.Fifo.{
  Done, Fresh, node_ptr, block_ptr, queue_enqueue-append, queue_enqueue-unchanged,
}
use client_worker_thread_poo.Queue.Take.{
  queue_dequeue-nil, queue_dequeue-cons, queue_peek-cons, queue_peek-nothing,
}

-- A call with a place for the result, and what the caller sees: success, the element copied out,
-- and `queue_size` afterwards.
pub data Call (A : Type 0) : Type 0 where
  enqueue : A → Call A
  dequeue peek : Call A

abbrev pub Reply : Type 0 → Type 0
Reply A = Bool × Option A × ℕ

module _ {A : Type 0} (malloc : ℕ → Memory A → Ptr) where
  unfoldable pub perform : Call A → Option Queue → Memory A → Outcome A
  perform (enqueue a) q m = queue_enqueue malloc q (some a) m
  perform dequeue q m = queue_dequeue q true m
  perform peek q m = queue_peek q true m

  -- `none` means that a call used memory that it must not use.
  unfoldable pub run : List (Call A) → Option Queue → Memory A → Option (List (Reply A))
  run [] q m = some []
  run (c ∷ cs) q m = perform c q m >>= λ (done, out, q', m').
      run cs q' m' >>= λ rest. some ((done, out, queue_size q') ∷ rest)

-- The list that a queue promises to be. Memory may run out.
pub data Promise {A : Type 0} : List A → List (Call A) → List (Reply A) → Type 0 where
  stop : {xs : List A} → Promise xs [] []
  appended :
      {xs : List A} {cs : List (Call A)} {rs : List (Reply A)} (a : A) (n : ℕ)
      → n ≡ length xs + 1
      → Promise (xs ++ a ∷ []) cs rs
      → Promise xs (enqueue a ∷ cs) ((true, none, n) ∷ rs)
  out_of_memory :
      {xs : List A} {cs : List (Call A)} {rs : List (Reply A)} (a : A) (n : ℕ)
      → n ≡ length xs
      → Promise xs cs rs
      → Promise xs (enqueue a ∷ cs) ((false, none, n) ∷ rs)
  removed :
      {x : A} {xs : List A} {cs : List (Call A)} {rs : List (Reply A)} (n : ℕ)
      → n ≡ length xs
      → Promise xs cs rs
      → Promise (x ∷ xs) (dequeue ∷ cs) ((true, some x, n) ∷ rs)
  nothing_to_remove :
      {cs : List (Call A)} {rs : List (Reply A)} (n : ℕ)
      → n ≡ 0
      → Promise [] cs rs
      → Promise [] (dequeue ∷ cs) ((false, none, n) ∷ rs)
  seen :
      {x : A} {xs : List A} {cs : List (Call A)} {rs : List (Reply A)} (n : ℕ)
      → n ≡ length (x ∷ xs)
      → Promise (x ∷ xs) cs rs
      → Promise (x ∷ xs) (peek ∷ cs) ((true, some x, n) ∷ rs)
  nothing_to_see :
      {cs : List (Call A)} {rs : List (Reply A)} (n : ℕ)
      → n ≡ 0
      → Promise [] cs rs
      → Promise [] (peek ∷ cs) ((false, none, n) ∷ rs)

queue_init-IsQueue :
    {A : Type 0} (m : Memory A) (k : ℕ) (q : Queue) → queue_init true k ≡ some q → IsQueue m q []
unfolding queue_init
queue_init-IsQueue m k q e = record {
  front = ground arith;
  rear = ground arith;
  size = ground arith;
  bound = omega arith;
  linked = tt;
  apart = tt;
}

module _ {A : Type 0} (malloc : ℕ → Memory A → Ptr) (fresh : Fresh malloc) where
  length-items : (es : List (Entry A)) → length (items es) ≡ length es
  length-items [] = refl
  length-items (e ∷ es) = ap suc (length-items es)

  -- An `enqueue` runs out of memory and changes nothing, or appends.
  enqueue_cases :
      (m : Memory A) (q : Queue) (a : A) (es : List (Entry A))
      → IsQueue m q es
      → length es + 1 < 2 ^ 64
      → ((m' : Memory A) × (queue_enqueue malloc (some q) (some a) m
            ≡ some (false, none, some q, m'))
          × (m' ≡ m))
        ⊎ ((x : Entry A) × Done m q es
              (es ++ x ∷ [])
              none
              (queue_enqueue malloc (some q) (some a) m)
            × (x.item ≡ a))
  enqueue_cases m q a es v room = elim (ℕ_discrete (node_ptr malloc m) null) [
    | yes e ↦ failed (inl e)
    | no n0 ↦ elim (ℕ_discrete (block_ptr malloc q m) null) [
      | yes e ↦ failed (inr e)
      | no d0 ↦ inr (
        entry (node_ptr malloc m) (block_ptr malloc q m) a,
        queue_enqueue-append malloc m q a es fresh v room n0 d0,
        refl,
      )
    ]
  ]
    where
      failed :
          (node_ptr malloc m ≡ null) ⊎ (block_ptr malloc q m ≡ null)
          → ((m' : Memory A) × (queue_enqueue malloc (some q) (some a) m
                ≡ some (false, none, some q, m'))
              × (m' ≡ m))
            ⊎ ((x : Entry A) × Done m q es
                  (es ++ x ∷ [])
                  none
                  (queue_enqueue malloc (some q) (some a) m)
                × (x.item ≡ a))
      failed h =
          let (m', e, same) = queue_enqueue-unchanged malloc m q (some a) fresh (inr h) in
          inl (m', e, fun_ext same)

  -- the rest of a run, for the induction
  abbrev Ran : List A → List (Call A) → Option (List (Reply A)) → Type 0
  Ran xs cs r = (rs : List (Reply A)) × (r ≡ some rs) × Promise xs cs rs

  run-Ran :
      (cs : List (Call A)) (m : Memory A) (q : Queue) (es : List (Entry A))
      → IsQueue m q es
      → length es + length cs < 2 ^ 64
      → Ran (items es) cs (run malloc cs (some q) m)
  unfolding run perform queue_size
  run-Ran [] m q es v room = ([], refl, stop)
  run-Ran (enqueue a ∷ cs) m q es v room = elim (enqueue_cases m q a es v (omega arith)) [
    | inl (m', e₁, same) ↦
        let (rs, e, p) = run-Ran cs m' q es (rw same v) (omega arith) in
        (
          (false, none, q.size) ∷ rs,
          rw (e₁, e),
          out_of_memory a q.size (v.size ∙ sym (length-items es)) p,
        )
    | inr (x, d, is) ↦
        let longer : length (es ++ x ∷ []) ≡ length es + 1 = length-append es (x ∷ []) in
        let (rs, e, p) = run-Ran cs d.memory d.queue (es ++ x ∷ []) d.is_queue (omega arith) in
        (
          (true, none, d.queue.size) ∷ rs,
          rw (d.result, e),
          appended a d.queue.size (omega (arith, d.is_queue.size, longer, length-items es)) (
              subst (λ ys. Promise ys cs rs) (items-append es x ∙ ap (λ b. items es ++ b ∷ []) is)
                p),
        )
  ]
  run-Ran (dequeue ∷ cs) m q [] v room =
      let (rs, e, p) = run-Ran cs m q [] v (omega arith) in
      (
        (false, none, q.size) ∷ rs,
        rw (queue_dequeue-nil m q true v, e),
        nothing_to_remove q.size v.size p,
      )
  run-Ran (dequeue ∷ cs) m q (x ∷ es) v room =
      let (d, _, _) = queue_dequeue-cons m q true x es v in
      let (rs, e, p) = run-Ran cs d.memory d.queue es d.is_queue (omega arith) in
      (
        (true, some x.item, d.queue.size) ∷ rs,
        rw (d.result, e),
        removed d.queue.size (d.is_queue.size ∙ sym (length-items es)) p,
      )
  run-Ran (peek ∷ cs) m q [] v room =
      let (rs, e, p) = run-Ran cs m q [] v (omega arith) in
      (
        (false, none, q.size) ∷ rs,
        rw (queue_peek-nothing m q true (inl v), e),
        nothing_to_see q.size v.size p,
      )
  run-Ran (peek ∷ cs) m q (x ∷ es) v room =
      let (rs, e, p) = run-Ran cs m q (x ∷ es) v (omega arith) in
      (
        (true, some x.item, q.size) ∷ rs,
        rw (queue_peek-cons m q x es v, e),
        seen q.size (v.size ∙ ap suc (sym (length-items es))) p,
      )

  -- Whatever is called on the queue that `queue_init` returns, in whatever memory and whenever
  -- `malloc` fails: no call uses memory that it must not use, and what the callers see is what a
  -- list would show whose elements leave in the order in which they came.
  pub run-Promise :
      (cs : List (Call A)) (m : Memory A) (k : ℕ) (q : Queue)
      → queue_init true k ≡ some q
      → length cs < 2 ^ 64
      → (rs : List (Reply A)) × (run malloc cs (some q) m ≡ some rs) × Promise [] cs rs
  run-Promise cs m k q e room = run-Ran cs m q [] (queue_init-IsQueue m k q e) (omega arith)
