-- ===== src/Pool/Tasks.antt =====
-- What the places of the tasks mean for the threads, in every state that can be reached.
use client_worker_thread_poo.Base.{
  ℕ, ◌≤◌, ◌<◌, ◌≡◌, ◌≢◌, refl, sym, ap, subst, ◌∙◌, ◌⊎◌, inl, inr, true, false, Option, none, some,
  arith, ◌==◌, ==_iff, Bool-cases, ℕ_discrete,
}
use client_worker_thread_poo.Base.Family.{count_if-pos, count_if-two, count_if-witness}
use client_worker_thread_poo.Task.Services.{Services}
use client_worker_thread_poo.Task.Defs.{Task}
use client_worker_thread_poo.Pool.Defs.{WorkerPc, ClientPc, Kaam, System, Env, Ran, Steps, init}
use client_worker_thread_poo.Pool.Flow.{
  occurs, runs, is_waiting, copies, PlaceOf, Place, Steps-Flow,
}

running_of : (i : ℕ) (p : WorkerPc) → runs i p ≡ true → p ≡ WorkerPc.running i
running_of i WorkerPc.idle h = cc
running_of i WorkerPc.about h = cc
running_of i WorkerPc.asleep h = cc
running_of i (WorkerPc.running j) h = ap WorkerPc.running ((==_iff j i).0 h)
running_of i WorkerPc.gone h = cc

module _ (srv : Services) (env : Env) (m n : ℕ) (s : System) (r : Steps srv env m n init s) where
  runs_self : (j i : ℕ) → s.worker j ≡ WorkerPc.running i → runs i (s.worker j) ≡ true
  runs_self j i at = rw at ((==_iff i i).1 refl)

  -- what a task in some place is
  live :
      (i : ℕ) (h : Option Kaam)
      → s.heap i ≡ h
      → 0 < copies n s i
      → Place srv env m n h (s.client i) (copies n s i)
      → (t : Kaam) × (s.heap i ≡ some t)
        × (t.done ≡ false)
        × ((fd : ℕ) × (s.client i ≡ ClientPc.waiting fd t.task))
        × (copies n s i ≤ 1)
  live i none e some_copy (_, no_copy) = absurd (omega arith)
  live i (some t) e some_copy p = elim (Bool-cases t.done) [
    | inl done ↦
        let q : PlaceOf srv env m n true t.task (s.client i) (copies n s i) =
          subst (λ d. PlaceOf srv env m n d t.task (s.client i) (copies n s i)) done p in
        absurd (omega (arith, q.1))
    | inr open_yet ↦
        let q : PlaceOf srv env m n false t.task (s.client i) (copies n s i) =
          subst (λ d. PlaceOf srv env m n d t.task (s.client i) (copies n s i)) open_yet p in
        (t, e, open_yet, q.0, q.1)
  ]

  -- In every state that the threads can reach, a worker that runs the task of a client thread finds
  -- it on the heap and not done, and that thread waits for it; the task is not in the queue, and no
  -- other worker runs it.
  pub running_task :
      (i j : ℕ)
      → j < n
      → s.worker j ≡ WorkerPc.running i
      → ((t : Kaam) × (s.heap i ≡ some t)
          × (t.done ≡ false)
          × ((fd : ℕ) × (s.client i ≡ ClientPc.waiting fd t.task)))
        × (occurs i s.task_que ≡ 0)
        × ((k : ℕ) → k < n → s.worker k ≡ WorkerPc.running i → k ≡ j)
  running_task i j lt at =
      let one = count_if-pos (runs i) n s.worker j lt (runs_self j i at) in
      let (t, has, open_yet, waits, few) =
        live i (s.heap i) refl (omega arith) (Steps-Flow srv env m n r i) in
      (
        (t, has, open_yet, waits),
        omega arith,
        λ k klt kat. elim (ℕ_discrete k j) [
          | yes same ↦ same
          | no ne ↦
              let two =
                count_if-two (runs i) n s.worker k j klt lt ne (runs_self k i kat)
                  (runs_self j i at) in
              absurd (omega arith)
        ],
      )

  -- In every state that the threads can reach: where the task on the heap of a client thread that
  -- waits is done, it is what `execute_task` may make of the very task that this thread handed over,
  -- and neither the queue nor a worker still has it, so that it may be freed.
  pub own_answer :
      (i fd : ℕ) (k : Task) (t : Kaam)
      → s.client i ≡ ClientPc.waiting fd k
      → s.heap i ≡ some t
      → t.done ≡ true
      → Ran srv env m n k t.task
        × (occurs i s.task_que ≡ 0)
        × ((j : ℕ) → j < n → s.worker j ≢ WorkerPc.running i)
  own_answer i fd k t waits has done =
      let p : Place srv env m n (some t) (s.client i) (copies n s i) =
        subst (λ h. Place srv env m n h (s.client i) (copies n s i)) has
          (Steps-Flow srv env m n r i) in
      let ((fd', k', e, ran), no_copy) : PlaceOf srv env m n true t.task (s.client i)
          (copies n s i) =
        subst (λ d. PlaceOf srv env m n d t.task (s.client i) (copies n s i)) done p in
      let same : k' ≡ k = task_of (sym e ∙ waits) in
      (
        subst (λ q. Ran srv env m n q t.task) same ran,
        omega arith,
        λ j lt at.
            let one = count_if-pos (runs i) n s.worker j lt (runs_self j i at) in
            absurd (omega arith),
      )
    where
      task_of : {a b : ℕ} {p q : Task} → ClientPc.waiting a p ≡ ClientPc.waiting b q → p ≡ q
      task_of e = cc

  -- In every state that the threads can reach while no `malloc` of `queue_enqueue` fails, the task
  -- that a client thread waits for is not lost: it is done, or in the queue exactly once, or with a
  -- worker.
  pub waiting_task :
      (i fd : ℕ) (k : Task)
      → env.malloc_fails ≡ false
      → s.client i ≡ ClientPc.waiting fd k
      → (t : Kaam) × (s.heap i ≡ some t)
        × ((t.done ≡ true)
            ⊎ ((occurs i s.task_que ≡ 1) ⊎ ((j : ℕ) × (j < n) × (s.worker j ≡ WorkerPc.running i))))
  waiting_task i fd k sure waits = found (s.heap i) refl (Steps-Flow srv env m n r i)
    where
      found :
          (h : Option Kaam)
          → s.heap i ≡ h
          → Place srv env m n h (s.client i) (copies n s i)
          → (t : Kaam) × (s.heap i ≡ some t)
            × ((t.done ≡ true)
                ⊎ ((occurs i s.task_que ≡ 1)
                    ⊎ ((j : ℕ) × (j < n) × (s.worker j ≡ WorkerPc.running i))))
      found none e (idle_now, _) =
          let w : is_waiting (s.client i) ≡ true = ap is_waiting waits in absurd (cc)
      found (some t) e p = elim (Bool-cases t.done) [
        | inl done ↦ (t, e, inl done)
        | inr open_yet ↦
            let (_, few, exact) : PlaceOf srv env m n false t.task (s.client i) (copies n s i) =
              subst (λ d. PlaceOf srv env m n d t.task (s.client i) (copies n s i)) open_yet p in
            let one = exact sure in
            elim (Bool-cases (occurs i s.task_que == 1)) [
              | inl queued ↦ (t, e, inr (inl ((==_iff _ 1).0 queued)))
              | inr not_queued ↦
                  let (j, lt, h) = count_if-witness (runs i) n s.worker (ground arith) in
                  (t, e, inr (inr (j, lt, running_of i (s.worker j) h)))
            ]
      ]
