-- ===== src/Pool/Answered.antt =====
-- While the server runs, the threads can always go on to the answer that a client waits for.
use client_worker_thread_poo.Base.{
  ℕ, ◌<◌, ◌≡◌, refl, ap, ◌∙◌, inl, inr, true, false, some, List, [], ◌∷◌, arith, ◌==◌, ==_iff,
  Bool-cases,
}
use client_worker_thread_poo.Base.Family.{update}
use client_worker_thread_poo.Task.Services.{Services}
use client_worker_thread_poo.Task.Defs.{Task}
use client_worker_thread_poo.Pool.Defs.{
  WorkerPc, ClientPc, Kaam, System, Env, Ran, WorkerStep, ClientStep, Step, of_worker, of_client,
  Steps, here, next, init,
}
use client_worker_thread_poo.Pool.Flow.{occurs}
use client_worker_thread_poo.Pool.Tasks.{running_task, waiting_task}
use client_worker_thread_poo.Pool.Awake.{queued_task-awake, queued_task-TaskQueFree}

update_self : {A : Type 0} (f : ℕ → A) (i : ℕ) (a : A) → update f i a i ≡ a
update_self f i a = rw ((==_iff i i).1 refl) refl

module _ (srv : Services) (env : Env) (m n : ℕ) where
  -- one step before others
  one_before :
      {s u v : System} → Step srv env m n s u → Steps srv env m n u v → Steps srv env m n s v
  one_before a here = next here a
  one_before a (next r b) = next (one_before a r) b

  -- Steps that lead to a state where client thread `i` has its answer.
  abbrev pub Answered : ℕ → ℕ → System → Type 0
  Answered i fd s = (u : System) × Steps srv env m n s u × (u.client i ≡ ClientPc.serving fd)

  sooner : (i fd : ℕ) {s u : System} → Step srv env m n s u → Answered i fd u → Answered i fd s
  sooner i fd a (v, r, e) = (v, one_before a r, e)

  module _ (some_worker : 0 < n) (total : (k : Task) → (k' : Task) × Ran srv env m n k k')
      (i fd : ℕ) (k : Task) (lt : i < m) where
    -- A state that the running server can reach, in which the thread waits.
    record Waits (s : System) : Type 0 where
      reached : Steps srv env m n init s
      on : s.server_running ≡ true
      waits : s.client i ≡ ClientPc.waiting fd k

    done-Answered :
        (s : System) (t : Kaam) → Waits s → s.heap i ≡ some t → t.done ≡ true → Answered i fd s
    done-Answered s t w has done = (
      _,
      next here (of_client (ClientStep.resume i fd k t lt w.waits has done)),
      update_self s.client i (ClientPc.serving fd),
    )

    -- a worker comes to the end of its task
    record Finished (s : System) (j o : ℕ) : Type 0 where
      after : System
      step : Step srv env m n s after
      still : Waits after
      free : after.worker j ≡ WorkerPc.idle
      same : after.task_que ≡ s.task_que
      answer : (t : Kaam) × (after.heap o ≡ some t) × (t.done ≡ true)

    finished :
        (s : System) (j o : ℕ) → Waits s → j < n → s.worker j ≡ WorkerPc.running o → Finished s j o
    finished s j o w jlt at =
        let ((t, has, _, _), _, _) = running_task srv env m n s w.reached o j jlt at in
        let (k', ran) = total t.task in
        let a : Step srv env m n s _ = of_worker (WorkerStep.finish j o t k' jlt at has ran) in
        record {
          after = _;
          step = a;
          still = record { reached = next w.reached a; on = w.on; waits = w.waits };
          free = update_self s.worker j WorkerPc.idle;
          same = refl;
          answer = (_, update_self s.heap o _, refl);
        }

    running-Answered :
        (s : System) (j : ℕ) → Waits s → j < n → s.worker j ≡ WorkerPc.running i → Answered i fd s
    running-Answered s j w jlt at =
        let f = finished s j i w jlt at in
        let (t, has, done) = f.answer in
        sooner i fd f.step (done-Answered f.after t f.still has done)

    -- A worker that is free takes the first task, which is the thread's own or comes before it.
    taken-Answered :
        (h : ℕ) (que : List ℕ) (s : System) (j : ℕ)
        → Waits s
        → s.task_que ≡ h ∷ que
        → 0 < occurs i (h ∷ que)
        → j < n
        → s.worker j ≡ WorkerPc.idle
        → ((u : System) → Waits u → u.task_que ≡ que → 0 < occurs i que → Answered i fd u)
        → Answered i fd s
    taken-Answered h que s j w e some_task jlt free rest =
        let nobody = queued_task-TaskQueFree srv env m n some_worker s h que w.reached e in
        let a : Step srv env m n s _ = of_worker (WorkerStep.take j h que jlt free nobody e) in
        let v : System = record s {
          task_que = que;
          worker = update s.worker j (WorkerPc.running h);
        } in
        let w' : Waits v = record { reached = next w.reached a; on = w.on; waits = w.waits } in
        let at : v.worker j ≡ WorkerPc.running h = update_self s.worker j (WorkerPc.running h) in
        sooner i fd a (elim (Bool-cases (h == i)) [
          | inl own ↦ running-Answered v j w' jlt (at ∙ ap WorkerPc.running ((==_iff h i).0 own))
          | inr other ↦
              let f = finished v j h w' jlt at in
              sooner i fd f.step (rest f.after f.still f.same (ground arith))
        ])

    queued-Answered :
        (que : List ℕ) (s : System)
        → Waits s
        → s.task_que ≡ que
        → 0 < occurs i que
        → Answered i fd s
    queued-Answered [] s w e some_task = absurd (omega arith)
    queued-Answered (h ∷ que) s w e some_task =
        let rest = λ (u : System). queued-Answered que u in
        let (j, jlt, at) = queued_task-awake srv env m n some_worker s h que w.reached w.on e in
        elim at [
          | inl free ↦ taken-Answered h que s j w e some_task jlt free rest
          | inr (o, busy) ↦
              let f = finished s j o w jlt busy in
              sooner i fd f.step
                (taken-Answered h que f.after j f.still (f.same ∙ e) some_task jlt f.free rest)
        ]

  -- In every state that the threads can reach before SIGINT, for at least one worker, where no
  -- `malloc` of `queue_enqueue` fails and every task has a result, a client thread that waits for
  -- its task is not stuck: there are steps of the threads after which it has its answer and goes on
  -- to serve its connection, whatever is in the queue before its task and wherever the other
  -- threads stand.
  pub waiting_task-Answered :
      (s : System) (i fd : ℕ) (k : Task)
      → 0 < n
      → i < m
      → env.malloc_fails ≡ false
      → ((q : Task) → (q' : Task) × Ran srv env m n q q')
      → Steps srv env m n init s
      → s.server_running ≡ true
      → s.client i ≡ ClientPc.waiting fd k
      → Answered i fd s
  waiting_task-Answered s i fd k some_worker lt sure total r on waits =
      let w : Waits some_worker total i fd k lt s = record {
        reached = r;
        on = on;
        waits = waits;
      } in
      let (t, has, place) = waiting_task srv env m n s r i fd k sure waits in
      elim place [
        | inl done ↦ done-Answered some_worker total i fd k lt s t w has done
        | inr (inl once) ↦
            queued-Answered some_worker total i fd k lt s.task_que s w refl (omega arith)
        | inr (inr (j, jlt, at)) ↦ running-Answered some_worker total i fd k lt s j w jlt at
      ]
