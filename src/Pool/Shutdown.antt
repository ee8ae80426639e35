-- ===== src/Pool/Shutdown.antt =====
-- SIGINT while a client is connected: the workers leave, and its next task is never run.
use client_worker_thread_poo.Base.{
  ℕ, zero, suc, ◌≤◌, ◌<◌, ◌≡◌, ◌≢◌, refl, true, false, none, some, [], ◌∷◌, arith,
}
use client_worker_thread_poo.Base.Family.{update, first, first_above, first_below, first-prop}
use client_worker_thread_poo.Task.Services.{Services}
use client_worker_thread_poo.Task.Defs.{Task}
use client_worker_thread_poo.Pool.Defs.{
  WorkerPc, ClientPc, MainPc, HandlerPc, System, Env, fresh_kaam, WorkerStep, ClientStep,
  ServerStep, of_worker, of_client, of_server, Steps, here, next, init,
}
use client_worker_thread_poo.Pool.Abandoned.{Abandoned, Steps-Abandoned}

module _ (srv : Services) (env : Env) (m n : ℕ) (some_client : 0 < m) where
  -- One connection has been taken by client thread 0; then SIGINT.
  abbrev served : ℕ → System
  served c = record init {
    server_running = false;
    handler = HandlerPc.stopped;
    client = update (λ i. ClientPc.idle) 0 (ClientPc.serving c);
  }

  served-Steps : (c : ℕ) → Steps srv env m n init (served c)
  served-Steps c =
      next
        (next
          (next
            (next (next here (of_server (ServerStep.call_accept refl refl)))
              (of_server (ServerStep.accept c refl)))
            (of_server (ServerStep.arrive c true refl (λ i lt e. cc) (λ e. cc) (λ i lt e. cc))))
          (of_client (ClientStep.take 0 c [] some_client refl (λ i lt e. cc) refl)))
        (of_server (ServerStep.stop refl))

  -- The first `k` workers have found the queue empty and left.
  abbrev left_first : ℕ → ℕ → System
  left_first c k = record (served c) { worker = first WorkerPc.gone k (λ j. WorkerPc.idle) }

  left_first-Steps : (c k : ℕ) → k ≤ n → Steps srv env m n init (left_first c k)
  unfolding first
  left_first-Steps c zero h = served-Steps c
  left_first-Steps c (suc k) h = next (left_first-Steps c k (omega arith)) (
      of_worker (
        WorkerStep.quit k (omega arith)
          (first_above WorkerPc.gone k (λ j. WorkerPc.idle) k (omega arith))
          (λ j lt.
            first-prop (λ p. p ≢ WorkerPc.about) WorkerPc.gone k (λ j. WorkerPc.idle) j (λ e. cc)
              (λ e. cc))
          refl refl))

  -- Client thread 0 then hands over a task.
  abbrev handed_over : ℕ → Task → System
  handed_over c k = record (left_first c n) {
    task_que = 0 ∷ [];
    heap = update (λ i. none) 0 (some (fresh_kaam k));
    client = update (left_first c n).client 0 (ClientPc.waiting c k);
  }

  handed_over-Steps : (c : ℕ) (k : Task) → Steps srv env m n init (handed_over c k)
  handed_over-Steps c k = next (left_first-Steps c n (omega arith)) (
      of_client (
        ClientStep.submit 0 c k true some_client refl
          (λ j lt.
            first-prop (λ p. p ≢ WorkerPc.about) WorkerPc.gone n (λ j. WorkerPc.idle) j (λ e. cc)
              (λ e. cc))
          (λ e. cc)
          (λ j lt.
            first-prop (λ p. p ≢ WorkerPc.asleep) WorkerPc.gone n (λ j. WorkerPc.idle) j (λ e. cc)
              (λ e. cc))))

  handed_over-Abandoned : (c : ℕ) (k : Task) → Abandoned srv env m n 0 (handed_over c k)
  handed_over-Abandoned c k = record {
    left = λ j lt. first_below WorkerPc.gone n (λ j. WorkerPc.idle) j lt;
    fd = c;
    asked = k;
    kaam = fresh_kaam k;
    waiting_here = refl;
    on_heap = refl;
    not_done = refl;
    unfinished = λ e. cc;
  }

  -- Shutdown can hang. Whatever the sizes of the pools, with at least one client thread: from the
  -- start the threads can reach, by the one SIGINT while a connection is open, a state after which, in
  -- all that follows, a client thread waits for a task and `main` does not finish: all workers have
  -- left when that thread hands the task over.
  pub shutdown_hangs :
      (c : ℕ) (k : Task)
      → (s : System) × Steps srv env m n init s
        × (s.handler ≢ HandlerPc.ready)
        × ((u : System)
            → Steps srv env m n s u
            → ((fd : ℕ) × (t : Task) × (u.client 0 ≡ ClientPc.waiting fd t))
              × (u.main ≢ MainPc.finished))
  shutdown_hangs c k = (
    handed_over c k,
    handed_over-Steps c k,
    (λ e. cc),
    λ u r.
        let a = Steps-Abandoned srv env m n some_client r (handed_over-Abandoned c k) in
        ((a.fd, a.asked, a.waiting_here), a.unfinished),
  )
