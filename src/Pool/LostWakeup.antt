-- ===== src/Pool/LostWakeup.antt =====
-- The handler broadcasts without the mutex: a worker that stands before its wait misses it.
use client_worker_thread_poo.Base.{ℕ, zero, suc, ◌≤◌, ◌<◌, ◌≡◌, ◌≢◌, refl, false, arith}
use client_worker_thread_poo.Base.Family.{update, first, first_above, first_below, first-prop}
use client_worker_thread_poo.Task.Services.{Services}
use client_worker_thread_poo.Pool.Defs.{
  WorkerPc, ClientPc, MainPc, HandlerPc, System, Env, wake_worker, WorkerStep, ClientStep,
  ServerStep, of_worker, of_client, of_server, Steps, here, next, init,
}
use client_worker_thread_poo.Pool.Sleeper.{Forgotten, Steps-Forgotten}

module _ (srv : Services) (env : Env) (m n : ℕ) (some_worker : 0 < n) where
  -- Worker 0 has tested the queue and the flag, then SIGINT, and only then it waits.
  abbrev asleep_late : System
  asleep_late = record init {
    server_running = false;
    handler = HandlerPc.over;
    worker =
        update (λ j. wake_worker (update (λ i. WorkerPc.idle) 0 WorkerPc.about j)) 0
          WorkerPc.asleep;
  }

  asleep_late-Steps : Steps srv env m n init asleep_late
  asleep_late-Steps =
      next
        (next
          (next
            (next
              (next here (of_worker (WorkerStep.pause 0 some_worker refl (λ j lt e. cc) refl refl)))
              (of_server (ServerStep.stop refl)))
            (of_server (ServerStep.wake_clients refl)))
          (of_server (ServerStep.wake_workers refl)))
        (of_worker (WorkerStep.sleep 0 some_worker refl))

  -- The first `k` client threads have left.
  abbrev clients_left : ℕ → System
  clients_left k = record asleep_late { client = first ClientPc.gone k (λ i. ClientPc.idle) }

  clients_left-Steps : (k : ℕ) → k ≤ m → Steps srv env m n init (clients_left k)
  unfolding first
  clients_left-Steps zero h = asleep_late-Steps
  clients_left-Steps (suc k) h = next (clients_left-Steps k (omega arith)) (
      of_client (
        ClientStep.quit k (omega arith)
          (first_above ClientPc.gone k (λ i. ClientPc.idle) k (omega arith))
          (λ i lt.
            first-prop (λ p. p ≢ ClientPc.about) ClientPc.gone k (λ i. ClientPc.idle) i (λ e. cc)
              (λ e. cc))
          refl refl))

  clients_left-Forgotten : Forgotten srv env m n 0 (clients_left m)
  clients_left-Forgotten = record {
    through = refl;
    left = λ i lt. first_below ClientPc.gone m (λ i. ClientPc.idle) i lt;
    sleeping = refl;
    unfinished = λ e. cc;
  }

  -- The wake-up of the shutdown can be lost. Whatever the sizes of the pools, with at least one
  -- worker: from the start the threads can reach a state in which the handler of SIGINT is through,
  -- and after which, in all that follows but for spurious wake-ups and another SIGINT, a worker sleeps and `main` does
  -- not finish.
  pub shutdown_signal_lost :
      env.spurious ≡ false
      → (s : System) × Steps srv env m n init s
        × (s.handler ≡ HandlerPc.over)
        × ((u : System)
            → Steps srv env m n s u
            → (u.worker 0 ≡ WorkerPc.asleep) × (u.main ≢ MainPc.finished))
  shutdown_signal_lost sure = (
    clients_left m,
    clients_left-Steps m (omega arith),
    refl,
    λ u r.
        let a = Steps-Forgotten srv env m n 0 sure some_worker r clients_left-Forgotten in
        (a.sleeping, a.unfinished),
  )
