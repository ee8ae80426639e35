-- ===== src/Pool/Tests.antt =====
-- Four client threads and four workers: a task from the connection to the answer.
use client_worker_thread_poo.Base.{
  ℕ, ◌<◌, ◌≡◌, ◌≢◌, refl, ◌⊎◌, true, false, none, some, [], ◌∷◌, arith, codes,
}
use client_worker_thread_poo.Base.Family.{update}
use client_worker_thread_poo.Task.Defs.{
  Cmd, upload, download, delete, list, unknown, Task, execute_list, list_locked, list_entries, fail,
  execute_task, run_cmd,
}
use client_worker_thread_poo.Task.Services.{Services}
use client_worker_thread_poo.Task.Disk.{disk, empty_disk, task_of}
use client_worker_thread_poo.Pool.Defs.{
  thread_pool_size, WorkerPc, ClientPc, MainPc, HandlerPc, Kaam, System, Env, fresh_kaam, Ran,
  WorkerStep, ClientStep, ServerStep, of_worker, of_client, of_server, Steps, here, next, init,
}
use client_worker_thread_poo.Pool.Answered.{Answered, waiting_task-Answered}
use client_worker_thread_poo.Pool.Flow.{occurs}
use client_worker_thread_poo.Pool.Tasks.{running_task, own_answer, waiting_task}
use client_worker_thread_poo.Pool.Awake.{queued_task-awake}
use client_worker_thread_poo.Pool.Shutdown.{shutdown_hangs}
use client_worker_thread_poo.Pool.LostWakeup.{shutdown_signal_lost}

-- Files in memory, where no directory opens.
abbrev quiet_disk : Services
quiet_disk = record disk { list_dir = λ p d. (none, d) }

abbrev calm : Env
calm = record { spurious = false; malloc_fails = false }

abbrev Run : System → Type 0
Run = Steps quiet_disk calm thread_pool_size thread_pool_size init

-- Client thread 0 has connection 5.
abbrev connected : System
connected = record init { client = update (λ i. ClientPc.idle) 0 (ClientPc.serving 5) }

connected-Run : Run connected
connected-Run =
    next
      (next
        (next (next here (of_server (ServerStep.call_accept refl refl)))
          (of_server (ServerStep.accept 5 refl)))
        (of_server (ServerStep.arrive 5 true refl (λ i lt e. cc) (λ e. cc) (λ i lt e. cc))))
      (of_client (ClientStep.take 0 5 [] (omega arith) refl (λ i lt e. cc) refl))

abbrev asked : Task
asked = task_of unknown

-- It has handed over a task.
abbrev queued : System
queued = record connected {
  task_que = 0 ∷ [];
  heap = update (λ i. none) 0 (some (fresh_kaam asked));
  client = update connected.client 0 (ClientPc.waiting 5 asked);
}

queued-Run : Run queued
queued-Run = next connected-Run (
    of_client
      (ClientStep.submit 0 5 asked true (omega arith) refl (λ j lt e. cc) (λ e. cc) (λ j lt e. cc)))

-- Worker 2 has taken it.
abbrev taken : System
taken = record queued { task_que = []; worker = update (λ j. WorkerPc.idle) 2 (WorkerPc.running 0) }

taken-Run : Run taken
taken-Run =
    next queued-Run (of_worker (WorkerStep.take 2 0 [] (omega arith) refl (λ j lt e. cc) refl))

abbrev answer : Task
answer = fail (codes "UNKNOWN COMMAND") asked

-- It is done.
abbrev answered : System
answered = record taken {
  heap = update taken.heap 0 (some (record { task = answer; done = true }));
  worker = update taken.worker 2 WorkerPc.idle;
}

ran : Ran quiet_disk calm thread_pool_size thread_pool_size asked answer
unfolding Ran execute_task run_cmd
ran = (empty_disk, empty_disk, refl)

answered-Run : Run answered
answered-Run =
    next taken-Run
      (of_worker (WorkerStep.finish 2 0 (fresh_kaam asked) answer (omega arith) refl refl ran))

running_task_example :
    ((t : Kaam) × (taken.heap 0 ≡ some t)
      × (t.done ≡ false)
      × ((fd : ℕ) × (taken.client 0 ≡ ClientPc.waiting fd t.task)))
    × (occurs 0 taken.task_que ≡ 0)
    × ((k : ℕ) → k < thread_pool_size → taken.worker k ≡ WorkerPc.running 0 → k ≡ 2)
running_task_example =
    running_task quiet_disk calm thread_pool_size thread_pool_size taken taken-Run 0 2 (omega arith)
      refl

own_answer_example :
    Ran quiet_disk calm thread_pool_size thread_pool_size asked answer
    × (occurs 0 answered.task_que ≡ 0)
    × ((j : ℕ) → j < thread_pool_size → answered.worker j ≢ WorkerPc.running 0)
own_answer_example =
    own_answer quiet_disk calm thread_pool_size thread_pool_size answered answered-Run 0 5 asked
      (record { task = answer; done = true }) refl refl refl

waiting_task_example :
    (t : Kaam) × (taken.heap 0 ≡ some t)
    × ((t.done ≡ true)
        ⊎ ((occurs 0 taken.task_que ≡ 1)
            ⊎ ((j : ℕ) × (j < thread_pool_size) × (taken.worker j ≡ WorkerPc.running 0))))
waiting_task_example =
    waiting_task quiet_disk calm thread_pool_size thread_pool_size taken taken-Run 0 5 asked refl
      refl

queued_task-awake_example :
    (j : ℕ) × (j < thread_pool_size)
    × ((queued.worker j ≡ WorkerPc.idle) ⊎ ((o : ℕ) × (queued.worker j ≡ WorkerPc.running o)))
queued_task-awake_example =
    queued_task-awake quiet_disk calm thread_pool_size thread_pool_size (omega arith) queued 0 []
      queued-Run refl refl

shutdown_hangs_example :
    (s : System) × Run s
    × (s.handler ≢ HandlerPc.ready)
    × ((u : System)
        → Steps quiet_disk calm thread_pool_size thread_pool_size s u
        → ((fd : ℕ) × (t : Task) × (u.client 0 ≡ ClientPc.waiting fd t))
          × (u.main ≢ MainPc.finished))
shutdown_hangs_example =
    shutdown_hangs quiet_disk calm thread_pool_size thread_pool_size (omega arith) 5 asked

shutdown_signal_lost_example :
    (s : System) × Run s
    × (s.handler ≡ HandlerPc.over)
    × ((u : System)
        → Steps quiet_disk calm thread_pool_size thread_pool_size s u
        → (u.worker 0 ≡ WorkerPc.asleep) × (u.main ≢ MainPc.finished))
shutdown_signal_lost_example =
    shutdown_signal_lost quiet_disk calm thread_pool_size thread_pool_size (omega arith) refl

has_result :
    (c : Cmd) (k : Task)
    → (k' : Task) × ((w' : quiet_disk.World) × (run_cmd quiet_disk c k empty_disk ≡ some (k', w')))
unfolding run_cmd execute_list list_locked list_entries
has_result upload k = (_, (_, refl))
has_result download k = (_, (_, refl))
has_result delete k = (_, (_, refl))
has_result list k = (_, (_, refl))
has_result unknown k = (_, (_, refl))

each_has_result :
    (k : Task) → (k' : Task) × Ran quiet_disk calm thread_pool_size thread_pool_size k k'
unfolding Ran execute_task
each_has_result k = let (k', (w', e)) = has_result k.cmd k in (k', (empty_disk, w', e))

waiting_task-Answered_example :
    Answered quiet_disk calm thread_pool_size thread_pool_size 0 5 queued
waiting_task-Answered_example =
    waiting_task-Answered quiet_disk calm thread_pool_size thread_pool_size queued 0 5 asked
      (omega arith) (omega arith) refl each_has_result queued-Run refl refl
