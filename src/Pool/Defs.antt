-- ===== src/Pool/Defs.antt =====
-- `handle_client`, `handle_worker`, `main` and `handle_signint` as steps of one system.
--
-- What a thread does under the mutex of a queue is one step, but for the wait: a thread that has
-- found the queue empty and `ServerRunning` set stands at `about`, still with the mutex, and then
-- goes to sleep and gives it up. A thread that is woken takes the mutex again and tests again, as
-- one that comes from outside does: both stand at `idle`.
use client_worker_thread_poo.Base.{
  ℕ, ◌<◌, ◌≡◌, ◌≢◌, Bool, true, false, Option, none, some, List, [], ◌∷◌, ◌++◌, if◌then◌else◌,
}
use client_worker_thread_poo.Base.Family.{update}
use client_worker_thread_poo.Task.Services.{Services}
use client_worker_thread_poo.Task.Defs.{Task, execute_task}

-- ThreadPoolSize
abbrev pub thread_pool_size : ℕ
thread_pool_size = 4

pub data WorkerPc : Type 0 where
  idle : WorkerPc
  about : WorkerPc
  asleep : WorkerPc
  running : (owner : ℕ) → WorkerPc
  gone : WorkerPc

-- `serving`: from the dequeue of a connection on. `waiting`: between the `queue_enqueue` of a task
-- and the moment when it is found done; the task is the one that was handed over.
pub data ClientPc : Type 0 where
  idle : ClientPc
  about : ClientPc
  asleep : ClientPc
  serving : (client_fd : ℕ) → ClientPc
  waiting : (client_fd : ℕ) → Task → ClientPc
  gone : ClientPc

-- The head of the loop of `main`, inside `accept`, after it, and at `pthread_join`.
pub data MainPc : Type 0 where
  looping : MainPc
  accepting : MainPc
  accepted : (client_fd : ℕ) → MainPc
  joining : MainPc
  finished : MainPc

-- The handler of SIGINT, which runs once: not called, after `ServerRunning = 0`, after the first broadcast, after the
-- second.
pub data HandlerPc : Type 0 where
  ready stopped half over : HandlerPc

-- A `task` on the heap, with its flag `done`.
pub record Kaam : Type 0 where
  pub task : Task
  pub done : Bool

-- A client thread has one task at a time, so a `task*` is told by the number of its thread.
pub record System : Type 0 where
  pub server_running : Bool
  pub handler : HandlerPc
  pub main : MainPc
  pub clnt_que : List ℕ
  pub task_que : List ℕ
  pub heap : ℕ → Option Kaam
  pub client : ℕ → ClientPc
  pub worker : ℕ → WorkerPc

-- What the operating system may do besides: wake a thread that nobody signals, fail the `malloc`s
-- of `queue_enqueue`.
pub record Env : Type 0 where
  pub spurious : Bool
  pub malloc_fails : Bool

-- `pthread_cond_broadcast`
abbrev pub wake_worker : WorkerPc → WorkerPc
wake_worker asleep = idle
wake_worker idle = idle
wake_worker about = about
wake_worker (running i) = running i
wake_worker gone = gone

abbrev pub wake_client : ClientPc → ClientPc
wake_client asleep = idle
wake_client idle = idle
wake_client about = about
wake_client (serving c) = serving c
wake_client (waiting c k) = waiting c k
wake_client gone = gone

-- Nobody holds the mutex of the queue; and nobody sleeps there.
abbrev pub TaskQueFree : ℕ → System → Type 0
TaskQueFree n s = (j : ℕ) → j < n → s.worker j ≢ about

abbrev pub ClientQueFree : ℕ → System → Type 0
ClientQueFree m s = (i : ℕ) → i < m → s.client i ≢ about

-- `queue_enqueue`, which leaves the queue as it was if it gets no memory.
abbrev pub enqueue : Bool → List ℕ → ℕ → List ℕ
enqueue ok que x = if ok then que ++ x ∷ [] else que

abbrev pub MayEnqueue : Env → Bool → Type 0
MayEnqueue env ok = ok ≡ false → env.malloc_fails ≡ true

-- the task of client thread `i`, as `handle_client` makes it
abbrev pub fresh_kaam : Task → Kaam
fresh_kaam k = record { task = k; done = false }

module _ (srv : Services) (env : Env) (m n : ℕ) where
  -- what `execute_task` may make of a task, whatever else happens in the world
  unfoldable pub Ran : Task → Task → Type 0
  Ran k k' = (w w' : srv.World) × (execute_task srv k w ≡ some (k', w'))

  pub data WorkerStep (s : System) : System → Type 0 where
    take :
        (j i : ℕ) (que : List ℕ)
        → j < n
        → s.worker j ≡ idle
        → TaskQueFree n s
        → s.task_que ≡ i ∷ que
        → WorkerStep s (record s { task_que = que; worker = update s.worker j (running i) })
    pause :
        (j : ℕ)
        → j < n
        → s.worker j ≡ idle
        → TaskQueFree n s
        → s.task_que ≡ []
        → s.server_running ≡ true
        → WorkerStep s (record s { worker = update s.worker j about })
    sleep :
        (j : ℕ)
        → j < n
        → s.worker j ≡ about
        → WorkerStep s (record s { worker = update s.worker j asleep })
    stir :
        (j : ℕ)
        → j < n
        → s.worker j ≡ asleep
        → env.spurious ≡ true
        → WorkerStep s (record s { worker = update s.worker j idle })
    -- `execute_task`, and `done` under the task's own mutex
    finish :
        (j i : ℕ) (k : Kaam) (k' : Task)
        → j < n
        → s.worker j ≡ running i
        → s.heap i ≡ some k
        → Ran k.task k'
        → WorkerStep s (record s {
          heap = update s.heap i (some (record { task = k'; done = true }));
          worker = update s.worker j idle;
        })
    quit :
        (j : ℕ)
        → j < n
        → s.worker j ≡ idle
        → TaskQueFree n s
        → s.task_que ≡ []
        → s.server_running ≡ false
        → WorkerStep s (record s { worker = update s.worker j gone })

  pub data ClientStep (s : System) : System → Type 0 where
    take :
        (i c : ℕ) (que : List ℕ)
        → i < m
        → s.client i ≡ idle
        → ClientQueFree m s
        → s.clnt_que ≡ c ∷ que
        → ClientStep s (record s { clnt_que = que; client = update s.client i (serving c) })
    pause :
        (i : ℕ)
        → i < m
        → s.client i ≡ idle
        → ClientQueFree m s
        → s.clnt_que ≡ []
        → s.server_running ≡ true
        → ClientStep s (record s { client = update s.client i about })
    sleep :
        (i : ℕ)
        → i < m
        → s.client i ≡ about
        → ClientStep s (record s { client = update s.client i asleep })
    stir :
        (i : ℕ)
        → i < m
        → s.client i ≡ asleep
        → env.spurious ≡ true
        → ClientStep s (record s { client = update s.client i idle })
    -- A valid command: the task is made and enqueued, and the signal wakes the worker `j`.
    submit_wake :
        (i c j : ℕ) (k : Task) (ok : Bool)
        → i < m
        → s.client i ≡ serving c
        → TaskQueFree n s
        → MayEnqueue env ok
        → j < n
        → s.worker j ≡ asleep
        → ClientStep s (record s {
          task_que = enqueue ok s.task_que i;
          heap = update s.heap i (some (fresh_kaam k));
          client = update s.client i (waiting c k);
          worker = update s.worker j idle;
        })
    -- The same where no worker sleeps.
    submit :
        (i c : ℕ) (k : Task) (ok : Bool)
        → i < m
        → s.client i ≡ serving c
        → TaskQueFree n s
        → MayEnqueue env ok
        → ((j : ℕ) → j < n → s.worker j ≢ asleep)
        → ClientStep s (record s {
          task_que = enqueue ok s.task_que i;
          heap = update s.heap i (some (fresh_kaam k));
          client = update s.client i (waiting c k);
        })
    -- The task is done: the response is sent and the task freed.
    resume :
        (i c : ℕ) (k : Task) (t : Kaam)
        → i < m
        → s.client i ≡ waiting c k
        → s.heap i ≡ some t
        → t.done ≡ true
        → ClientStep s
            (record s { heap = update s.heap i none; client = update s.client i (serving c) })
    hang_up :
        (i c : ℕ)
        → i < m
        → s.client i ≡ serving c
        → ClientStep s (record s { client = update s.client i idle })
    quit :
        (i : ℕ)
        → i < m
        → s.client i ≡ idle
        → ClientQueFree m s
        → s.clnt_que ≡ []
        → s.server_running ≡ false
        → ClientStep s (record s { client = update s.client i gone })

  -- The main thread and the handler. A failed `accept` goes back to the head of the loop.
  pub data ServerStep (s : System) : System → Type 0 where
    call_accept :
        s.main ≡ looping → s.server_running ≡ true → ServerStep s (record s { main = accepting })
    leave : s.main ≡ looping → s.server_running ≡ false → ServerStep s (record s { main = joining })
    accept : (c : ℕ) → s.main ≡ accepting → ServerStep s (record s { main = accepted c })
    accept_fails : s.main ≡ accepting → ServerStep s (record s { main = looping })
    arrive_wake :
        (c i : ℕ) (ok : Bool)
        → s.main ≡ accepted c
        → ClientQueFree m s
        → MayEnqueue env ok
        → i < m
        → s.client i ≡ asleep
        → ServerStep s (record s {
          main = looping;
          clnt_que = enqueue ok s.clnt_que c;
          client = update s.client i idle;
        })
    arrive :
        (c : ℕ) (ok : Bool)
        → s.main ≡ accepted c
        → ClientQueFree m s
        → MayEnqueue env ok
        → ((i : ℕ) → i < m → s.client i ≢ asleep)
        → ServerStep s (record s { main = looping; clnt_que = enqueue ok s.clnt_que c })
    -- all threads joined
    finish :
        s.main ≡ joining
        → ((i : ℕ) → i < m → s.client i ≡ gone)
        → ((j : ℕ) → j < n → s.worker j ≡ gone)
        → ServerStep s (record s { main = finished })
    stop : s.handler ≡ ready → ServerStep s (record s { handler = stopped; server_running = false })
    wake_clients :
        s.handler ≡ stopped
        → ServerStep s (record s { handler = half; client = λ i. wake_client (s.client i) })
    wake_workers :
        s.handler ≡ half
        → ServerStep s (record s { handler = over; worker = λ j. wake_worker (s.worker j) })

  pub data Step (s : System) : System → Type 0 where
    of_worker : {u : System} → WorkerStep s u → Step s u
    of_client : {u : System} → ClientStep s u → Step s u
    of_server : {u : System} → ServerStep s u → Step s u

  pub data Steps (s : System) : System → Type 0 where
    here : Steps s s
    next : {u v : System} → Steps s u → Step u v → Steps s v

-- The state when `main` has created its threads.
abbrev pub init : System
init = record {
  server_running = true;
  handler = ready;
  main = looping;
  clnt_que = [];
  task_que = [];
  heap = λ i. none;
  client = λ i. idle;
  worker = λ j. idle;
}
