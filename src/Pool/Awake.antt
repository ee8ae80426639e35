-- ===== src/Pool/Awake.antt =====
-- No signal of the task queue is lost while the server runs.
use client_worker_thread_poo.Base.{
  ℕ, ◌<◌, ◌≡◌, ◌≢◌, refl, sym, ap, ◌∙◌, ◌⊎◌, inl, inr, Bool, true, false, List, [], ◌∷◌, ◌==◌,
  ==_iff, Bool-cases,
}
use client_worker_thread_poo.Base.Family.{update, count_if, count_if-pos, count_if-witness}
use client_worker_thread_poo.Task.Services.{Services}
use client_worker_thread_poo.Pool.Defs.{
  WorkerPc, System, Env, TaskQueFree, wake_worker, WorkerStep, ClientStep, ServerStep, of_worker,
  of_client, of_server, Steps, here, next, init,
}

-- A worker that looks at the queue before it sleeps, or has left.
abbrev pub is_awake : WorkerPc → Bool
is_awake WorkerPc.idle = true
is_awake WorkerPc.about = false
is_awake WorkerPc.asleep = false
is_awake (WorkerPc.running i) = true
is_awake WorkerPc.gone = true

update-prop :
    (P : WorkerPc → Type 0) (w : ℕ → WorkerPc) (j k : ℕ) (p : WorkerPc)
    → P p
    → P (w k)
    → P (update w j p k)
update-prop P w j k p new old = elim (Bool-cases (j == k)) [
  | inl hit ↦ rw hit new
  | inr miss ↦ rw miss old
]

about-wake : (p : WorkerPc) → wake_worker p ≡ WorkerPc.about → p ≡ WorkerPc.about
about-wake WorkerPc.idle h = cc
about-wake WorkerPc.about h = refl
about-wake WorkerPc.asleep h = cc
about-wake (WorkerPc.running i) h = cc
about-wake WorkerPc.gone h = cc

gone-wake : (p : WorkerPc) → wake_worker p ≡ WorkerPc.gone → p ≡ WorkerPc.gone
gone-wake WorkerPc.idle h = cc
gone-wake WorkerPc.about h = cc
gone-wake WorkerPc.asleep h = cc
gone-wake (WorkerPc.running i) h = cc
gone-wake WorkerPc.gone h = refl

is_awake-wake : (p : WorkerPc) → is_awake p ≡ true → is_awake (wake_worker p) ≡ true
is_awake-wake WorkerPc.idle h = h
is_awake-wake WorkerPc.about h = h
is_awake-wake WorkerPc.asleep h = refl
is_awake-wake (WorkerPc.running i) h = h
is_awake-wake WorkerPc.gone h = h

awake_of_not : (p : WorkerPc) → p ≢ WorkerPc.about → p ≢ WorkerPc.asleep → is_awake p ≡ true
awake_of_not WorkerPc.idle a b = refl
awake_of_not WorkerPc.about a b = absurd (a refl)
awake_of_not WorkerPc.asleep a b = absurd (b refl)
awake_of_not (WorkerPc.running i) a b = refl
awake_of_not WorkerPc.gone a b = refl

-- Who is about to sleep has seen the queue empty; nobody leaves while the server runs; and a task in
-- the queue has a worker that is awake.
record Watch (n : ℕ) (que : List ℕ) (on : Bool) (w : ℕ → WorkerPc) : Type 0 where
  seen : (j : ℕ) → j < n → w j ≡ WorkerPc.about → que ≡ []
  staff : on ≡ true → (j : ℕ) → j < n → w j ≢ WorkerPc.gone
  watched : (que ≡ []) ⊎ (0 < count_if is_awake n w)

module _ (srv : Services) (env : Env) (m n : ℕ) (some_worker : 0 < n) where
  abbrev WatchOf : System → Type 0
  WatchOf s = Watch n s.task_que s.server_running s.worker

  -- One worker goes to a place where it is awake and has not left.
  moved :
      (que que' : List ℕ) (on : Bool) (w : ℕ → WorkerPc) (j : ℕ) (p : WorkerPc)
      → j < n
      → is_awake p ≡ true
      → p ≢ WorkerPc.gone
      → ((k : ℕ) → k < n → w k ≡ WorkerPc.about → que' ≡ [])
      → Watch n que on w
      → Watch n que' on (update w j p)
  moved que que' on w j p lt up stays seen v = record {
    seen = λ k klt.
        update-prop (λ q. q ≡ WorkerPc.about → que' ≡ []) w j k p
          (λ e. absurd (let a : is_awake WorkerPc.about ≡ true = ap is_awake (sym e) ∙ up in cc))
          (seen k klt);
    staff = λ r k klt. update-prop (λ q. q ≢ WorkerPc.gone) w j k p stays (v.staff r k klt);
    watched = inr (count_if-pos is_awake n (update w j p) j lt (rw ((==_iff j j).1 refl) up));
  }

  -- One worker goes elsewhere while the queue is empty.
  moved_empty :
      (que : List ℕ) (on : Bool) (w : ℕ → WorkerPc) (j : ℕ) (p : WorkerPc)
      → que ≡ []
      → (on ≡ true → p ≢ WorkerPc.gone)
      → Watch n que on w
      → Watch n que on (update w j p)
  moved_empty que on w j p e stays v = record {
    seen = λ k klt at. e;
    staff = λ r k klt. update-prop (λ q. q ≢ WorkerPc.gone) w j k p (stays r) (v.staff r k klt);
    watched = inl e;
  }

  WorkerStep-Watch : {s u : System} → WorkerStep srv env m n s u → WatchOf s → WatchOf u
  WorkerStep-Watch {s} (WorkerStep.take j i que lt at free e) v =
      moved s.task_que que s.server_running s.worker j (WorkerPc.running i) lt refl (λ h. cc)
        (λ k klt kat. absurd (free k klt kat)) v
  WorkerStep-Watch {s} (WorkerStep.pause j lt at free e r) v =
      moved_empty s.task_que s.server_running s.worker j WorkerPc.about e (λ _ h. cc) v
  WorkerStep-Watch {s} (WorkerStep.sleep j lt at) v =
      moved_empty s.task_que s.server_running s.worker j WorkerPc.asleep (v.seen j lt at)
        (λ _ h. cc) v
  WorkerStep-Watch {s} (WorkerStep.stir j lt at r) v =
      moved s.task_que s.task_que s.server_running s.worker j WorkerPc.idle lt refl (λ h. cc) v.seen
        v
  WorkerStep-Watch {s} (WorkerStep.finish j i k k' lt at has ran) v =
      moved s.task_que s.task_que s.server_running s.worker j WorkerPc.idle lt refl (λ h. cc) v.seen
        v
  WorkerStep-Watch {s} (WorkerStep.quit j lt at free e r) v =
      moved_empty s.task_que s.server_running s.worker j WorkerPc.gone e (λ on h. cc) v

  ClientStep-Watch : {s u : System} → ClientStep srv env m n s u → WatchOf s → WatchOf u
  ClientStep-Watch (ClientStep.take i c que lt at free e) v = v
  ClientStep-Watch (ClientStep.pause i lt at free e r) v = v
  ClientStep-Watch (ClientStep.sleep i lt at) v = v
  ClientStep-Watch (ClientStep.stir i lt at r) v = v
  ClientStep-Watch {s} (ClientStep.submit_wake i c j k ok lt at free may jlt asleep) v =
      moved s.task_que _ s.server_running s.worker j WorkerPc.idle jlt refl (λ h. cc)
        (λ l llt lat. absurd (free l llt lat)) v
  ClientStep-Watch {s} (ClientStep.submit i c k ok lt at free may none_asleep) v = record {
    seen = λ l llt lat. absurd (free l llt lat);
    staff = v.staff;
    watched = inr (
        count_if-pos is_awake n s.worker 0 some_worker
          (awake_of_not (s.worker 0) (free 0 some_worker) (none_asleep 0 some_worker)));
  }
  ClientStep-Watch (ClientStep.resume i c k t lt at has done) v = v
  ClientStep-Watch (ClientStep.hang_up i c lt at) v = v
  ClientStep-Watch (ClientStep.quit i lt at free e r) v = v

  ServerStep-Watch : {s u : System} → ServerStep srv env m n s u → WatchOf s → WatchOf u
  ServerStep-Watch (ServerStep.call_accept at r) v = v
  ServerStep-Watch (ServerStep.leave at r) v = v
  ServerStep-Watch (ServerStep.accept c at) v = v
  ServerStep-Watch (ServerStep.accept_fails at) v = v
  ServerStep-Watch (ServerStep.arrive_wake c i ok at free may lt asleep) v = v
  ServerStep-Watch (ServerStep.arrive c ok at free may none_asleep) v = v
  ServerStep-Watch (ServerStep.finish at cs ws) v = v
  ServerStep-Watch {s} (ServerStep.stop at) v = record {
    seen = v.seen;
    staff = λ on. absurd (cc);
    watched = v.watched;
  }
  ServerStep-Watch (ServerStep.wake_clients at) v = v
  ServerStep-Watch {s} (ServerStep.wake_workers at) v = record {
    seen = λ j lt e. v.seen j lt (about-wake (s.worker j) e);
    staff = λ on j lt e. v.staff on j lt (gone-wake (s.worker j) e);
    watched = elim v.watched [
      | inl e ↦ inl e
      | inr up ↦
          let (j, lt, h) = count_if-witness is_awake n s.worker up in
          inr (count_if-pos is_awake n _ j lt (is_awake-wake (s.worker j) h))
    ];
  }

  Steps-Watch : {s : System} → Steps srv env m n init s → WatchOf s
  Steps-Watch here = record { seen = λ j lt e. refl; staff = λ on j lt e. cc; watched = inl refl }
  Steps-Watch (next r (of_worker st)) = WorkerStep-Watch st (Steps-Watch r)
  Steps-Watch (next r (of_client st)) = ClientStep-Watch st (Steps-Watch r)
  Steps-Watch (next r (of_server st)) = ServerStep-Watch st (Steps-Watch r)

  -- While a task is in the queue, nobody is about to sleep.
  pub queued_task-TaskQueFree :
      (s : System) (i : ℕ) (que : List ℕ)
      → Steps srv env m n init s
      → s.task_que ≡ i ∷ que
      → TaskQueFree n s
  queued_task-TaskQueFree s i que r e j lt at =
      let v = Steps-Watch r in let none_left = v.seen j lt at in cc

  at_work :
      (p : WorkerPc)
      → is_awake p ≡ true
      → p ≢ WorkerPc.gone
      → (p ≡ WorkerPc.idle) ⊎ ((i : ℕ) × (p ≡ WorkerPc.running i))
  at_work WorkerPc.idle h ne = inl refl
  at_work WorkerPc.about h ne = cc
  at_work WorkerPc.asleep h ne = cc
  at_work (WorkerPc.running i) h ne = inr (i, refl)
  at_work WorkerPc.gone h ne = absurd (ne refl)

  -- In every state that the threads can reach before SIGINT, a task in the queue has a worker that
  -- does not sleep: it is on its way to the queue, or runs another task and comes back to the queue
  -- after it.
  pub queued_task-awake :
      (s : System) (i : ℕ) (que : List ℕ)
      → Steps srv env m n init s
      → s.server_running ≡ true
      → s.task_que ≡ i ∷ que
      → (j : ℕ) × (j < n)
        × ((s.worker j ≡ WorkerPc.idle) ⊎ ((o : ℕ) × (s.worker j ≡ WorkerPc.running o)))
  queued_task-awake s i que r on e =
      let v = Steps-Watch r in
      elim v.watched [
        | inl none_left ↦ absurd (cc)
        | inr up ↦
            let (j, lt, h) = count_if-witness is_awake n s.worker up in
            (j, lt, at_work (s.worker j) h (v.staff on j lt))
      ]
