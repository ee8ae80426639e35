-- ===== src/Pool/Flow.antt =====
-- A task is in one place at a time, from the hand-over to the answer.
use client_worker_thread_poo.Base.{
  ℕ, ◌+◌, ◌≤◌, ◌<◌, ◌≡◌, refl, sym, ap, subst, ◌∙◌, inl, inr, Bool, true, false, Option, none, some,
  List, [], ◌∷◌, ◌++◌, arith, ◌==◌, ==_iff, Bool-cases, if◌then◌else◌,
}
use client_worker_thread_poo.Base.Family.{
  update, count_if, count_if-update, count_if-pos, count_if-ext, count_if-none,
}
use client_worker_thread_poo.Task.Services.{Services}
use client_worker_thread_poo.Task.Defs.{Task}
use client_worker_thread_poo.Pool.Defs.{
  WorkerPc, ClientPc, Kaam, System, Env, wake_worker, wake_client, enqueue, fresh_kaam, Ran,
  WorkerStep, ClientStep, ServerStep, Step, of_worker, of_client, of_server, Steps, here, next,
  init, MayEnqueue,
}

-- how often a task is in the queue
abbrev pub occurs : ℕ → List ℕ → ℕ
occurs x [] = 0
occurs x (i ∷ que) = (if i == x then 1 else 0) + occurs x que

abbrev pub runs : ℕ → WorkerPc → Bool
runs x (WorkerPc.running i) = i == x
runs x _ = false

abbrev pub is_waiting : ClientPc → Bool
is_waiting (ClientPc.waiting c k) = true
is_waiting _ = false

-- the places of the task of client thread `x`: in the queue, or with a worker
abbrev pub copies : ℕ → System → ℕ → ℕ
copies n s x = occurs x s.task_que + count_if (runs x) n s.worker

occurs-append : (x : ℕ) (xs ys : List ℕ) → occurs x (xs ++ ys) ≡ occurs x xs + occurs x ys
occurs-append x [] ys = omega arith
occurs-append x (i ∷ xs) ys = omega (arith, occurs-append x xs ys)

occurs-enqueue :
    (x : ℕ) (ok : Bool) (que : List ℕ) (i : ℕ)
    → occurs x (enqueue ok que i) ≡ occurs x que + (if ok then (if i == x then 1 else 0) else 0)
occurs-enqueue x true que i = omega (arith, occurs-append x que (i ∷ []))
occurs-enqueue x false que i = omega arith

runs-wake : (x : ℕ) (p : WorkerPc) → runs x p ≡ runs x (wake_worker p)
runs-wake x WorkerPc.idle = refl
runs-wake x WorkerPc.about = refl
runs-wake x WorkerPc.asleep = refl
runs-wake x (WorkerPc.running i) = refl
runs-wake x WorkerPc.gone = refl

module _ (srv : Services) (env : Env) (m n : ℕ) where
  -- What the heap has for a client thread, against where that thread stands and in how many places
  -- its task is.
  abbrev pub PlaceOf : Bool → Task → ClientPc → ℕ → Type 0
  PlaceOf false t pc c =
      ((fd : ℕ) × (pc ≡ ClientPc.waiting fd t)) × (c ≤ 1) × (env.malloc_fails ≡ false → c ≡ 1)
  PlaceOf true t pc c =
      ((fd : ℕ) × (k : Task) × (pc ≡ ClientPc.waiting fd k) × Ran srv env m n k t) × (c ≡ 0)

  abbrev pub Place : Option Kaam → ClientPc → ℕ → Type 0
  Place none pc c = (is_waiting pc ≡ false) × (c ≡ 0)
  Place (some t) pc c = PlaceOf t.done t.task pc c

  abbrev pub Flow : System → Type 0
  Flow s = (x : ℕ) → Place (s.heap x) (s.client x) (copies n s x)

  PlaceOf-waiting :
      (d : Bool) (t : Task) (pc : ClientPc) (c : ℕ) → PlaceOf d t pc c → is_waiting pc ≡ true
  PlaceOf-waiting false t pc c ((fd, e), _, _) = ap is_waiting e
  PlaceOf-waiting true t pc c ((fd, k, e, _), _) = ap is_waiting e

  -- A thread that does not wait has no task.
  quiet :
      (h : Option Kaam) (pc : ClientPc) (c : ℕ)
      → is_waiting pc ≡ false
      → Place h pc c
      → (h ≡ none) × (c ≡ 0)
  quiet none pc c q p = (refl, p.1)
  quiet (some t) pc c q p = let w = PlaceOf-waiting t.done t.task pc c p in absurd (cc)

  Place-quiet :
      (h : Option Kaam) (pc pc' : ClientPc) (c : ℕ)
      → is_waiting pc ≡ false
      → is_waiting pc' ≡ false
      → Place h pc c
      → Place h pc' c
  Place-quiet none pc pc' c q q' p = (q', p.1)
  Place-quiet (some t) pc pc' c q q' p = let w = PlaceOf-waiting t.done t.task pc c p in absurd (cc)

  Place-wake : (h : Option Kaam) (pc : ClientPc) (c : ℕ) → Place h pc c → Place h (wake_client pc) c
  Place-wake h ClientPc.idle c p = p
  Place-wake h ClientPc.about c p = p
  Place-wake h ClientPc.asleep c p = Place-quiet h ClientPc.asleep ClientPc.idle c refl refl p
  Place-wake h (ClientPc.serving fd) c p = p
  Place-wake h (ClientPc.waiting fd k) c p = p
  Place-wake h ClientPc.gone c p = p

  -- A worker that moves between places where it runs nothing.
  worker-same :
      (s : System) (j : ℕ) (p : WorkerPc)
      → j < n
      → ((x : ℕ) → runs x (s.worker j) ≡ false)
      → ((x : ℕ) → runs x p ≡ false)
      → (x : ℕ) → count_if (runs x) n (update s.worker j p) ≡ count_if (runs x) n s.worker
  worker-same s j p lt old new x =
      let moved = count_if-update (runs x) n s.worker j p lt in
      let o = old x in let w = new x in ground arith

  finished :
      (d : Bool) (t t' : Task) (pc : ClientPc) (c c' : ℕ)
      → 0 < c
      → c' + 1 ≡ c
      → Ran srv env m n t t'
      → PlaceOf d t pc c
      → PlaceOf true t' pc c'
  finished false t t' pc c c' some_copy fewer ran ((fd, e), one, _) = ((fd, t, e, ran), omega arith)
  finished true t t' pc c c' some_copy fewer ran (_, no_copy) = absurd (omega arith)

  finish-Place :
      (s : System) (j i : ℕ) (k : Kaam) (k' : Task) (x : ℕ)
      → j < n
      → s.worker j ≡ WorkerPc.running i
      → s.heap i ≡ some k
      → Ran srv env m n k.task k'
      → Place (s.heap x) (s.client x) (copies n s x)
      → Place
          (update s.heap i (some (record { task = k'; done = true })) x)
          (s.client x)
          (occurs x s.task_que + count_if (runs x) n (update s.worker j WorkerPc.idle))
  finish-Place s j i k k' x lt at has ran p = elim (Bool-cases (i == x)) [
    | inl hit ↦
        let same : i ≡ x = (==_iff i x).0 hit in
        let own : runs x (s.worker j) ≡ true = rw at hit in
        let moved = count_if-update (runs x) n s.worker j WorkerPc.idle lt in
        let here : s.heap x ≡ some k = subst (λ y. s.heap y ≡ some k) same has in
        let q : Place (some k) (s.client x) (copies n s x) =
          subst (λ h. Place h (s.client x) (copies n s x)) here p in
        rw hit (
          finished k.done k.task k' (s.client x) (copies n s x) _
            (omega (arith, count_if-pos (runs x) n s.worker j lt own)) (ground arith) ran q)
    | inr miss ↦
        let other : runs x (s.worker j) ≡ false = rw at miss in
        let moved = count_if-update (runs x) n s.worker j WorkerPc.idle lt in
        let same : count_if (runs x) n (update s.worker j WorkerPc.idle)
            ≡ count_if (runs x) n s.worker =
          ground arith in
        rw miss (subst (λ c. Place (s.heap x) (s.client x) (occurs x s.task_que + c)) (sym same) p)
  ]

  WorkerStep-Flow : {s u : System} → WorkerStep srv env m n s u → Flow s → Flow u
  WorkerStep-Flow {s} (WorkerStep.take j i que lt at free e) f x =
      let moved = count_if-update (runs x) n s.worker j (WorkerPc.running i) lt in
      let before : runs x (s.worker j) ≡ false = rw at refl in
      let queue : occurs x s.task_que ≡ (if i == x then 1 else 0) + occurs x que =
        ap (occurs x) e in
      subst (Place (s.heap x) (s.client x)) (ground arith) (f x)
  WorkerStep-Flow {s} (WorkerStep.pause j lt at free e r) f x =
      subst (λ c. Place (s.heap x) (s.client x) (occurs x s.task_que + c))
        (sym (worker-same s j WorkerPc.about lt (λ y. rw at refl) (λ y. refl) x)) (f x)
  WorkerStep-Flow {s} (WorkerStep.sleep j lt at) f x =
      subst (λ c. Place (s.heap x) (s.client x) (occurs x s.task_que + c))
        (sym (worker-same s j WorkerPc.asleep lt (λ y. rw at refl) (λ y. refl) x)) (f x)
  WorkerStep-Flow {s} (WorkerStep.stir j lt at r) f x =
      subst (λ c. Place (s.heap x) (s.client x) (occurs x s.task_que + c))
        (sym (worker-same s j WorkerPc.idle lt (λ y. rw at refl) (λ y. refl) x)) (f x)
  WorkerStep-Flow {s} (WorkerStep.quit j lt at free e r) f x =
      subst (λ c. Place (s.heap x) (s.client x) (occurs x s.task_que + c))
        (sym (worker-same s j WorkerPc.gone lt (λ y. rw at refl) (λ y. refl) x)) (f x)
  WorkerStep-Flow {s} (WorkerStep.finish j i k k' lt at has ran) f x =
      finish-Place s j i k k' x lt at has ran (f x)

  enqueued :
      (ok : Bool)
      → MayEnqueue env ok
      → env.malloc_fails ≡ false
      → (o a b : ℕ) → o + b ≡ 0
      → a ≡ b
      → {z : ℕ} → z ≡ o + (if ok then 1 else 0)
      → z + a ≡ 1
  enqueued true may sure o a b e f g = ground arith
  enqueued false may sure o a b e f g = let lost = may refl in absurd (cc)

  -- The hand-over of a task by thread `i`, where `w'` are the workers after the signal.
  submit-Place :
      (s : System) (w' : ℕ → WorkerPc) (i fd : ℕ) (k : Task) (ok : Bool) (x : ℕ)
      → s.client i ≡ ClientPc.serving fd
      → MayEnqueue env ok
      → count_if (runs x) n w' ≡ count_if (runs x) n s.worker
      → Place (s.heap x) (s.client x) (copies n s x)
      → Place
          (update s.heap i (some (fresh_kaam k)) x)
          (update s.client i (ClientPc.waiting fd k) x)
          (occurs x (enqueue ok s.task_que i) + count_if (runs x) n w')
  submit-Place s w' i fd k ok x at may same p = elim (Bool-cases (i == x)) [
    | inl hit ↦
        let serves : is_waiting (s.client x) ≡ false =
          subst (λ y. is_waiting (s.client y) ≡ false) ((==_iff i x).0 hit) (rw at refl) in
        let (_, no_copy) = quiet (s.heap x) (s.client x) (copies n s x) serves p in
        let added = occurs-enqueue x ok s.task_que i in
        rw hit (
          (fd, refl),
          ground arith,
          λ sure. enqueued ok may sure (occurs x s.task_que) _ _ no_copy same (added ∙ rw hit refl),
        )
    | inr miss ↦
        let added = occurs-enqueue x ok s.task_que i in
        let kept : occurs x (enqueue ok s.task_que i) + count_if (runs x) n w' ≡ copies n s x =
          ground arith in
        rw miss (subst (Place (s.heap x) (s.client x)) (sym kept) p)
  ]

  client-Place :
      (s : System) (i : ℕ) (pc : ClientPc) (x : ℕ)
      → is_waiting (s.client i) ≡ false
      → is_waiting pc ≡ false
      → Place (s.heap x) (s.client x) (copies n s x)
      → Place (s.heap x) (update s.client i pc x) (copies n s x)
  client-Place s i pc x old new p = elim (Bool-cases (i == x)) [
    | inl hit ↦ rw hit (
        Place-quiet (s.heap x) (s.client x) pc (copies n s x)
          (subst (λ y. is_waiting (s.client y) ≡ false) ((==_iff i x).0 hit) old) new p)
    | inr miss ↦ rw miss p
  ]

  resume-Place :
      (s : System) (i fd : ℕ) (t : Kaam) (x : ℕ)
      → s.heap i ≡ some t
      → t.done ≡ true
      → Place (s.heap x) (s.client x) (copies n s x)
      → Place (update s.heap i none x) (update s.client i (ClientPc.serving fd) x) (copies n s x)
  resume-Place s i fd t x has done p = elim (Bool-cases (i == x)) [
    | inl hit ↦
        let here : s.heap x ≡ some t = subst (λ y. s.heap y ≡ some t) ((==_iff i x).0 hit) has in
        let q : Place (some t) (s.client x) (copies n s x) =
          subst (λ h. Place h (s.client x) (copies n s x)) here p in
        let r : PlaceOf true t.task (s.client x) (copies n s x) =
          subst (λ d. PlaceOf d t.task (s.client x) (copies n s x)) done q in
        rw hit (refl, r.1)
    | inr miss ↦ rw miss p
  ]

  ClientStep-Flow : {s u : System} → ClientStep srv env m n s u → Flow s → Flow u
  ClientStep-Flow {s} (ClientStep.take i c que lt at free e) f x =
      client-Place s i (ClientPc.serving c) x (rw at refl) refl (f x)
  ClientStep-Flow {s} (ClientStep.pause i lt at free e r) f x =
      client-Place s i ClientPc.about x (rw at refl) refl (f x)
  ClientStep-Flow {s} (ClientStep.sleep i lt at) f x =
      client-Place s i ClientPc.asleep x (rw at refl) refl (f x)
  ClientStep-Flow {s} (ClientStep.stir i lt at r) f x =
      client-Place s i ClientPc.idle x (rw at refl) refl (f x)
  ClientStep-Flow {s} (ClientStep.submit_wake i c j k ok lt at free may jlt asleep) f x =
      submit-Place s (update s.worker j WorkerPc.idle) i c k ok x at may
        (worker-same s j WorkerPc.idle jlt (λ y. rw asleep refl) (λ y. refl) x) (f x)
  ClientStep-Flow {s} (ClientStep.submit i c k ok lt at free may none_asleep) f x =
      submit-Place s s.worker i c k ok x at may refl (f x)
  ClientStep-Flow {s} (ClientStep.resume i c k t lt at has done) f x =
      resume-Place s i c t x has done (f x)
  ClientStep-Flow {s} (ClientStep.hang_up i c lt at) f x =
      client-Place s i ClientPc.idle x (rw at refl) refl (f x)
  ClientStep-Flow {s} (ClientStep.quit i lt at free e r) f x =
      client-Place s i ClientPc.gone x (rw at refl) refl (f x)

  ServerStep-Flow : {s u : System} → ServerStep srv env m n s u → Flow s → Flow u
  ServerStep-Flow (ServerStep.call_accept at r) f x = f x
  ServerStep-Flow (ServerStep.leave at r) f x = f x
  ServerStep-Flow (ServerStep.accept c at) f x = f x
  ServerStep-Flow (ServerStep.accept_fails at) f x = f x
  ServerStep-Flow {s} (ServerStep.arrive_wake c i ok at free may lt asleep) f x =
      client-Place s i ClientPc.idle x (rw asleep refl) refl (f x)
  ServerStep-Flow (ServerStep.arrive c ok at free may none_asleep) f x = f x
  ServerStep-Flow (ServerStep.finish at cs ws) f x = f x
  ServerStep-Flow (ServerStep.stop at) f x = f x
  ServerStep-Flow {s} (ServerStep.wake_clients at) f x =
      Place-wake (s.heap x) (s.client x) (copies n s x) (f x)
  ServerStep-Flow {s} (ServerStep.wake_workers at) f x =
      subst (λ c. Place (s.heap x) (s.client x) (occurs x s.task_que + c))
        (count_if-ext (runs x) n s.worker _ (λ j. runs-wake x (s.worker j))) (f x)

  Step-Flow : {s u : System} → Step srv env m n s u → Flow s → Flow u
  Step-Flow (of_worker st) f = WorkerStep-Flow st f
  Step-Flow (of_client st) f = ClientStep-Flow st f
  Step-Flow (of_server st) f = ServerStep-Flow st f

  init-Flow : Flow init
  init-Flow x = (refl, omega (arith, count_if-none (runs x) n (λ j. WorkerPc.idle) (λ j. refl)))

  pub Steps-Flow : {s : System} → Steps srv env m n init s → Flow s
  Steps-Flow here = init-Flow
  Steps-Flow (next r st) = Step-Flow st (Steps-Flow r)
