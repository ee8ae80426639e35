-- ===== src/Pool/Abandoned.antt =====
-- A client thread whose task no worker will run: it waits for ever, and `main` for it.
use client_worker_thread_poo.Base.{
  ℕ, ◌<◌, ◌≡◌, ◌≢◌, refl, sym, ap, subst, ◌∙◌, Bool, true, false, some, some_inj,
}
use client_worker_thread_poo.Base.Family.{update, update_ne}
use client_worker_thread_poo.Task.Services.{Services}
use client_worker_thread_poo.Task.Defs.{Task}
use client_worker_thread_poo.Pool.Defs.{
  WorkerPc, ClientPc, MainPc, Kaam, System, Env, wake_worker, wake_client, WorkerStep, ClientStep,
  ServerStep, of_worker, of_client, of_server, Steps, here, next,
}

-- Two places are not one.
pub clash : {A : Type 0} {a b c : A} (f : A → Bool) → a ≡ b → a ≡ c → f b ≡ true → f c ≡ false → ⊥
clash f e g t u = let same : f _ ≡ f _ = ap f (sym e ∙ g) in absurd (cc)

abbrev pub is_gone : WorkerPc → Bool
is_gone WorkerPc.gone = true
is_gone _ = false

abbrev pub waits : ClientPc → Bool
waits (ClientPc.waiting fd k) = true
waits _ = false

module _ (srv : Services) (env : Env) (m n : ℕ) where
  -- The workers have left, and client thread `i` waits for a task that is not done.
  pub record Abandoned (i : ℕ) (s : System) : Type 0 where
    pub left : (j : ℕ) → j < n → s.worker j ≡ WorkerPc.gone
    pub fd : ℕ
    pub asked : Task
    pub kaam : Kaam
    pub waiting_here : s.client i ≡ ClientPc.waiting fd asked
    pub on_heap : s.heap i ≡ some kaam
    pub not_done : kaam.done ≡ false
    pub unfinished : s.main ≢ MainPc.finished

  no_worker :
      {s : System} {i : ℕ} (a : Abandoned i s) (j : ℕ) (p : WorkerPc)
      → j < n
      → s.worker j ≡ p
      → is_gone p ≡ false
      → ⊥
  no_worker a j p lt at ne = clash is_gone (a.left j lt) at refl ne

  -- The thread that moves is another one.
  other_client :
      {s : System} {i : ℕ} (a : Abandoned i s) (k : ℕ) (p : ClientPc)
      → s.client k ≡ p
      → waits p ≡ false
      → k ≡ i
      → ⊥
  other_client {s} a k p at ne same =
      clash waits a.waiting_here (subst (λ x. s.client x ≡ p) same at) refl ne

  WorkerStep-Abandoned :
      {s u : System} {i : ℕ} → WorkerStep srv env m n s u → Abandoned i s → Abandoned i u
  WorkerStep-Abandoned (WorkerStep.take j o que lt at free e) a =
      absurd (no_worker a j WorkerPc.idle lt at refl)
  WorkerStep-Abandoned (WorkerStep.pause j lt at free e r) a =
      absurd (no_worker a j WorkerPc.idle lt at refl)
  WorkerStep-Abandoned (WorkerStep.sleep j lt at) a =
      absurd (no_worker a j WorkerPc.about lt at refl)
  WorkerStep-Abandoned (WorkerStep.stir j lt at r) a =
      absurd (no_worker a j WorkerPc.asleep lt at refl)
  WorkerStep-Abandoned (WorkerStep.finish j o k k' lt at has ran) a =
      absurd (no_worker a j (WorkerPc.running o) lt at refl)
  WorkerStep-Abandoned (WorkerStep.quit j lt at free e r) a =
      absurd (no_worker a j WorkerPc.idle lt at refl)

  client_moves :
      {s : System} {i : ℕ} (a : Abandoned i s) (k : ℕ) (p : ClientPc)
      → (k ≡ i → ⊥)
      → update s.client k p i ≡ ClientPc.waiting a.fd a.asked
  client_moves {s} {i} a k p ne = update_ne s.client k i p ne ∙ a.waiting_here

  still :
      {s u : System} {i : ℕ} (a : Abandoned i s)
      → ((j : ℕ) → j < n → u.worker j ≡ WorkerPc.gone)
      → u.client i ≡ ClientPc.waiting a.fd a.asked
      → u.heap i ≡ some a.kaam
      → u.main ≢ MainPc.finished
      → Abandoned i u
  still a l c h f = record {
    left = l;
    fd = a.fd;
    asked = a.asked;
    kaam = a.kaam;
    waiting_here = c;
    on_heap = h;
    not_done = a.not_done;
    unfinished = f;
  }

  ClientStep-Abandoned :
      {s u : System} {i : ℕ} → ClientStep srv env m n s u → Abandoned i s → Abandoned i u
  ClientStep-Abandoned (ClientStep.take k c que lt at free e) a =
      still a a.left (client_moves a k _ (other_client a k ClientPc.idle at refl)) a.on_heap
        a.unfinished
  ClientStep-Abandoned (ClientStep.pause k lt at free e r) a =
      still a a.left (client_moves a k _ (other_client a k ClientPc.idle at refl)) a.on_heap
        a.unfinished
  ClientStep-Abandoned (ClientStep.sleep k lt at) a =
      still a a.left (client_moves a k _ (other_client a k ClientPc.about at refl)) a.on_heap
        a.unfinished
  ClientStep-Abandoned (ClientStep.stir k lt at r) a =
      still a a.left (client_moves a k _ (other_client a k ClientPc.asleep at refl)) a.on_heap
        a.unfinished
  ClientStep-Abandoned (ClientStep.submit_wake k c j t ok lt at free may jlt asleep) a =
      absurd (no_worker a j WorkerPc.asleep jlt asleep refl)
  ClientStep-Abandoned {s} {i = i} (ClientStep.submit k c t ok lt at free may none_asleep) a =
      let ne = other_client a k (ClientPc.serving c) at refl in
      still a a.left (client_moves a k _ ne) (update_ne s.heap k i _ ne ∙ a.on_heap) a.unfinished
  ClientStep-Abandoned {s} {i = i} (ClientStep.resume k c t' t lt at has done) a =
      let ne : k ≡ i → ⊥ = λ same.
        let own : t ≡ a.kaam =
          some_inj (sym has ∙ subst (λ x. s.heap x ≡ some a.kaam) (sym same) a.on_heap) in
        clash (λ (d : Bool). d) done (ap (λ (x : Kaam). x.done) own ∙ a.not_done) refl refl in
      still a a.left (client_moves a k _ ne) (update_ne s.heap k i _ ne ∙ a.on_heap) a.unfinished
  ClientStep-Abandoned (ClientStep.hang_up k c lt at) a =
      still a a.left (client_moves a k _ (other_client a k (ClientPc.serving c) at refl)) a.on_heap
        a.unfinished
  ClientStep-Abandoned (ClientStep.quit k lt at free e r) a =
      still a a.left (client_moves a k _ (other_client a k ClientPc.idle at refl)) a.on_heap
        a.unfinished

  ServerStep-Abandoned :
      {s u : System} {i : ℕ} → i < m → ServerStep srv env m n s u → Abandoned i s → Abandoned i u
  ServerStep-Abandoned lt (ServerStep.call_accept at r) a =
      still a a.left a.waiting_here a.on_heap (λ e. cc)
  ServerStep-Abandoned lt (ServerStep.leave at r) a =
      still a a.left a.waiting_here a.on_heap (λ e. cc)
  ServerStep-Abandoned lt (ServerStep.accept c at) a =
      still a a.left a.waiting_here a.on_heap (λ e. cc)
  ServerStep-Abandoned lt (ServerStep.accept_fails at) a =
      still a a.left a.waiting_here a.on_heap (λ e. cc)
  ServerStep-Abandoned lt (ServerStep.arrive_wake c k ok at free may klt asleep) a =
      still a a.left (client_moves a k _ (other_client a k ClientPc.asleep asleep refl)) a.on_heap
        (λ e. cc)
  ServerStep-Abandoned lt (ServerStep.arrive c ok at free may none_asleep) a =
      still a a.left a.waiting_here a.on_heap (λ e. cc)
  ServerStep-Abandoned {i = i} lt (ServerStep.finish at cs ws) a =
      absurd (clash waits a.waiting_here (cs i lt) refl refl)
  ServerStep-Abandoned lt (ServerStep.stop at) a =
      still a a.left a.waiting_here a.on_heap a.unfinished
  ServerStep-Abandoned lt (ServerStep.wake_clients at) a =
      still a a.left (ap wake_client a.waiting_here) a.on_heap a.unfinished
  ServerStep-Abandoned lt (ServerStep.wake_workers at) a =
      still a (λ j jlt. ap wake_worker (a.left j jlt)) a.waiting_here a.on_heap a.unfinished

  pub Steps-Abandoned :
      {s u : System} {i : ℕ} → i < m → Steps srv env m n s u → Abandoned i s → Abandoned i u
  Steps-Abandoned lt here a = a
  Steps-Abandoned lt (next r (of_worker st)) a = WorkerStep-Abandoned st (Steps-Abandoned lt r a)
  Steps-Abandoned lt (next r (of_client st)) a = ClientStep-Abandoned st (Steps-Abandoned lt r a)
  Steps-Abandoned lt (next r (of_server st)) a = ServerStep-Abandoned lt st (Steps-Abandoned lt r a)
