-- ===== src/Pool/Sleeper.antt =====
-- A worker that sleeps when nobody is left to signal: it sleeps for ever, and `main` waits for it.
use client_worker_thread_poo.Base.{ℕ, ◌<◌, ◌≡◌, ◌≢◌, refl, subst, ◌∙◌, Bool, true, false}
use client_worker_thread_poo.Base.Family.{update, update_ne}
use client_worker_thread_poo.Task.Services.{Services}
use client_worker_thread_poo.Pool.Defs.{
  WorkerPc, ClientPc, MainPc, HandlerPc, System, Env, WorkerStep, ClientStep, ServerStep, of_worker,
  of_client, of_server, Steps, here, next,
}
use client_worker_thread_poo.Pool.Abandoned.{clash}

abbrev sleeps : WorkerPc → Bool
sleeps WorkerPc.asleep = true
sleeps _ = false

abbrev has_left : ClientPc → Bool
has_left ClientPc.gone = true
has_left _ = false

abbrev is_over : HandlerPc → Bool
is_over HandlerPc.over = true
is_over _ = false

module _ (srv : Services) (env : Env) (m n j : ℕ) where
  -- The handler is through, the client threads have left, and worker `j` sleeps.
  pub record Forgotten (s : System) : Type 0 where
    pub through : s.handler ≡ HandlerPc.over
    pub left : (i : ℕ) → i < m → s.client i ≡ ClientPc.gone
    pub sleeping : s.worker j ≡ WorkerPc.asleep
    pub unfinished : s.main ≢ MainPc.finished

  no_client :
      {s : System} (a : Forgotten s) (i : ℕ) (p : ClientPc)
      → i < m
      → s.client i ≡ p
      → has_left p ≡ false
      → ⊥
  no_client a i p lt at ne = clash has_left (a.left i lt) at refl ne

  worker_moves :
      {s : System} (a : Forgotten s) (k : ℕ) (old p : WorkerPc)
      → s.worker k ≡ old
      → sleeps old ≡ false
      → update s.worker k p j ≡ WorkerPc.asleep
  worker_moves {s} a k old p at ne =
      update_ne s.worker k j p
        (λ same. clash sleeps a.sleeping (subst (λ x. s.worker x ≡ old) same at) refl ne)
      ∙ a.sleeping

  still :
      {s u : System} (a : Forgotten s)
      → u.handler ≡ s.handler
      → ((i : ℕ) → u.client i ≡ s.client i)
      → u.worker j ≡ WorkerPc.asleep
      → u.main ≢ MainPc.finished
      → Forgotten u
  still a h c w f = record {
    through = h ∙ a.through;
    left = λ i lt. c i ∙ a.left i lt;
    sleeping = w;
    unfinished = f;
  }

  WorkerStep-Forgotten :
      {s u : System} → env.spurious ≡ false → WorkerStep srv env m n s u → Forgotten s → Forgotten u
  WorkerStep-Forgotten sure (WorkerStep.take k o que lt at free e) a =
      still a refl (λ i. refl) (worker_moves a k WorkerPc.idle _ at refl) a.unfinished
  WorkerStep-Forgotten sure (WorkerStep.pause k lt at free e r) a =
      still a refl (λ i. refl) (worker_moves a k WorkerPc.idle _ at refl) a.unfinished
  WorkerStep-Forgotten sure (WorkerStep.sleep k lt at) a =
      still a refl (λ i. refl) (worker_moves a k WorkerPc.about _ at refl) a.unfinished
  WorkerStep-Forgotten sure (WorkerStep.stir k lt at r) a =
      absurd (clash (λ (b : Bool). b) r sure refl refl)
  WorkerStep-Forgotten sure (WorkerStep.finish k o t t' lt at has ran) a =
      still a refl (λ i. refl) (worker_moves a k (WorkerPc.running o) _ at refl) a.unfinished
  WorkerStep-Forgotten sure (WorkerStep.quit k lt at free e r) a =
      still a refl (λ i. refl) (worker_moves a k WorkerPc.idle _ at refl) a.unfinished

  ClientStep-Forgotten : {s u : System} → ClientStep srv env m n s u → Forgotten s → Forgotten u
  ClientStep-Forgotten (ClientStep.take i c que lt at free e) a =
      absurd (no_client a i ClientPc.idle lt at refl)
  ClientStep-Forgotten (ClientStep.pause i lt at free e r) a =
      absurd (no_client a i ClientPc.idle lt at refl)
  ClientStep-Forgotten (ClientStep.sleep i lt at) a =
      absurd (no_client a i ClientPc.about lt at refl)
  ClientStep-Forgotten (ClientStep.stir i lt at r) a =
      absurd (no_client a i ClientPc.asleep lt at refl)
  ClientStep-Forgotten (ClientStep.submit_wake i c k t ok lt at free may klt asleep) a =
      absurd (no_client a i (ClientPc.serving c) lt at refl)
  ClientStep-Forgotten (ClientStep.submit i c t ok lt at free may none_asleep) a =
      absurd (no_client a i (ClientPc.serving c) lt at refl)
  ClientStep-Forgotten (ClientStep.resume i c k t lt at has done) a =
      absurd (no_client a i (ClientPc.waiting c k) lt at refl)
  ClientStep-Forgotten (ClientStep.hang_up i c lt at) a =
      absurd (no_client a i (ClientPc.serving c) lt at refl)
  ClientStep-Forgotten (ClientStep.quit i lt at free e r) a =
      absurd (no_client a i ClientPc.idle lt at refl)

  not_over : {s : System} (a : Forgotten s) (h : HandlerPc) → s.handler ≡ h → is_over h ≡ false → ⊥
  not_over a h at ne = clash is_over a.through at refl ne

  ServerStep-Forgotten :
      {s u : System} → j < n → ServerStep srv env m n s u → Forgotten s → Forgotten u
  ServerStep-Forgotten lt (ServerStep.call_accept at r) a =
      still a refl (λ i. refl) a.sleeping (λ e. cc)
  ServerStep-Forgotten lt (ServerStep.leave at r) a = still a refl (λ i. refl) a.sleeping (λ e. cc)
  ServerStep-Forgotten lt (ServerStep.accept c at) a = still a refl (λ i. refl) a.sleeping (λ e. cc)
  ServerStep-Forgotten lt (ServerStep.accept_fails at) a =
      still a refl (λ i. refl) a.sleeping (λ e. cc)
  ServerStep-Forgotten lt (ServerStep.arrive_wake c i ok at free may ilt asleep) a =
      absurd (no_client a i ClientPc.asleep ilt asleep refl)
  ServerStep-Forgotten lt (ServerStep.arrive c ok at free may none_asleep) a =
      still a refl (λ i. refl) a.sleeping (λ e. cc)
  ServerStep-Forgotten lt (ServerStep.finish at cs ws) a =
      absurd (clash sleeps a.sleeping (ws j lt) refl refl)
  ServerStep-Forgotten lt (ServerStep.stop at) a = absurd (not_over a HandlerPc.ready at refl)
  ServerStep-Forgotten lt (ServerStep.wake_clients at) a =
      absurd (not_over a HandlerPc.stopped at refl)
  ServerStep-Forgotten lt (ServerStep.wake_workers at) a =
      absurd (not_over a HandlerPc.half at refl)

  pub Steps-Forgotten :
      {s u : System}
      → env.spurious ≡ false
      → j < n
      → Steps srv env m n s u
      → Forgotten s
      → Forgotten u
  Steps-Forgotten sure lt here a = a
  Steps-Forgotten sure lt (next r (of_worker st)) a =
      WorkerStep-Forgotten sure st (Steps-Forgotten sure lt r a)
  Steps-Forgotten sure lt (next r (of_client st)) a =
      ClientStep-Forgotten st (Steps-Forgotten sure lt r a)
  Steps-Forgotten sure lt (next r (of_server st)) a =
      ServerStep-Forgotten lt st (Steps-Forgotten sure lt r a)
