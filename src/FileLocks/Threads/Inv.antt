-- ===== src/FileLocks/Threads/Inv.antt =====
-- What holds in every reachable state of the threads and their table.
use mathlib.Core.Bool.{false≢true}
use client_worker_thread_poo.Base.{
  ℕ, ◌+◌, ◌^◌, ◌≤◌, ◌<◌, ◌≡◌, ◌≢◌, refl, sym, subst, ◌∙◌, ◌⊎◌, inl, inr, true, false, Option, none,
  some, ==_iff, some_inj, List, arith, ◌==◌, Text, length, get_elem?, set, get_elem?-set_self,
  get_elem?-set_ne, ℕ_discrete, dec32_small, Bool-cases,
}
use client_worker_thread_poo.Base.Family.{
  update, count_if-le, count_if-pos, count_if-two, count_if-none,
}
use client_worker_thread_poo.FileLocks.Defs.{
  FileLock, FileLockTable, file_lock_table_init, max_file_locks, filepath_max, holds_path, claim,
  lock_slot, drop_ref,
}
use client_worker_thread_poo.FileLocks.Find.{
  Acquired, shared, created, full, claimed, acquire_slot-Acquired, Released, dropped, missing,
  release_file_lock-Released,
}
use client_worker_thread_poo.FileLocks.Table.{
  IsTable, IsSlot, Countable, set-IsTable, acquire_slot-IsTable, release_file_lock-IsTable,
  lock_slot-inv, claim-holds_path, path_unique, claim-count_ref,
}
use client_worker_thread_poo.FileLocks.Initial.{init-IsTable, free_lock-at}
use client_worker_thread_poo.FileLocks.Threads.{
  System, Step, request, refuse, enter, leave, init, ShortWaits, Reach, start, later,
}
use client_worker_thread_poo.FileLocks.Threads.Counts.{
  Pc, idle, waiting, holding, on_slot, holds_slot, Counts, InStep, Counts-set,
}

-- Slot `k` is in use for the path.
abbrev pub At : List FileLock → Text → ℕ → Type 0
At ls p k = (l : FileLock) × (get_elem? ls k ≡ some l) × (holds_path p l ≡ true)

-- A thread on a slot finds there the path that it asked for.
abbrev pub Placed : List FileLock → Pc → Type 0
Placed ls idle = Unit {0}
Placed ls (waiting p k) = At ls p k
Placed ls (holding p k) = At ls p k

pub record Inv (n : ℕ) (s : System) : Type 0 where
  pub table : IsTable s.table
  pub counts : Counts n s.table.locks s.pc
  pub placed : (i : ℕ) → i < n → Placed s.table.locks (s.pc i)

At-set :
    (ls : List FileLock) (k : ℕ) (l v : FileLock) (p : Text) (j : ℕ)
    → get_elem? ls k ≡ some l
    → (j ≡ k → holds_path p l ≡ true → holds_path p v ≡ true)
    → At ls p j
    → At (set ls k v) p j
At-set ls k l v p j at keep (m, mt, has) = elim (ℕ_discrete j k) [
  | yes e ↦
      let same : m ≡ l = some_inj (sym mt ∙ subst (λ i. get_elem? ls i ≡ some l) (sym e) at) in
      (v, rw e (get_elem?-set_self ls k v l at), keep e (rw (← same) has))
  | no ne ↦ (m, get_elem?-set_ne ls k j v (λ q. ne (sym q)) ∙ mt, has)
]

-- The place of a thread survives a write that keeps the path of its slot.
Placed-set :
    (ls : List FileLock) (k : ℕ) (l v : FileLock) (q : Pc)
    → get_elem? ls k ≡ some l
    → (on_slot k q ≡ true → (p : Text) → holds_path p l ≡ true → holds_path p v ≡ true)
    → Placed ls q
    → Placed (set ls k v) q
Placed-set ls k l v idle at keep h = tt
Placed-set ls k l v (waiting p j) at keep h =
    At-set ls k l v p j at (λ e. keep ((==_iff j k).1 e) p) h
Placed-set ls k l v (holding p j) at keep h =
    At-set ls k l v p j at (λ e. keep ((==_iff j k).1 e) p) h

Placed-update :
    (n : ℕ) (ls : List FileLock) (pc : ℕ → Pc) (i k : ℕ) (l v : FileLock) (p' : Pc)
    → get_elem? ls k ≡ some l
    → ((j : ℕ)
        → j < n
        → i ≢ j
        → on_slot k (pc j) ≡ true
        → (p : Text) → holds_path p l ≡ true
        → holds_path p v ≡ true)
    → ((j : ℕ) → j < n → Placed ls (pc j))
    → Placed (set ls k v) p'
    → (j : ℕ) → j < n
    → Placed (set ls k v) (update pc i p' j)
Placed-update n ls pc i k l v p' at keep old new j lt = elim (Bool-cases (i == j)) [
  | inl hit ↦ rw hit new
  | inr miss ↦ rw miss (
      Placed-set ls k l v (pc j) at (keep j lt (λ e. false≢true (sym miss ∙ (==_iff i j).1 e)))
        (old j lt))
]

claim-InStep :
    (p : Text) (k : ℕ) (l : FileLock)
    → l.ref_count + 1 < 2 ^ 31
    → IsSlot l
    → InStep k l (claim p l) idle (waiting p k)
unfolding claim
claim-InStep p k l c s = record {
  refs_move = ground (arith, claim-count_ref p l);
  lock_move = ground arith;
  others_on = λ j ne. ground arith;
  others_hold = λ j ne. refl;
}

lock-InStep :
    (p : Text) (k : ℕ) (l : FileLock)
    → l.lock ≡ false
    → InStep k l (record l { lock = true }) (waiting p k) (holding p k)
lock-InStep p k l free = record {
  refs_move = refl;
  lock_move = ground arith;
  others_on = λ j ne. refl;
  others_hold = λ j ne. ground arith;
}

drop-InStep :
    (p : Text) (k : ℕ) (l : FileLock)
    → l.lock ≡ true
    → IsSlot l
    → l.in_use ≡ true
    → InStep k l (drop_ref l) (holding p k) idle
unfolding drop_ref
drop-InStep p k l held s used = record {
  refs_move = ground (arith, dec32_small l.ref_count);
  lock_move = ground arith;
  others_on = λ j ne. ground arith;
  others_hold = λ j ne. ground arith;
}

claim-keeps : (p q : Text) (l : FileLock) → holds_path q l ≡ true → holds_path q (claim p l) ≡ true
unfolding claim
claim-keeps p q l h = ground arith

drop_ref-keeps :
    (q : Text) (l : FileLock)
    → 2 ≤ l.ref_count
    → l.ref_count < 2 ^ 31
    → holds_path q l ≡ true
    → holds_path q (drop_ref l) ≡ true
unfolding drop_ref
drop_ref-keeps q l two small h = ground (arith, dec32_small l.ref_count)

module _ (n : ℕ) (few : n + 1 < 2 ^ 31) (s : System) (v : Inv n s) where
  Inv-Countable : Countable s.table
  Inv-Countable k l at = omega (arith, v.counts.referenced k l at, count_if-le (on_slot k) n s.pc)

  claimed-Inv :
      (i k : ℕ) (p : Text) (l : FileLock)
      → i < n
      → s.pc i ≡ idle
      → length p < filepath_max
      → get_elem? s.table.locks k ≡ some l
      → (holds_path p l ≡ true) ⊎ (l.in_use ≡ false)
      → IsTable (claimed s.table p k l).1
      → Inv n (record { table = (claimed s.table p k l).1; pc = update s.pc i (waiting p k) })
  claimed-Inv i k p l lt here short at how w = record {
    table = w;
    counts =
        Counts-set n s.table.locks s.pc v.counts i k l (claim p l) (waiting p k) lt at
          (rw here (claim-InStep p k l (Inv-Countable k l at) (v.table.slots k l at)));
    placed =
        Placed-update n s.table.locks s.pc i k l (claim p l) (waiting p k) at
          (λ j _ _ _ q. claim-keeps p q l) v.placed
          (
            claim p l,
            get_elem?-set_self s.table.locks k (claim p l) l at,
            claim-holds_path p l short how,
          );
  }

  request-Inv :
      (p : Text) (r : Option ℕ × FileLockTable) (i k : ℕ)
      → i < n
      → s.pc i ≡ idle
      → length p < filepath_max
      → Acquired s.table p r
      → IsTable r.1
      → r.0 ≡ some k
      → Inv n (record { table = r.1; pc = update s.pc i (waiting p k) })
  request-Inv p _ i k lt here short (shared j l at has) w e =
      let same : j ≡ k = some_inj e in
      subst
        (λ m.
          Inv n (record { table = (claimed s.table p j l).1; pc = update s.pc i (waiting p m) }))
        same (claimed-Inv i j p l lt here short at (inl has) w)
  request-Inv p _ i k lt here short (created j l at unused none_has) w e =
      let same : j ≡ k = some_inj e in
      subst
        (λ m.
          Inv n (record { table = (claimed s.table p j l).1; pc = update s.pc i (waiting p m) }))
        same (claimed-Inv i j p l lt here short at (inr unused) w)
  request-Inv p _ i k lt here short (full a b) w e = cc

  enter-Inv :
      (i k : ℕ) (p : Text) (t : FileLockTable)
      → i < n
      → s.pc i ≡ waiting p k
      → lock_slot s.table k ≡ some t
      → Inv n (record { table = t; pc = update s.pc i (holding p k) })
  enter-Inv i k p t lt here e =
      let (l, at, free, et) = lock_slot-inv s.table t k e in
      let asked : At s.table.locks p k = subst (Placed s.table.locks) here (v.placed i lt) in
      rw et (record {
        table =
            set-IsTable s.table k l (record l { lock = true }) _ v.table at
              (let o = v.table.slots k l at in
                record { used = o.used; unused = o.unused; word = o.word; clipped = o.clipped })
              (λ u j m ne bt um same. ne (v.table.unique k j l m at bt u um same)) refl;
        counts =
            Counts-set n s.table.locks s.pc v.counts i k l (record l { lock = true }) (holding p k)
              lt at (rw here (lock-InStep p k l free));
        placed =
            Placed-update n s.table.locks s.pc i k l (record l { lock = true }) (holding p k) at
              (λ j _ _ _ q h. h) v.placed
              (At-set s.table.locks k l (record l { lock = true }) p k at (λ _ h. h) asked);
      })

  -- The slot of a thread that is inside has its mutex held, and a reference for each thread on it.
  holding-locked :
      (i k : ℕ) (p : Text) (l : FileLock)
      → i < n
      → s.pc i ≡ holding p k
      → get_elem? s.table.locks k ≡ some l
      → l.lock ≡ true
  holding-locked i k p l lt here at = ground (
    arith,
    v.counts.locked k l at,
    count_if-pos (holds_slot k) n s.pc i lt (rw here ((==_iff k k).1 refl)),
  )

  leave-Inv :
      (t : FileLockTable) (i k : ℕ) (p : Text)
      → i < n
      → s.pc i ≡ holding p k
      → Released s.table p t
      → IsTable t
      → Inv n (record { table = t; pc = update s.pc i idle })
  leave-Inv _ i k p lt here (dropped m l at has) w =
      let (o, ot, oh) = subst (Placed s.table.locks) here (v.placed i lt) in
      let same : m ≡ k = path_unique s.table p m k l o v.table at ot has oh in
      let inside : s.pc i ≡ holding p m = rw same here in
      record {
        table = w;
        counts = Counts-set n s.table.locks s.pc v.counts i m l (drop_ref l) idle lt at (
            rw inside (
              drop-InStep p m l (holding-locked i m p l lt inside at) (v.table.slots m l at)
                (ground arith)));
        placed =
            Placed-update n s.table.locks s.pc i m l (drop_ref l) idle at
              (λ j jt ne on q.
                drop_ref-keeps q l
                  (omega (
                    arith,
                    v.counts.referenced m l at,
                    count_if-two (on_slot m) n s.pc i j lt jt ne (rw inside ((==_iff m m).1 refl))
                        on,
                  ))
                  (v.table.slots m l at).word)
              v.placed tt;
      }
  leave-Inv _ i k p lt here (missing absent) w =
      let (o, ot, oh) = subst (Placed s.table.locks) here (v.placed i lt) in
      absurd (false≢true (sym (absent k o ot) ∙ oh))

  refuse-Inv :
      (p : Text) (r : Option ℕ × FileLockTable)
      → Acquired s.table p r
      → r.0 ≡ none
      → Inv n (record { table = r.1; pc = s.pc })
  refuse-Inv p _ (shared j l at has) e = cc
  refuse-Inv p _ (created j l at unused a) e = cc
  refuse-Inv p _ (full a b) e = v

  -- Each step of a thread that takes the lock of a short path keeps the invariant.
  pub Step-Inv : {t : System} → Step n s t → ShortWaits n t → Inv n t
  Step-Inv (request i k p t lt here e) shorts =
      let short = shorts i k p lt (rw ((==_iff i i).1 refl) refl) in
      request-Inv p (some k, t) i k lt here short
        (subst (Acquired s.table p) e (acquire_slot-Acquired s.table p))
        (subst (λ r. IsTable r.1) e (acquire_slot-IsTable s.table p short v.table Inv-Countable))
        refl
  Step-Inv (refuse i p t lt here e) shorts =
      refuse-Inv p (none, t) (subst (Acquired s.table p) e (acquire_slot-Acquired s.table p)) refl
  Step-Inv (enter i k p t lt here e) shorts = enter-Inv i k p t lt here e
  Step-Inv (leave i k p lt here) shorts =
      leave-Inv _ i k p lt here (release_file_lock-Released s.table p)
        (release_file_lock-IsTable s.table p v.table)

init-Inv : (n : ℕ) → Inv n init
unfolding init file_lock_table_init
init-Inv n = record {
  table = init-IsTable;
  counts = record {
    referenced = λ k l e.
        rw (free_lock-at max_file_locks k l e) (sym (count_if-none (on_slot k) n _ (λ i. refl)));
    locked = λ k l e.
        rw (free_lock-at max_file_locks k l e) (sym (count_if-none (holds_slot k) n _ (λ i. refl)));
  };
  placed = λ i lt. tt;
}

pub Reach-Inv : (n : ℕ) {s : System} → n + 1 < 2 ^ 31 → Reach n s → Inv n s
Reach-Inv n few start = init-Inv n
Reach-Inv n few (later {s} r st shorts) = Step-Inv n few s (Reach-Inv n few r) st shorts
