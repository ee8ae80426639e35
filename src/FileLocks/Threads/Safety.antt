-- ===== src/FileLocks/Threads/Safety.antt =====
-- Mutual exclusion, progress and the absence of leaked slots, for every interleaving.
use client_worker_thread_poo.Base.{
  ℕ, ◌+◌, ◌^◌, ◌≤◌, ◌<◌, ◌≡◌, refl, sym, ap, subst, ◌∙◌, inl, inr, Bool, true, false, none, some,
  some_inj, arith, ==_iff, Text, get_elem?, ℕ_discrete, Bool-cases,
}
use client_worker_thread_poo.Base.Family.{count_if-two, count_if-none, count_if-witness}
use client_worker_thread_poo.FileLocks.Defs.{FileLock, FileLockTable, lock_slot}
use client_worker_thread_poo.FileLocks.Refs.{refs, refs_none}
use client_worker_thread_poo.FileLocks.Table.{path_unique, used_count_none, path_of_holds}
use client_worker_thread_poo.FileLocks.Threads.{System, Reach}
use client_worker_thread_poo.FileLocks.Threads.Counts.{
  Pc, idle, waiting, holding, on_slot, holds_slot, bit,
}
use client_worker_thread_poo.FileLocks.Threads.Inv.{Placed, Inv, Reach-Inv}

bit_le : (b : Bool) → bit b ≤ 1
bit_le b = ground arith

holding_of : (k : ℕ) (q : Pc) → holds_slot k q ≡ true → (p : Text) × (q ≡ holding p k)
holding_of k idle h = cc
holding_of k (waiting p j) h = cc
holding_of k (holding p j) h = (p, ap (holding p) ((==_iff j k).0 h))

-- A slot that cannot be locked is locked.
lock_slot-none :
    (s : FileLockTable) (k : ℕ) (l : FileLock)
    → get_elem? s.locks k ≡ some l
    → lock_slot s k ≡ none
    → l.lock ≡ true
unfolding lock_slot
lock_slot-none s k l at e = ground arith

module _ (n : ℕ) (s : System) (few : n + 1 < 2 ^ 31) (r : Reach n s) where
  -- In every state that fewer than 2 ^ 31 - 1 threads can reach with paths of less than 512 bytes
  -- (every thread's paths, however the threads are interleaved), two threads that hold the lock of one
  -- path are one thread.
  pub mutual_exclusion :
      (i j k m : ℕ) (p : Text) → i < n → j < n → s.pc i ≡ holding p k → s.pc j ≡ holding p m → i ≡ j
  mutual_exclusion i j k m p li lj hi hj = elim (ℕ_discrete i j) [
    | yes same ↦ same
    | no ne ↦
        let v = Reach-Inv n few r in
        let (a, at, ah) = subst (Placed s.table.locks) hi (v.placed i li) in
        let (b, bt, bh) = subst (Placed s.table.locks) hj (v.placed j lj) in
        let slot : k ≡ m = path_unique s.table p k m a b v.table at bt ah bh in
        absurd (
          omega (
            arith,
            bit_le a.lock,
            v.counts.locked k a at,
            count_if-two (holds_slot k) n s.pc i j li lj ne (rw hi ((==_iff k k).1 refl))
                (rw (hj, slot) ((==_iff m m).1 refl)),
          ))
  ]

  -- In every state that fewer than 2 ^ 31 - 1 threads can reach with paths of less than 512 bytes, a
  -- thread that waits for a slot whose mutex cannot be taken now waits for a thread that holds the
  -- lock of the same path in the same slot.
  pub waiting_progress :
      (i k : ℕ) (p : Text)
      → i < n
      → s.pc i ≡ waiting p k
      → lock_slot s.table k ≡ none
      → (j : ℕ) × (j < n) × (s.pc j ≡ holding p k)
  waiting_progress i k p lt here e =
      let v = Reach-Inv n few r in
      let (l, at, has) = subst (Placed s.table.locks) here (v.placed i lt) in
      let held : l.lock ≡ true = lock_slot-none s.table k l at e in
      let (j, jt, hj) =
        count_if-witness (holds_slot k) n s.pc
          (omega (arith, v.counts.locked k l at, ap bit held)) in
      let (q, ej) = holding_of k (s.pc j) hj in
      let (m, mt, hm) = subst (Placed s.table.locks) ej (v.placed j jt) in
      let same : l ≡ m = some_inj (sym at ∙ mt) in
      let path : q ≡ p =
        sym (path_of_holds q m hm)
        ∙ ap (λ (x : FileLock). x.filepath) (sym same)
        ∙ path_of_holds p l has in
      (j, jt, ej ∙ ap (λ x. holding x k) path)

  -- In every state that fewer than 2 ^ 31 - 1 threads can reach with paths of less than 512 bytes, and
  -- in which no thread holds or awaits a lock, every slot has been given back: the table's `count`
  -- is 0 and no path has a reference.
  pub slots_returned :
      ((i : ℕ) → s.pc i ≡ idle) → (s.table.count ≡ 0) × ((q : Text) → refs s.table q ≡ 0)
  slots_returned quiet =
      let v = Reach-Inv n few r in
      (
        v.table.counted ∙ used_count_none s.table.locks (unused v),
        λ q. refs_none s.table q λ k l at. rw (unused v k l at),
      )
    where
      unused :
          Inv n s → (k : ℕ) (l : FileLock) → get_elem? s.table.locks k ≡ some l → l.in_use ≡ false
      unused v k l at = elim (Bool-cases l.in_use) [
        | inl used ↦ absurd (
            omega (
              arith,
              (v.table.slots k l at).used used,
              v.counts.referenced k l at,
              count_if-none (on_slot k) n s.pc (λ i. rw (quiet i)),
            ))
        | inr free ↦ free
      ]
