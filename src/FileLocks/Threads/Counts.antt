-- ===== src/FileLocks/Threads/Counts.antt =====
-- Where a thread stands with respect to the slots, and the counts that the slots keep of it.
use client_worker_thread_poo.Base.{
  ℕ, ◌+◌, ◌<◌, ◌≡◌, ◌≢◌, sym, ap, inl, inr, Bool, false, some, List, arith, ◌==◌, Text, get_elem?,
  set, if◌then◌else◌,
}
use client_worker_thread_poo.Base.Family.{update, count_if, count_if-update}
use client_worker_thread_poo.FileLocks.Defs.{FileLock}
use client_worker_thread_poo.FileLocks.Table.{get_elem?-set_inv}

-- Before `acquire_file_lock`; inside it, before the slot's mutex; after it.
pub data Pc : Type 0 where
  idle : Pc
  waiting : Text → ℕ → Pc
  holding : Text → ℕ → Pc

abbrev pub on_slot : ℕ → Pc → Bool
on_slot k idle = false
on_slot k (waiting p j) = j == k
on_slot k (holding p j) = j == k

abbrev pub holds_slot : ℕ → Pc → Bool
holds_slot k idle = false
holds_slot k (waiting p j) = false
holds_slot k (holding p j) = j == k

abbrev pub bit : Bool → ℕ
bit b = if b then 1 else 0

-- `ref_count` counts the threads on the slot, and the mutex is held by as many as it says.
pub record Counts (n : ℕ) (ls : List FileLock) (pc : ℕ → Pc) : Type 0 where
  pub referenced :
      (k : ℕ) (l : FileLock) → get_elem? ls k ≡ some l → l.ref_count ≡ count_if (on_slot k) n pc
  pub locked :
      (k : ℕ) (l : FileLock) → get_elem? ls k ≡ some l → bit l.lock ≡ count_if (holds_slot k) n pc

-- A thread goes from one place to another and the slot `k` from `l` to `v`, in step.
pub record InStep (k : ℕ) (l v : FileLock) (p p' : Pc) : Type 0 where
  pub refs_move : v.ref_count + bit (on_slot k p) ≡ l.ref_count + bit (on_slot k p')
  pub lock_move : bit v.lock + bit (holds_slot k p) ≡ bit l.lock + bit (holds_slot k p')
  pub others_on : (j : ℕ) → j ≢ k → on_slot j p ≡ on_slot j p'
  pub others_hold : (j : ℕ) → j ≢ k → holds_slot j p ≡ holds_slot j p'

module _ (n : ℕ) (ls : List FileLock) (pc : ℕ → Pc) (c : Counts n ls pc) where
  pub Counts-set :
      (i k : ℕ) (l v : FileLock) (p' : Pc)
      → i < n
      → get_elem? ls k ≡ some l
      → InStep k l v (pc i) p'
      → Counts n (set ls k v) (update pc i p')
  Counts-set i k l v p' lt at m = record {
    referenced = λ j e ej. elim (get_elem?-set_inv ls k j v e ej) [
      | inl (kj, ev) ↦
          rw (ev, ← kj)
            (omega
              (arith, count_if-update (on_slot k) n pc i p' lt, m.refs_move, c.referenced k l at))
      | inr (kj, old) ↦ omega (
        arith,
        count_if-update (on_slot j) n pc i p' lt,
        ap bit (m.others_on j λ q. kj (sym q)),
        c.referenced j e old,
      )
    ];
    locked = λ j e ej. elim (get_elem?-set_inv ls k j v e ej) [
      | inl (kj, ev) ↦
          rw (ev, ← kj)
            (omega
              (arith, count_if-update (holds_slot k) n pc i p' lt, m.lock_move, c.locked k l at))
      | inr (kj, old) ↦ omega (
        arith,
        count_if-update (holds_slot j) n pc i p' lt,
        ap bit (m.others_hold j λ q. kj (sym q)),
        c.locked j e old,
      )
    ];
  }
