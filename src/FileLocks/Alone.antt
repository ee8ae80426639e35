-- ===== src/FileLocks/Alone.antt =====
-- The locks of a worker that runs while no other thread holds or waits for one: it never waits, and
-- its release gives the table back.
use mathlib.Core.Bool.{false≢true}
use client_worker_thread_poo.Base.{
  List, [], ◌∷◌, not, length-set, length-replicate, Bool-cases, ◌==◌, some_inj, ℕ, ◌<◌, ◌≡◌, ◌≢◌,
  refl, sym, ap, subst, ◌∙◌, inl, inr, true, false, Option, none, some, arith, Text, length,
  get_elem?, set, get_elem?-set_self, get_elem?-set_ne, inc32_small, dec32_small, dec32,
}
use client_worker_thread_poo.FileLocks.Defs.{
  FileLock, free_lock, FileLockTable, holds_path, filepath_max, claim, count_claim, acquire_slot,
  lock_slot, drop_ref, count_drop, release_file_lock, file_lock_table_init, max_file_locks,
}
use client_worker_thread_poo.FileLocks.Find.{
  claimed, Acquired, shared, created, full, Released, dropped, missing, acquire_slot-Acquired,
  release_file_lock-Released,
}
use client_worker_thread_poo.FileLocks.Initial.{free_lock-at}
use client_worker_thread_poo.FileLocks.Table.{claim-holds_path, get_elem?-set_inv}

-- A slot that nobody uses
pub record IsFree (l : FileLock) : Type 0 where
  pub unused : l.in_use ≡ false
  pub unlocked : l.lock ≡ false
  pub no_ref : l.ref_count ≡ 0

-- No lock is held or waited for.
pub record AllFree (t : FileLockTable) : Type 0 where
  pub capacity : length t.locks ≡ max_file_locks
  pub counted : t.count ≡ 0
  pub free : (i : ℕ) (l : FileLock) → get_elem? t.locks i ≡ some l → IsFree l

-- One lock is held, that of `p`, and nobody waits for it.
pub record OnlyLocked (p : Text) (t : FileLockTable) : Type 0 where
  pub index : ℕ
  pub entry : FileLock
  pub at : get_elem? t.locks index ≡ some entry
  pub path : holds_path p entry ≡ true
  pub locked : entry.lock ≡ true
  pub one_ref : entry.ref_count ≡ 1
  pub counted : t.count ≡ 1
  pub capacity : length t.locks ≡ max_file_locks
  pub free : (j : ℕ) (k : FileLock) → index ≢ j → get_elem? t.locks j ≡ some k → IsFree k

-- The table is full, or the slot is not locked and locking it leaves this lock the only one.
abbrev pub Alone : Text → Option ℕ × FileLockTable → Type 0
Alone p (none, t) = AllFree t
Alone p (some i, t) = (u : FileLockTable) × (lock_slot t i ≡ some u) × OnlyLocked p u

claim_free :
    (p : Text) (l : FileLock)
    → length p < filepath_max
    → IsFree l
    → (holds_path p (claim p l) ≡ true)
      × ((claim p l).lock ≡ false)
      × ((claim p l).ref_count ≡ 1)
      × (count_claim 0 l ≡ 1)
unfolding claim count_claim
claim_free p l short f =
    let one = inc32_small 0 (omega arith) in
    (
      claim-holds_path p l short (inr f.unused),
      rw f.unused f.unlocked,
      rw f.unused one,
      rw f.unused one,
    )

lock_slot_free :
    (t : FileLockTable) (i : ℕ) (l : FileLock)
    → get_elem? t.locks i ≡ some l
    → l.lock ≡ false
    → lock_slot t i ≡ some (record t { locks = set t.locks i (record l { lock = true }) })
unfolding lock_slot
lock_slot_free t i l at free = rw (lock_slot, at, free) refl

Acquired-Alone :
    (t : FileLockTable) (p : Text) (r : Option ℕ × FileLockTable)
    → length p < filepath_max
    → AllFree t
    → Acquired t p r
    → Alone p r
Acquired-Alone t p _ short a (shared i l at has) =
    absurd (false≢true (ground (arith, (a.free i l at).unused)))
Acquired-Alone t p _ short a (created i l at unused n) =
    let (holds, unlocked, one, n₁) = claim_free p l short (a.free i l at) in
    let there = get_elem?-set_self t.locks i (claim p l) l at in
    (
      record {
        locks = set (set t.locks i (claim p l)) i (record (claim p l) { lock = true });
        count = count_claim t.count l;
      },
      lock_slot_free (claimed t p i l).1 i (claim p l) there unlocked,
      record {
        index = i;
        entry = record (claim p l) { lock = true };
        at = get_elem?-set_self (set t.locks i (claim p l)) i _ (claim p l) there;
        path = holds;
        locked = refl;
        one_ref = one;
        counted = rw a.counted n₁;
        capacity = omega (
          arith,
          a.capacity,
          length-set {0} t.locks i (claim p l),
          length-set {0} (set t.locks i (claim p l)) i (record (claim p l) { lock = true }),
        );
        free = λ j k ne e. a.free j k (
            sym (get_elem?-set_ne t.locks i j (claim p l) ne)
            ∙ sym (get_elem?-set_ne (set t.locks i (claim p l)) i j _ ne)
            ∙ e);
      },
    )
Acquired-Alone t p _ short a (full n m) = a

-- A worker that is alone does not wait for a lock.
pub acquire_slot-Alone :
    (t : FileLockTable) (p : Text)
    → length p < filepath_max
    → AllFree t
    → Alone p (acquire_slot t p)
acquire_slot-Alone t p short a = Acquired-Alone t p _ short a (acquire_slot-Acquired t p)

drop_ref-IsFree : (l : FileLock) → l.ref_count ≡ 1 → IsFree (drop_ref l)
unfolding drop_ref
drop_ref-IsFree l e =
    let zero = dec32_small 1 (omega arith) (omega arith) in
    rw (e, zero) (record { unused = refl; unlocked = refl; no_ref = refl })

-- The slot of the path is the one that is locked.
same_slot :
    (t : FileLockTable) (p : Text) (i : ℕ) (l : FileLock) (o : OnlyLocked p t)
    → get_elem? t.locks i ≡ some l
    → l.in_use ≡ true
    → o.index ≡ i
same_slot t p i l o at used = elim (Bool-cases (o.index == i)) [
  | inl same ↦ ground arith
  | inr other ↦ absurd (false≢true (sym (o.free i l (ground arith) at).unused ∙ used))
]

count_drop_one : (l : FileLock) → l.ref_count ≡ 1 → count_drop 1 l ≡ 0
unfolding count_drop dec32
count_drop_one l e = rw e refl

Released-AllFree :
    (t : FileLockTable) (p : Text) (u : FileLockTable) → OnlyLocked p t → Released t p u → AllFree u
Released-AllFree t p _ o (dropped i l at has) =
    let same = same_slot t p i l o at (ground arith) in
    let entry : l ≡ o.entry = some_inj (sym at ∙ ap (get_elem? t.locks) (sym same) ∙ o.at) in
    let one : l.ref_count ≡ 1 = ap (λ (x : FileLock). x.ref_count) entry ∙ o.one_ref in
    record {
      counted = rw o.counted (count_drop_one l one);
      capacity = omega (arith, o.capacity, length-set {0} t.locks i (drop_ref l));
      free = λ j k e. elim (get_elem?-set_inv t.locks i j (drop_ref l) k e) [
        | inl (_, new) ↦ subst IsFree (sym new) (drop_ref-IsFree l one)
        | inr (ne, old) ↦ o.free j k (λ x. ne (sym same ∙ x)) old
      ];
    }
Released-AllFree t p _ o (missing n) = absurd (false≢true (sym (n o.index o.entry o.at) ∙ o.path))

first_slot : (ls : List FileLock) → 0 < length ls → (l : FileLock) × (get_elem? ls 0 ≡ some l)
first_slot [] h = absurd (omega arith)
first_slot (l ∷ ls) h = (l, refl)

Acquired-some :
    (t : FileLockTable) (p : Text) (r : Option ℕ × FileLockTable)
    → AllFree t
    → Acquired t p r
    → (i : ℕ) × (r.0 ≡ some i)
Acquired-some t p _ a (shared i l at has) = (i, refl)
Acquired-some t p _ a (created i l at unused n) = (i, refl)
Acquired-some t p _ a (full n m) =
    let (l, at) = first_slot t.locks (omega (arith, a.capacity)) in
    absurd (false≢true (sym (m 0 l at) ∙ ap not (a.free 0 l at).unused))

-- There is a slot for it.
pub acquire_slot-some :
    (t : FileLockTable) (p : Text) → AllFree t → (i : ℕ) × ((acquire_slot t p).0 ≡ some i)
acquire_slot-some t p a = Acquired-some t p _ a (acquire_slot-Acquired t p)

-- What it releases leaves the table with no lock.
pub release_file_lock-AllFree :
    (t : FileLockTable) (p : Text) → OnlyLocked p t → AllFree (release_file_lock t p)
release_file_lock-AllFree t p o = Released-AllFree t p _ o (release_file_lock-Released t p)

-- The table of `file_lock_table_init` has no lock.
pub init-AllFree : AllFree file_lock_table_init
unfolding file_lock_table_init
init-AllFree = record {
  capacity = length-replicate max_file_locks free_lock;
  counted = refl;
  free = λ i l e.
      rw (free_lock-at max_file_locks i l e)
        (record { unused = refl; unlocked = refl; no_ref = refl });
}
