-- ===== src/FileLocks/LongPath.antt =====
-- Paths that do not fit the 512 bytes of a slot: main.c builds paths of up to 767 bytes.
use mathlib.Core.Bool.{false≢true}
use client_worker_thread_poo.Base.{
  ℕ, ◌≤◌, ◌<◌, ◌≡◌, ◌≢◌, subst, sym, ap, ◌∙◌, true, Option, some, List, arith, Text, length,
  get_elem?, get_elem?-set_self, set, Bool-cases, inl, inr, refl,
}
use client_worker_thread_poo.FileLocks.Defs.{
  FileLock, FileLockTable, filepath_max, holds_path, claim, acquire_slot, lock_slot,
  release_file_lock,
}
use client_worker_thread_poo.FileLocks.Find.{
  Nowhere, Acquired, shared, created, full, acquire_slot-Acquired, Released, dropped, missing,
  release_file_lock-Released,
}
use client_worker_thread_poo.FileLocks.Table.{
  path_of_holds, length-clip, lock_slot-inv, get_elem?-set_inv,
}

-- Every stored path ends within its array.
abbrev pub AllClipped : List FileLock → Type 0
AllClipped ls = (i : ℕ) (l : FileLock) → get_elem? ls i ≡ some l → length l.filepath < filepath_max

long-Nowhere :
    (t : FileLockTable) (p : Text)
    → AllClipped t.locks
    → filepath_max ≤ length p
    → Nowhere (holds_path p) t.locks
long-Nowhere t p c long i l at = elim (Bool-cases (holds_path p l)) [
  | inl h ↦ absurd (omega (arith, c i l at, ap length (path_of_holds p l h)))
  | inr h ↦ h
]

set-AllClipped :
    (ls : List FileLock) (i : ℕ) (v : FileLock)
    → AllClipped ls
    → length v.filepath < filepath_max
    → AllClipped (set ls i v)
set-AllClipped ls i v c h j k e = elim (get_elem?-set_inv ls i j v k e) [
  | inl (_, new) ↦ rw new h
  | inr (_, old) ↦ c j k old
]

claim-clipped :
    (p : Text) (l : FileLock)
    → length l.filepath < filepath_max
    → length (claim p l).filepath < filepath_max
unfolding claim
claim-clipped p l h = ground (arith, length-clip p)

claim-in_use : (p : Text) (l : FileLock) → (claim p l).in_use ≡ true
unfolding claim
claim-in_use p l = ground arith

-- What a successful acquisition leaves: every path clipped, and slot `k` in use.
abbrev Left : Option ℕ × FileLockTable → ℕ → Type 0
Left r k =
    r.0 ≡ some k
    → AllClipped r.1.locks × ((l : FileLock) × (get_elem? r.1.locks k ≡ some l) × (l.in_use ≡ true))

Acquired-Left :
    (t : FileLockTable) (p : Text) (r : Option ℕ × FileLockTable) (k : ℕ)
    → AllClipped t.locks
    → Acquired t p r
    → Left r k
Acquired-Left t p _ k c (shared i l at has) e =
    let same : i ≡ k = cc in
    (
      set-AllClipped t.locks i (claim p l) c (claim-clipped p l (c i l at)),
      (claim p l, rw (← same) (get_elem?-set_self t.locks i (claim p l) l at), claim-in_use p l),
    )
Acquired-Left t p _ k c (created i l at unused n) e =
    let same : i ≡ k = cc in
    (
      set-AllClipped t.locks i (claim p l) c (claim-clipped p l (c i l at)),
      (claim p l, rw (← same) (get_elem?-set_self t.locks i (claim p l) l at), claim-in_use p l),
    )
Acquired-Left t p _ k c (full n m) e = cc

missing-eq :
    (t u : FileLockTable) (p : Text) → Nowhere (holds_path p) t.locks → Released t p u → u ≡ t
missing-eq t _ p n (dropped i l at has) = absurd (false≢true (sym (n i l at) ∙ has))
missing-eq t _ p n (missing _) = refl

locked-Left :
    (u v : FileLockTable) (k : ℕ)
    → (AllClipped u.locks × ((l : FileLock) × (get_elem? u.locks k ≡ some l) × (l.in_use ≡ true)))
    → lock_slot u k ≡ some v
    → AllClipped v.locks
      × ((l : FileLock) × (get_elem? v.locks k ≡ some l) × (l.in_use ≡ true) × (l.lock ≡ true))
locked-Left u v k (c, (m, mt, used)) e =
    let (l, at, _, ev) = lock_slot-inv u v k e in
    let same : l ≡ m = cc in
    rw ev (
      set-AllClipped u.locks k (record l { lock = true }) c (c k l at),
      (
        record l { lock = true },
        get_elem?-set_self u.locks k (record l { lock = true }) l at,
        rw same used,
        refl,
      ),
    )

-- the state after the long path was acquired in slot `k`
module _ (t u v : FileLockTable) (p : Text) (k : ℕ) (c : AllClipped t.locks)
    (long : filepath_max ≤ length p) (got : acquire_slot t p ≡ (some k, u))
    (locked : lock_slot u k ≡ some v) where
  long_path_held :
      AllClipped v.locks
      × ((l : FileLock) × (get_elem? v.locks k ≡ some l) × (l.in_use ≡ true) × (l.lock ≡ true))
  long_path_held =
      let left : Left (some k, u) k =
        subst (λ r. Left r k) got (Acquired-Left t p _ k c (acquire_slot-Acquired t p)) in
      locked-Left u v k (left refl) locked

  -- In a table whose stored paths all fit, a thread that locks a path of 512 bytes or more can
  -- never give the lock back: its slot is in use with the mutex held, and `release_file_lock` with
  -- the same path changes nothing.
  pub long_path_never_released :
      ((l : FileLock) × (get_elem? v.locks k ≡ some l) × (l.in_use ≡ true) × (l.lock ≡ true))
      × (release_file_lock v p ≡ v)
  long_path_never_released =
      let (cv, held) = long_path_held in
      (held, missing-eq v _ p (long-Nowhere v p cv long) (release_file_lock-Released v p))

  fresh_slot : (r : Option ℕ × FileLockTable) (m : ℕ) → Acquired v p r → r.0 ≡ some m → m ≢ k
  fresh_slot _ m (shared i l at has) e eq =
      false≢true (sym (long-Nowhere v p long_path_held.0 long i l at) ∙ has)
  fresh_slot _ m (created i l at unused n) e eq =
      let (_, (h, ht, used, _)) = long_path_held in
      let same : some l ≡ some h =
        sym at ∙ rw (← eq) (ap (get_elem? v.locks) (ground arith)) ∙ ht in
      cc
  fresh_slot _ m (full n f) e eq = cc

  -- Nor does such a lock exclude anyone: the next request for the same path gets another slot, and
  -- with it another mutex.
  pub long_path_not_exclusive : (w : FileLockTable) (m : ℕ) → acquire_slot v p ≡ (some m, w) → m ≢ k
  long_path_not_exclusive w m again =
      fresh_slot _ m (acquire_slot-Acquired v p) (ap (λ (r : Option ℕ × FileLockTable). r.0) again)
