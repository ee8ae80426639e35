-- ===== src/FileLocks/Find.antt =====
-- What `find_lock_slot` finds.
use Prim.Native.Nat.add
use client_worker_thread_poo.Base.{
  ℕ, zero, suc, ◌+◌, ◌≡◌, refl, inl, inr, Bool, true, false, not, Option, none, some, List, [], ◌∷◌,
  arith, Text, get_elem?, set, Bool-cases, if◌then◌else◌,
}
use client_worker_thread_poo.FileLocks.Defs.{
  FileLock, FileLockTable, holds_path, find_path, find_free, find_lock_slot, claim, count_claim,
  acquire_slot, drop_ref, count_drop, release_file_lock,
}

-- The slot `i` of the list holds an entry that passes the test.
pub record Hit (test : FileLock → Bool) (ls : List FileLock) (i : ℕ) : Type 0 where
  pub entry : FileLock
  pub at : get_elem? ls i ≡ some entry
  pub passes : test entry ≡ true

abbrev pub Nowhere : (FileLock → Bool) → List FileLock → Type 0
Nowhere test ls = (i : ℕ) (l : FileLock) → get_elem? ls i ≡ some l → test l ≡ false

-- the two outcomes of a search from index `k` on
abbrev pub Found : (FileLock → Bool) → ℕ → List FileLock → Option ℕ → Type 0
Found test k ls none = Nowhere test ls
Found test k ls (some r) = (i : ℕ) × (r ≡ k + i) × Hit test ls i

Found-cons :
    (test : FileLock → Bool) (k : ℕ) (l : FileLock) (ls : List FileLock) (o : Option ℕ)
    → test l ≡ false
    → Found test (suc k) ls o
    → Found test k (l ∷ ls) o
Found-cons test k l ls none miss f = go
  where
    go : Nowhere test (l ∷ ls)
    go zero m e = ground arith
    go (suc i) m e = f i m e
Found-cons test k l ls (some r) miss (i, e, w) =
    (suc i, omega arith, record { entry = w.entry; at = w.at; passes = w.passes })

-- The test of the second loop of `find_lock_slot`.
abbrev pub is_free : FileLock → Bool
is_free l = not l.in_use

pub find_path-Found :
    (p : Text) (k : ℕ) (ls : List FileLock) → Found (holds_path p) k ls (find_path p k ls)
unfolding find_path
find_path-Found p k [] = λ i l e. cc
find_path-Found p k (l ∷ ls) = elim (Bool-cases (holds_path p l)) [
  | inl hit ↦ rw hit (0, omega arith, record { entry = l; at = refl; passes = hit })
  | inr miss ↦ rw miss (Found-cons (holds_path p) k l ls _ miss (find_path-Found p (suc k) ls))
]

pub find_free-Found : (k : ℕ) (ls : List FileLock) → Found is_free k ls (find_free k ls)
unfolding find_free
find_free-Found k [] = λ i l e. cc
find_free-Found k (l ∷ ls) = elim (Bool-cases (is_free l)) [
  | inl hit ↦ rw hit (0, omega arith, record { entry = l; at = refl; passes = hit })
  | inr miss ↦ rw miss (Found-cons is_free k l ls _ miss (find_free-Found (suc k) ls))
]

-- The outcomes of `find_lock_slot`: a slot of this path; else a free slot, if one may be taken;
-- else nothing, and then no slot has the path, nor is one free if one might have been taken.
pub data SlotFound (t : FileLockTable) (p : Text) (create : Bool) : Option ℕ → Type 0 where
  present : (i : ℕ) → Hit (holds_path p) t.locks i → SlotFound t p create (some i)
  fresh :
      (i : ℕ)
      → create ≡ true
      → Nowhere (holds_path p) t.locks
      → Hit is_free t.locks i
      → SlotFound t p create (some i)
  absent :
      Nowhere (holds_path p) t.locks
      → (create ≡ true → Nowhere is_free t.locks)
      → SlotFound t p create none

free-SlotFound :
    (t : FileLockTable) (p : Text) (o : Option ℕ)
    → Nowhere (holds_path p) t.locks
    → Found is_free 0 t.locks o
    → SlotFound t p true o
free-SlotFound t p none n f = absent n (λ _. f)
free-SlotFound t p (some r) n (i, e, w) = rw e (rw add.zero (fresh i refl n w))

Found-SlotFound :
    (t : FileLockTable) (p : Text) (create : Bool) (o : Option ℕ)
    → Found (holds_path p) 0 t.locks o
    → SlotFound t p create
        (elim o [ some i ↦ some i | none ↦ if create then find_free 0 t.locks else none ])
unfolding find_lock_slot
Found-SlotFound t p create (some r) (i, e, w) = rw e (rw add.zero (present i w))
Found-SlotFound t p true none n = free-SlotFound t p _ n (find_free-Found 0 t.locks)
Found-SlotFound t p false none n = absent n (λ e. cc)

-- `find_lock_slot` never skips a slot that it should have found.
pub find_lock_slot-SlotFound :
    (t : FileLockTable) (p : Text) (create : Bool)
    → SlotFound t p create (find_lock_slot t p create)
unfolding find_lock_slot
find_lock_slot-SlotFound t p create = Found-SlotFound t p create _ (find_path-Found p 0 t.locks)

abbrev pub claimed : FileLockTable → Text → ℕ → FileLock → Option ℕ × FileLockTable
claimed t p i l =
    (some i, record { locks = set t.locks i (claim p l); count = count_claim t.count l })

-- What `acquire_file_lock` does under `table_lock`.
pub data Acquired (t : FileLockTable) (p : Text) : Option ℕ × FileLockTable → Type 0 where
  shared :
      (i : ℕ) (l : FileLock)
      → get_elem? t.locks i ≡ some l
      → holds_path p l ≡ true
      → Acquired t p (claimed t p i l)
  created :
      (i : ℕ) (l : FileLock)
      → get_elem? t.locks i ≡ some l
      → l.in_use ≡ false
      → Nowhere (holds_path p) t.locks
      → Acquired t p (claimed t p i l)
  full : Nowhere (holds_path p) t.locks → Nowhere is_free t.locks → Acquired t p (none, t)

-- What `release_file_lock` does.
pub data Released (t : FileLockTable) (p : Text) : FileLockTable → Type 0 where
  dropped :
      (i : ℕ) (l : FileLock)
      → get_elem? t.locks i ≡ some l
      → holds_path p l ≡ true
      → Released t p (record { locks = set t.locks i (drop_ref l); count = count_drop t.count l })
  missing : Nowhere (holds_path p) t.locks → Released t p t

slot-Acquired :
    (t : FileLockTable) (p : Text) (o : Option ℕ)
    → SlotFound t p true o
    → find_lock_slot t p true ≡ o
    → Acquired t p (acquire_slot t p)
unfolding acquire_slot
slot-Acquired t p _ (present i w) e = rw (e, w.at, acquire_slot) (shared i w.entry w.at w.passes)
slot-Acquired t p _ (fresh i c n w) e =
    let unused : w.entry.in_use ≡ false = ground arith in
    rw (e, w.at, acquire_slot) (created i w.entry w.at unused n)
slot-Acquired t p _ (absent n f) e = rw (e, acquire_slot) (full n (f refl))

pub acquire_slot-Acquired : (t : FileLockTable) (p : Text) → Acquired t p (acquire_slot t p)
acquire_slot-Acquired t p = slot-Acquired t p _ (find_lock_slot-SlotFound t p true) refl

slot-Released :
    (t : FileLockTable) (p : Text) (o : Option ℕ)
    → SlotFound t p false o
    → find_lock_slot t p false ≡ o
    → Released t p (release_file_lock t p)
unfolding release_file_lock
slot-Released t p _ (present i w) e =
    rw (e, w.at, release_file_lock) (dropped i w.entry w.at w.passes)
slot-Released t p _ (fresh i c n w) e = cc
slot-Released t p _ (absent n f) e = rw (e, release_file_lock) (missing n)

pub release_file_lock-Released :
    (t : FileLockTable) (p : Text) → Released t p (release_file_lock t p)
release_file_lock-Released t p = slot-Released t p _ (find_lock_slot-SlotFound t p false) refl
