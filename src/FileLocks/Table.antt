-- ===== src/FileLocks/Table.antt =====
-- The well-formedness of the lock table, and the operations that keep it.
use mathlib.Core.Bool.{false≢true}
use client_worker_thread_poo.Base.{
  ℕ, zero, suc, ◌+◌, ◌^◌, ◌≤◌, ◌<◌, ◌≡◌, ◌≢◌, refl, sym, ap, subst, ◌∙◌, ◌⊎◌, inl, inr, true, false,
  Option, some, List, [], ◌∷◌, arith, Text, str_eq_sound, str_eq_refl, length, get_elem?, set,
  length-set, length-take, take_of_length_le, inc32_small, dec32_small, if◌then◌else◌, Option-cases,
}
use client_worker_thread_poo.FileLocks.Defs.{
  FileLock, FileLockTable, max_file_locks, holds_path, clip, filepath_max, free_lock, claim,
  count_claim, acquire_slot, lock_slot, drop_ref, count_drop, release_file_lock,
}
use client_worker_thread_poo.FileLocks.Find.{
  Acquired, shared, created, full, Released, dropped, missing, acquire_slot-Acquired,
  release_file_lock-Released,
}

-- how many slots are in use
unfoldable pub used_count : List FileLock → ℕ
used_count [] = 0
used_count (l ∷ ls) = (if l.in_use then 1 else 0) + used_count ls

pub used_count-set :
    (ls : List FileLock) (i : ℕ) (l v : FileLock)
    → get_elem? ls i ≡ some l
    → used_count (set ls i v) + (if l.in_use then 1 else 0)
      ≡ used_count ls + (if v.in_use then 1 else 0)
unfolding used_count
used_count-set [] i l v e = cc
used_count-set (x ∷ ls) zero l v e = ground arith
used_count-set (x ∷ ls) (suc i) l v e = omega (arith, used_count-set ls i l v e)

used_count-le : (ls : List FileLock) → used_count ls ≤ length ls
unfolding used_count
used_count-le [] = omega arith
used_count-le (l ∷ ls) = ground (arith, used_count-le ls)

-- A slot is in use exactly when it has a reference.
pub record IsSlot (l : FileLock) : Type 0 where
  pub used : l.in_use ≡ true → 0 < l.ref_count
  pub unused : l.in_use ≡ false → l.ref_count ≡ 0
  pub word : l.ref_count < 2 ^ 31
  pub clipped : length l.filepath < 512

-- No two slots in use have one path, and `count` is the number of slots in use.
pub record IsTable (t : FileLockTable) : Type 0 where
  pub capacity : length t.locks ≡ max_file_locks
  pub slots : (i : ℕ) (l : FileLock) → get_elem? t.locks i ≡ some l → IsSlot l
  pub unique :
      (i j : ℕ) (l k : FileLock)
      → get_elem? t.locks i ≡ some l
      → get_elem? t.locks j ≡ some k
      → l.in_use ≡ true
      → k.in_use ≡ true
      → l.filepath ≡ k.filepath
      → i ≡ j
  pub counted : t.count ≡ used_count t.locks

-- After a write at slot `i`, an entry is the written one or an old one of another slot.
pub get_elem?-set_inv :
    (ls : List FileLock) (i j : ℕ) (v k : FileLock)
    → get_elem? (set ls i v) j ≡ some k
    → ((i ≡ j) × (k ≡ v)) ⊎ ((i ≢ j) × (get_elem? ls j ≡ some k))
get_elem?-set_inv [] i j v k e = cc
get_elem?-set_inv (x ∷ ls) zero zero v k e = inl (refl, cc)
get_elem?-set_inv (x ∷ ls) zero (suc j) v k e = inr (omega arith, e)
get_elem?-set_inv (x ∷ ls) (suc i) zero v k e = inr (omega arith, e)
get_elem?-set_inv (x ∷ ls) (suc i) (suc j) v k e = ground (arith, get_elem?-set_inv ls i j v k e)

-- A write that keeps the table well formed: a well-formed entry whose path no other slot has.
pub set-IsTable :
    (t : FileLockTable) (i : ℕ) (l v : FileLock) (n : ℕ)
    → IsTable t
    → get_elem? t.locks i ≡ some l
    → IsSlot v
    → (v.in_use ≡ true
        → (j : ℕ) (k : FileLock) → i ≢ j
        → get_elem? t.locks j ≡ some k
        → k.in_use ≡ true
        → v.filepath ≢ k.filepath)
    → n + (if l.in_use then 1 else 0) ≡ t.count + (if v.in_use then 1 else 0)
    → IsTable (record { locks = set t.locks i v; count = n })
set-IsTable t i l v n w at s apart c = record {
  capacity = omega (arith, length-set {0} t.locks i v, w.capacity);
  slots = λ j k e. elim (get_elem?-set_inv t.locks i j v k e) [
    | inl (_, new) ↦ subst IsSlot (sym new) s
    | inr (_, old) ↦ w.slots j k old
  ];
  unique = λ a b k m ea eb ua ub same. elim (get_elem?-set_inv t.locks i a v k ea) [
    | inl (ia, ka) ↦ elim (get_elem?-set_inv t.locks i b v m eb) [
      | inl (ib, mb) ↦ cc
      | inr (ib, mb) ↦
          absurd
            (apart (rw (← ka) ua) b m ib mb ub (ap (λ (x : FileLock). x.filepath) (sym ka) ∙ same))
    ]
    | inr (ia, ka) ↦ elim (get_elem?-set_inv t.locks i b v m eb) [
      | inl (ib, mb) ↦ absurd (
          apart (rw (← mb) ub) a k ia ka ua (ap (λ (x : FileLock). x.filepath) (sym mb) ∙ sym same))
      | inr (ib, mb) ↦ w.unique a b k m ka mb ua ub same
    ]
  ];
  counted = omega (arith, used_count-set t.locks i l v at, w.counted);
}

pub length-clip : (p : Text) → length (clip p) < filepath_max
unfolding clip
length-clip p = omega (arith, length-take 511 p)

pub clip_of_lt : (p : Text) → length p < filepath_max → clip p ≡ p
unfolding clip
clip_of_lt p h = take_of_length_le 511 p (omega arith)

claim-IsSlot : (p : Text) (l : FileLock) → IsSlot l → l.ref_count + 1 < 2 ^ 31 → IsSlot (claim p l)
unfolding claim
claim-IsSlot p l s h = ground (arith, inc32_small l.ref_count, inc32_small 0, length-clip p)

drop_ref-IsSlot : (l : FileLock) → IsSlot l → l.in_use ≡ true → IsSlot (drop_ref l)
unfolding drop_ref
drop_ref-IsSlot l s u = ground (arith, dec32_small l.ref_count)

-- A slot with the path is the only one.
pub path_unique :
    (t : FileLockTable) (p : Text) (i j : ℕ) (l k : FileLock)
    → IsTable t
    → get_elem? t.locks i ≡ some l
    → get_elem? t.locks j ≡ some k
    → holds_path p l ≡ true
    → holds_path p k ≡ true
    → i ≡ j
path_unique t p i j l k w at bt hl hk =
    w.unique i j l k at bt (ground arith) (ground arith)
      (str_eq_sound l.filepath p (ground arith) ∙ sym (str_eq_sound k.filepath p (ground arith)))

-- The acquisitions that the C int can count.
abbrev pub Countable : FileLockTable → Type 0
Countable t = (i : ℕ) (l : FileLock) → get_elem? t.locks i ≡ some l → l.ref_count + 1 < 2 ^ 31

pub holds_path_of_eq :
    (p : Text) (k : FileLock) → k.in_use ≡ true → p ≡ k.filepath → holds_path p k ≡ true
holds_path_of_eq p k u e = rw (u, e) (str_eq_refl k.filepath)

pub path_of_holds : (p : Text) (k : FileLock) → holds_path p k ≡ true → k.filepath ≡ p
path_of_holds p k h = str_eq_sound k.filepath p (ground arith)

pub claim-holds_path :
    (p : Text) (l : FileLock)
    → length p < filepath_max
    → (holds_path p l ≡ true) ⊎ (l.in_use ≡ false)
    → holds_path p (claim p l) ≡ true
unfolding claim
claim-holds_path p l short (inl h) = ground arith
claim-holds_path p l short (inr u) = rw (u, clip_of_lt p short) (str_eq_refl p)

claim-count :
    (p : Text) (n : ℕ) (l : FileLock)
    → n < 2 ^ 31
    → count_claim n l + (if l.in_use then 1 else 0) ≡ n + (if (claim p l).in_use then 1 else 0)
unfolding count_claim claim
claim-count p n l h = ground (arith, inc32_small n)

drop-count :
    (n : ℕ) (l : FileLock)
    → n < 2 ^ 31
    → 0 < n
    → l.in_use ≡ true
    → count_drop n l + (if l.in_use then 1 else 0) ≡ n + (if (drop_ref l).in_use then 1 else 0)
unfolding count_drop drop_ref
drop-count n l h pos u = ground (arith, dec32_small n)

count_lt : (t : FileLockTable) → IsTable t → t.count < 2 ^ 31
count_lt t w = omega (arith, used_count-le t.locks, w.counted, w.capacity)

Acquired-IsTable :
    (t : FileLockTable) (p : Text) (r : Option ℕ × FileLockTable)
    → length p < filepath_max
    → IsTable t
    → Countable t
    → Acquired t p r
    → IsTable r.1
Acquired-IsTable t p _ short w c (shared i l at has) =
    set-IsTable t i l (claim p l) _ w at (claim-IsSlot p l (w.slots i l at) (c i l at))
      (λ _ j k ne bt u same. ne (
        path_unique t p i j l k w at bt has (
          holds_path_of_eq p k u
            (sym (path_of_holds p (claim p l) (claim-holds_path p l short (inl has))) ∙ same))))
      (claim-count p t.count l (count_lt t w))
Acquired-IsTable t p _ short w c (created i l at unused n) =
    set-IsTable t i l (claim p l) _ w at (claim-IsSlot p l (w.slots i l at) (c i l at))
      (λ _ j k ne bt u same. false≢true (
        sym (n j k bt)
        ∙ holds_path_of_eq p k u
            (sym (path_of_holds p (claim p l) (claim-holds_path p l short (inr unused))) ∙ same)))
      (claim-count p t.count l (count_lt t w))
Acquired-IsTable t p _ short w c (full n m) = w

-- `acquire_file_lock` keeps the table well formed, for a path of less than 512 bytes and while no
-- reference count is about to overflow.
pub acquire_slot-IsTable :
    (t : FileLockTable) (p : Text)
    → length p < filepath_max
    → IsTable t
    → Countable t
    → IsTable (acquire_slot t p).1
acquire_slot-IsTable t p short w c = Acquired-IsTable t p _ short w c (acquire_slot-Acquired t p)

pub drop_ref-filepath :
    (l : FileLock) → (drop_ref l).in_use ≡ true → (drop_ref l).filepath ≡ l.filepath
unfolding drop_ref
drop_ref-filepath l u = ground arith

Released-IsTable :
    (t : FileLockTable) (p : Text) (u : FileLockTable) → IsTable t → Released t p u → IsTable u
Released-IsTable t p _ w (dropped i l at has) =
    let used : l.in_use ≡ true = ground arith in
    set-IsTable t i l (drop_ref l) _ w at (drop_ref-IsSlot l (w.slots i l at) used)
      (λ u j k ne bt v same.
        ne (w.unique i j l k at bt used v (sym (drop_ref-filepath l u) ∙ same)))
      (drop-count t.count l (count_lt t w)
        (ground (arith, used_count-set t.locks i l free_lock at, w.counted)) used)
Released-IsTable t p _ w (missing n) = w

-- `release_file_lock` keeps the table well formed, whatever the path.
pub release_file_lock-IsTable :
    (t : FileLockTable) (p : Text) → IsTable t → IsTable (release_file_lock t p)
release_file_lock-IsTable t p w = Released-IsTable t p _ w (release_file_lock-Released t p)

-- `lock_slot` takes a slot that is not locked, leaves it locked and all else as it was.
pub lock_slot-inv :
    (t u : FileLockTable) (k : ℕ)
    → lock_slot t k ≡ some u
    → (l : FileLock) × (get_elem? t.locks k ≡ some l)
      × (l.lock ≡ false)
      × (u ≡ record t { locks = set t.locks k (record l { lock = true }) })
unfolding lock_slot
lock_slot-inv t u k e = elim (Option-cases (get_elem? t.locks k)) [
  | inl e0 ↦ ground arith
  | inr (l, at) ↦ (l, at, ground arith, ground arith)
]

pub claim-count_ref :
    (p : Text) (l : FileLock)
    → l.ref_count + 1 < 2 ^ 31
    → (l.in_use ≡ false → l.ref_count ≡ 0)
    → (claim p l).ref_count ≡ l.ref_count + 1
unfolding claim
claim-count_ref p l h z = ground (arith, inc32_small l.ref_count, inc32_small 0)

pub used_count_none :
    (ls : List FileLock)
    → ((i : ℕ) (l : FileLock) → get_elem? ls i ≡ some l → l.in_use ≡ false)
    → used_count ls ≡ 0
unfolding used_count
used_count_none [] h = refl
used_count_none (l ∷ ls) h = rw (h 0 l refl) (omega (arith, used_count_none ls (λ i. h (suc i))))
