-- ===== src/FileLocks/Refs.antt =====
-- The lock table seen as a map from paths to reference counts.
use mathlib.Core.Bool.{false≢true}
use client_worker_thread_poo.Base.{
  ℕ, zero, suc, ◌+◌, ◌-◌, ◌<◌, ◌≡◌, refl, sym, ap, ◌∙◌, ◌⊎◌, inl, inr, true, false, Option, some,
  List, [], ◌∷◌, arith, Text, str_eq, str_eq_sound, str_eq_refl, length, get_elem?, set,
  get_elem?-set_self, dec32, dec32_small, Bool-cases, ◌==◌, if◌then◌else◌,
}
use client_worker_thread_poo.FileLocks.Defs.{
  FileLock, FileLockTable, filepath_max, holds_path, claim, count_claim, acquire_slot, drop_ref,
  count_drop, release_file_lock,
}
use client_worker_thread_poo.FileLocks.Find.{
  Nowhere, Acquired, shared, created, full, Released, dropped, missing, acquire_slot-Acquired,
  release_file_lock-Released,
}
use client_worker_thread_poo.FileLocks.Table.{
  claim-count_ref, IsSlot, IsTable, Countable, get_elem?-set_inv, path_unique, path_of_holds,
  claim-holds_path, acquire_slot-IsTable, release_file_lock-IsTable,
}

-- How many callers have or await the lock of a path.
unfoldable pub refs_in : Text → List FileLock → ℕ
refs_in q [] = 0
refs_in q (l ∷ ls) = if holds_path q l then l.ref_count else refs_in q ls

unfoldable pub refs : FileLockTable → Text → ℕ
unfolding refs_in
refs t q = refs_in q t.locks

refs_in-none : (q : Text) (ls : List FileLock) → Nowhere (holds_path q) ls → refs_in q ls ≡ 0
unfolding refs_in
refs_in-none q [] n = refl
refs_in-none q (l ∷ ls) n = rw (n 0 l refl) (refs_in-none q ls (λ i. n (suc i)))

-- Either no slot has the path, or the count is that of a slot that has it.
data Counted (q : Text) (ls : List FileLock) : Type 0 where
  absent : Nowhere (holds_path q) ls → Counted q ls
  at_slot :
      (i : ℕ) (l : FileLock)
      → get_elem? ls i ≡ some l
      → holds_path q l ≡ true
      → refs_in q ls ≡ l.ref_count
      → Counted q ls

Counted-cons :
    (q : Text) (l : FileLock) (ls : List FileLock)
    → Counted q ls
    → holds_path q l ≡ false
    → Counted q (l ∷ ls)
unfolding refs_in
Counted-cons q l ls (absent n) miss = absent go
  where
    go : Nowhere (holds_path q) (l ∷ ls)
    go zero m e = ground arith
    go (suc i) m e = n i m e
Counted-cons q l ls (at_slot i k at has e) miss = at_slot (suc i) k at has (rw miss e)

refs_in-Counted : (q : Text) (ls : List FileLock) → Counted q ls
unfolding refs_in
refs_in-Counted q [] = absent (λ i l e. cc)
refs_in-Counted q (l ∷ ls) = elim (Bool-cases (holds_path q l)) [
  | inl hit ↦ at_slot 0 l refl hit (rw hit)
  | inr miss ↦ Counted-cons q l ls (refs_in-Counted q ls) miss
]

pub refs_none : (t : FileLockTable) (q : Text) → Nowhere (holds_path q) t.locks → refs t q ≡ 0
unfolding refs
refs_none t q n = refs_in-none q t.locks n

-- In a well-formed table the count of a path is that of its slot.
pub refs_at :
    (t : FileLockTable) (q : Text) (i : ℕ) (l : FileLock)
    → IsTable t
    → get_elem? t.locks i ≡ some l
    → holds_path q l ≡ true
    → refs t q ≡ l.ref_count
unfolding refs
refs_at t q i l w at has = go (refs_in-Counted q t.locks)
  where
    go : Counted q t.locks → refs_in q t.locks ≡ l.ref_count
    go (absent n) = absurd (false≢true (sym (n i l at) ∙ has))
    go (at_slot j k bt hk e) =
        let same : get_elem? t.locks i ≡ some k = rw (path_unique t q i j l k w at bt has hk) bt in
        cc

refs_in-set :
    (q : Text) (ls : List FileLock) (i : ℕ) (l v : FileLock)
    → get_elem? ls i ≡ some l
    → holds_path q l ≡ false
    → holds_path q v ≡ false
    → refs_in q (set ls i v) ≡ refs_in q ls
unfolding refs_in
refs_in-set q [] i l v at a b = refl
refs_in-set q (x ∷ ls) zero l v at a b = ground arith
refs_in-set q (x ∷ ls) (suc i) l v at a b = ground (arith, refs_in-set q ls i l v at a b)

-- A slot with one path does not count for another.
other_path :
    (p q : Text) (l : FileLock)
    → holds_path p l ≡ true
    → str_eq p q ≡ false
    → holds_path q l ≡ false
other_path p q l has ne = elim (Bool-cases (holds_path q l)) [
  | inl also ↦ absurd (
      false≢true
        (sym ne ∙ rw (sym (path_of_holds p l has) ∙ path_of_holds q l also) (str_eq_refl q)))
  | inr miss ↦ miss
]

-- A release leaves the slot with one reference fewer, or frees it with the last one.
drop_ref-cases :
    (p : Text) (l : FileLock)
    → IsSlot l
    → holds_path p l ≡ true
    → ((holds_path p (drop_ref l) ≡ true) × ((drop_ref l).ref_count ≡ l.ref_count - 1))
      ⊎ ((holds_path p (drop_ref l) ≡ false) × (l.ref_count ≡ 1))
unfolding drop_ref
drop_ref-cases p l s h = elim (Bool-cases (dec32 l.ref_count == 0)) [
  | inl last ↦ inr (rw last, ground (arith, dec32_small l.ref_count))
  | inr more ↦ inl (rw more h, rw more (ground (arith, dec32_small l.ref_count)))
]

drop_ref-other :
    (q : Text) (l : FileLock) → holds_path q l ≡ false → holds_path q (drop_ref l) ≡ false
unfolding drop_ref
drop_ref-other q l h = ground arith

module _ (t : FileLockTable) (p : Text) (w : IsTable t) where
  -- What a claimed slot `i` counts for each path, given what was counted before.
  claimed-refs :
      (q : Text) (i : ℕ) (l : FileLock)
      → length p < filepath_max
      → Countable t
      → IsTable (record { locks = set t.locks i (claim p l); count = count_claim t.count l })
      → get_elem? t.locks i ≡ some l
      → (holds_path p l ≡ true) ⊎ (l.in_use ≡ false)
      → refs t p ≡ l.ref_count
      → refs_in q (set t.locks i (claim p l)) ≡ (if str_eq p q then refs t q + 1 else refs t q)
  unfolding refs
  claimed-refs q i l short c w' at how e = elim (Bool-cases (str_eq p q)) [
    | inl same ↦
        rw (same, ← str_eq_sound p q same)
          (refs_at _ p i (claim p l) w' (get_elem?-set_self t.locks i (claim p l) l at)
              (claim-holds_path p l short how)
            ∙ claim-count_ref p l (c i l at) (w.slots i l at).unused
            ∙ ap (λ n. n + 1) (sym e))
    | inr other ↦ rw other (
        refs_in-set q t.locks i l (claim p l) at (not_before other how)
          (other_path p q (claim p l) (claim-holds_path p l short how) other))
  ]
    where
      not_before :
          str_eq p q ≡ false → (holds_path p l ≡ true) ⊎ (l.in_use ≡ false) → holds_path q l ≡ false
      not_before ne (inl h) = other_path p q l h ne
      not_before ne (inr h) = rw h

  Acquired-refs :
      (r : Option ℕ × FileLockTable) (q : Text) (j : ℕ)
      → length p < filepath_max
      → Countable t
      → IsTable r.1
      → Acquired t p r
      → r.0 ≡ some j
      → refs r.1 q ≡ (if str_eq p q then refs t q + 1 else refs t q)
  unfolding refs
  Acquired-refs _ q j short c w' (shared i l at has) e =
      claimed-refs q i l short c w' at (inl has) (refs_at t p i l w at has)
  Acquired-refs _ q j short c w' (created i l at unused n) e =
      claimed-refs q i l short c w' at (inr unused)
        (refs_none t p n ∙ sym ((w.slots i l at).unused unused))
  Acquired-refs _ q j short c w' (full n m) e = cc

  -- In a well-formed table whose counts are not about to overflow, an `acquire_file_lock` that gets a
  -- slot adds one reference to its path, of less than 512 bytes, and none to another path.
  pub refs-acquire_slot :
      (q : Text) (j : ℕ)
      → length p < filepath_max
      → Countable t
      → (acquire_slot t p).0 ≡ some j
      → refs (acquire_slot t p).1 q ≡ (if str_eq p q then refs t q + 1 else refs t q)
  refs-acquire_slot q j short c e =
      Acquired-refs _ q j short c (acquire_slot-IsTable t p short w c) (acquire_slot-Acquired t p) e

  dropped_self :
      (i : ℕ) (l : FileLock)
      → IsTable (record { locks = set t.locks i (drop_ref l); count = count_drop t.count l })
      → get_elem? t.locks i ≡ some l
      → holds_path p l ≡ true
      → Counted p (set t.locks i (drop_ref l))
      → refs_in p (set t.locks i (drop_ref l)) ≡ l.ref_count - 1
  dropped_self i l w' at has (absent n) = elim (drop_ref-cases p l (w.slots i l at) has) [
    | inl (still, _) ↦
        absurd (false≢true (sym (n i _ (get_elem?-set_self t.locks i (drop_ref l) l at)) ∙ still))
    | inr (_, one) ↦ rw (refs_in-none p _ n) (omega arith)
  ]
  dropped_self i l w' at has (at_slot j k bt hk e) =
      elim (get_elem?-set_inv t.locks i j (drop_ref l) k bt) [
        | inl (_, same) ↦ elim (drop_ref-cases p l (w.slots i l at) has) [
          | inl (_, less) ↦ rw (e, same) less
          | inr (gone, _) ↦ absurd (false≢true (sym gone ∙ rw (← same) hk))
        ]
        | inr (ne, old) ↦ absurd (ne (path_unique t p i j l k w at old has hk))
      ]

  Released-refs :
      (u : FileLockTable) (q : Text)
      → IsTable u
      → Released t p u
      → refs u q ≡ (if str_eq p q then refs t q - 1 else refs t q)
  unfolding refs
  Released-refs _ q w' (dropped i l at has) = elim (Bool-cases (str_eq p q)) [
    | inl same ↦
        rw (same, ← str_eq_sound p q same)
          (dropped_self i l w' at has (refs_in-Counted p _)
            ∙ ap (λ n. n - 1) (sym (refs_at t p i l w at has)))
    | inr other ↦ rw other (
        refs_in-set q t.locks i l (drop_ref l) at (other_path p q l has other)
          (drop_ref-other q l (other_path p q l has other)))
  ]
  Released-refs _ q w' (missing n) = elim (Bool-cases (str_eq p q)) [
    | inl same ↦ rw (same, ← str_eq_sound p q same) (omega (arith, refs_none t p n))
    | inr other ↦ rw other
  ]

  -- In a well-formed table, `release_file_lock` takes one reference from its path, if it has one, and
  -- none from another.
  pub refs-release_file_lock :
      (q : Text) → refs (release_file_lock t p) q ≡ (if str_eq p q then refs t q - 1 else refs t q)
  refs-release_file_lock q =
      Released-refs _ q (release_file_lock-IsTable t p w) (release_file_lock-Released t p)
