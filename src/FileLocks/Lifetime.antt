-- ===== src/FileLocks/Lifetime.antt =====
-- The mutexes and the block of memory of the table, from `file_lock_table_init` to
-- `file_lock_table_destroy`. To destroy a mutex that is not initialised, or to free a block that is
-- not allocated, is an error of its own: `none`.
use client_worker_thread_poo.Base.{
  ℕ, zero, suc, ◌+◌, ◌≡◌, refl, subst, ◌∙◌, ◌⊎◌, inl, inr, Bool, true, false, ◌&&◌, Option, none,
  some, List, [], ◌∷◌, replicate, arith, leb, ltb, Bool-cases, if◌then◌else◌, ◌>>=◌,
}
use client_worker_thread_poo.Base.Family.{update}
use client_worker_thread_poo.FileLocks.Defs.{
  max_file_locks, FileLock, FileLockTable, free_lock, file_lock_table_init,
}

-- What is there: the block, `table_lock`, and the mutex of each slot.
pub record Held : Type 0 where
  pub block : Bool
  pub table_lock : Bool
  pub slot_lock : ℕ → Bool

abbrev pub nothing : Held
nothing = record { block = false; table_lock = false; slot_lock = λ i. false }

abbrev pub destroy_slot : ℕ → Held → Option Held
destroy_slot i h =
    if h.slot_lock i then some (record h { slot_lock = update h.slot_lock i false }) else none

-- The mutexes of `k` slots from slot `i` on
unfoldable pub destroy_slots : (k i : ℕ) → Held → Option Held
destroy_slots zero i h = some h
destroy_slots (suc k) i h = destroy_slot i h >>= destroy_slots k (suc i)

-- `table_lock`, and the block
abbrev pub free_table : Held → Option Held
free_table h =
    if h.table_lock && h.block then some (record h { block = false; table_lock = false }) else none

-- What a round of the loop writes into its slot; a mutex that has been made is not held.
unfoldable pub clear_slot : FileLock → FileLock
clear_slot l = record l { filepath = []; ref_count = 0; in_use = false; lock = false }

-- The loop over the `k` slots from slot `i` on, with what it makes of them: `memory` is what `malloc`
-- has left in the slots, and `ok` says which `pthread_mutex_init` succeed.
unfoldable pub init_slots :
    (memory : ℕ → FileLock) (ok : ℕ → Bool) (k i : ℕ)
    → Held
    → Option (Option (List FileLock) × Held)
init_slots memory ok zero i h = some (some [], h)
init_slots memory ok (suc k) i h =
    let rest =
      init_slots memory ok k (suc i) (record h { slot_lock = update h.slot_lock i true })
      >>= λ (ls, h'). some (ls >>= (λ more. some (clear_slot (memory i) ∷ more)), h') in
    if ok i then rest else ((destroy_slots i 0 h >>= free_table) >>= λ h'. some (none, h'))

-- `file_lock_table_init`: the table or NULL
unfoldable pub init_table :
    (memory : ℕ → FileLock) (malloc table_ok : Bool) (ok : ℕ → Bool)
    → Held
    → Option (Option FileLockTable × Held)
init_table memory malloc table_ok ok h =
    if malloc
    then if table_ok
      then (init_slots memory ok max_file_locks 0 (record h { block = true; table_lock = true })
          >>= λ (ls, h'). some (ls >>= (λ slots. some (record { locks = slots; count = 0 })), h'))
      else some (none, h)
    else some (none, h)

-- `file_lock_table_destroy`
unfoldable pub file_lock_table_destroy : Option FileLockTable → Held → Option Held
file_lock_table_destroy none h = some h
file_lock_table_destroy (some t) h = destroy_slots max_file_locks 0 h >>= free_table

-- The mutexes of the slots from `i` to below `e`.
abbrev within : ℕ → ℕ → ℕ → Bool
within i e x = leb i x && ltb x e

destroy_slots-all :
    (k i : ℕ) (h : Held)
    → ((x : ℕ) → h.slot_lock x ≡ within i (i + k) x)
    → (h' : Held) × (destroy_slots k i h ≡ some h')
      × ((x : ℕ) → h'.slot_lock x ≡ false)
      × (h'.block ≡ h.block)
      × (h'.table_lock ≡ h.table_lock)
unfolding destroy_slots
destroy_slots-all zero i h f = (h, refl, (λ x. f x ∙ ground arith), refl, refl)
destroy_slots-all (suc k) i h f =
    let this : h.slot_lock i ≡ true = f i ∙ ground arith in
    let h₁ : Held = record h { slot_lock = update h.slot_lock i false } in
    let others : (x : ℕ) → h₁.slot_lock x ≡ within (suc i) (suc i + k) x =
      λ x. let old = f x in ground arith in
    let (h', e, f', b, t) = destroy_slots-all k (suc i) h₁ others in (h', rw this e, f', b, t)

-- All that there is, with the mutexes of the first `i` slots; and nothing.
pub record Ready (i : ℕ) (h : Held) : Type 0 where
  pub block : h.block ≡ true
  pub table_lock : h.table_lock ≡ true
  pub slot_lock : (x : ℕ) → h.slot_lock x ≡ within 0 i x

pub record Gone (h : Held) : Type 0 where
  pub block : h.block ≡ false
  pub table_lock : h.table_lock ≡ false
  pub slot_lock : (x : ℕ) → h.slot_lock x ≡ false

released :
    (k : ℕ) (h : Held)
    → Ready k h
    → (h' : Held) × ((destroy_slots k 0 h >>= free_table) ≡ some h') × Gone h'
released k h r =
    let (h₁, e, f, b, t) = destroy_slots-all k 0 h (λ x. let old = r.slot_lock x in ground arith) in
    let locked : h₁.table_lock ≡ true = t ∙ r.table_lock in
    let there : h₁.block ≡ true = b ∙ r.block in
    (
      record h₁ { block = false; table_lock = false },
      rw (e, locked, there) refl,
      record { block = refl; table_lock = refl; slot_lock = f },
    )

init_slots-result :
    (memory : ℕ → FileLock) (ok : ℕ → Bool) (k i : ℕ) (h : Held)
    → Ready i h
    → (ls : Option (List FileLock)) × ((h' : Held) × (init_slots memory ok k i h ≡ some (ls, h'))
        × (((ls ≡ some (replicate k free_lock)) × Ready (i + k) h') ⊎ ((ls ≡ none) × Gone h')))
unfolding init_slots clear_slot
init_slots-result memory ok zero i h r =
    (some [], (h, refl, inl (refl, subst (λ x. Ready x h) (omega arith) r)))
init_slots-result memory ok (suc k) i h r = elim (Bool-cases (ok i)) [
  | inl made ↦
      let h₁ : Held = record h { slot_lock = update h.slot_lock i true } in
      let one_more : Ready (suc i) h₁ = record {
        block = r.block;
        table_lock = r.table_lock;
        slot_lock = λ x. let old = r.slot_lock x in ground arith;
      } in
      let (ls, (h', e, rest)) = init_slots-result memory ok k (suc i) h₁ one_more in
      (
        ls >>= (λ more. some (free_lock ∷ more)),
        (
          h',
          rw (made, e) refl,
          elim rest [
            | inl (t, ready) ↦ inl (rw t refl, subst (λ x. Ready x h') (omega arith) ready)
            | inr (f, none_left) ↦ inr (rw f refl, none_left)
          ],
        ),
      )
  | inr failed ↦
      let (h', e, gone) = released i h r in (none, (h', rw (failed, e) refl, inr (refl, gone)))
]

-- `file_lock_table_destroy` of a table that has been made leaves nothing.
pub file_lock_table_destroy-Gone :
    (t : FileLockTable) (h : Held)
    → Ready max_file_locks h
    → (h' : Held) × (file_lock_table_destroy (some t) h ≡ some h') × Gone h'
unfolding file_lock_table_destroy
file_lock_table_destroy-Gone t h r = released max_file_locks h r

-- What `file_lock_table_init` leaves: the table with its block and its 1025 mutexes, or NULL and
-- nothing; and nothing after `file_lock_table_destroy`.
pub record Lifetime (o : Option (Option FileLockTable × Held)) : Type 0 where
  pub table : Option FileLockTable
  pub made : Held
  pub left : Held
  pub created : o ≡ some (table, made)
  pub whole :
      ((table ≡ some file_lock_table_init) × Ready max_file_locks made)
      ⊎ ((table ≡ none) × Gone made)
  pub destroyed : file_lock_table_destroy table made ≡ some left
  pub gone : Gone left

pub nothing_lem : Gone nothing
nothing_lem = record { block = refl; table_lock = refl; slot_lock = λ x. refl }

null_lem :
    (o : Option (Option FileLockTable × Held))
    → (h : Held) → Gone h
    → o ≡ some (none, h)
    → Lifetime o
unfolding file_lock_table_destroy
null_lem o h g e = record {
  table = none;
  made = h;
  left = h;
  created = e;
  whole = inr (refl, g);
  destroyed = refl;
  gone = g;
}

table_lem :
    (o : Option (Option FileLockTable × Held)) (h : Held)
    → Ready max_file_locks h
    → o ≡ some (some file_lock_table_init, h)
    → Lifetime o
table_lem o h r e =
    let (h', e', g) = file_lock_table_destroy-Gone file_lock_table_init h r in
    record {
      table = some file_lock_table_init;
      made = h;
      left = h';
      created = e;
      whole = inl (refl, r);
      destroyed = e';
      gone = g;
    }

-- The table gives back all that it takes, whichever calls fail and whatever `malloc` has left in the
-- slots: `file_lock_table_init` either returns
-- a table all of whose slots are free, with its memory and all its mutexes made, or it returns NULL
-- and has freed and destroyed all that it had made; after `file_lock_table_destroy` nothing is left;
-- and neither destroys a mutex that is not there.
pub init_table-Lifetime :
    (memory : ℕ → FileLock) (malloc table_ok : Bool) (ok : ℕ → Bool)
    → Lifetime (init_table memory malloc table_ok ok nothing)
unfolding init_table file_lock_table_init
init_table-Lifetime memory false table_ok ok = null_lem _ nothing nothing_lem refl
init_table-Lifetime memory true false ok = null_lem _ nothing nothing_lem refl
init_table-Lifetime memory true true ok =
    let h : Held = record nothing { block = true; table_lock = true } in
    let ready : Ready 0 h = record {
      block = refl;
      table_lock = refl;
      slot_lock = λ x. ground arith;
    } in
    let (ls, (h', e, result)) = init_slots-result memory ok max_file_locks 0 h ready in
    elim result [
      | inl (t, all) ↦ table_lem _ h' (subst (λ x. Ready x h') (omega arith) all) (rw (e, t) refl)
      | inr (f, g) ↦ null_lem _ h' g (rw (e, f) refl)
    ]
