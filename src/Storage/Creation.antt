-- ===== src/Storage/Creation.antt =====
-- `init_db` and `init_quotas_table`: which file is used, and that the tables are there.
use client_worker_thread_poo.Base.{
  ◌≡◌, refl, ◌⊎◌, inl, inr, Bool, true, false, ◌&&◌, Option, none, some, [], ◌∷◌, Text, take,
  Bool-cases, if◌then◌else◌,
}
use client_worker_thread_poo.Base.Int.{ℤ, pos, negsuc}

-- Opening the file at a path, and the two `CREATE TABLE IF NOT EXISTS` in it. Any may fail.
pub record Creator : Type 1 where
  pub State : Type 0
  pub open_file : Text → State → Bool × State
  pub create_users : Text → State → Bool × State
  pub create_quotas : Text → State → Bool × State

-- Which tables the file at a path has: a command that succeeds has made its table, and no table goes
-- away.
pub record IsCreator (db : Creator) : Type 1 where
  pub HasUsers : Text → db.State → Type 0
  pub HasQuotas : Text → db.State → Type 0
  pub users_made :
      (p : Text) (s : db.State)
      → (db.create_users p s).0 ≡ true
      → HasUsers p (db.create_users p s).1
  pub quotas_made :
      (p : Text) (s : db.State)
      → (db.create_quotas p s).0 ≡ true
      → HasQuotas p (db.create_quotas p s).1
  pub open_keeps : (p q : Text) (s : db.State) → HasUsers p s → HasUsers p (db.open_file q s).1
  pub create_keeps :
      (p q : Text) (s : db.State) → HasUsers p s → HasUsers p (db.create_quotas q s).1

-- `strncpy` into `g_db_path`, an array of 256 bytes, the last one set to zero; a NULL or empty path
-- leaves it.
abbrev pub db_path : Option Text → Text → Text
db_path none g = g
db_path (some []) g = g
db_path (some (b ∷ p)) g = take 255 (b ∷ p)

module _ (db : Creator) where
  open db use {State, open_file, create_users, create_quotas}

  unfoldable pub init_quotas_table : Text → State → ℤ × State
  init_quotas_table g s =
      let (opened, s₁) = open_file g s in
      let (made, s₂) = create_quotas g s₁ in
      if opened then if made then (pos 0, s₂) else (negsuc 0, s₂) else (negsuc 0, s₁)

  -- The result, and what `g_db_path` then is.
  unfoldable pub init_db : Option Text → Text → State → (ℤ × Text) × State
  init_db path g s =
      let g' = db_path path g in
      let (opened, s₁) = open_file g' s in
      let (made, s₂) = create_users g' s₁ in
      let (r, s₃) = init_quotas_table g' s₂ in
      if opened then if made then ((r, g'), s₃) else ((negsuc 0, g'), s₂) else ((negsuc 0, g'), s₁)

module _ (db : Creator) (law : IsCreator db) where
  open db use {State}

  -- All calls of SQLite that `init_db` makes succeed.
  abbrev pub quotas_succeed : Text → State → Bool
  quotas_succeed g s =
      let (opened, s₁) = db.open_file g s in let (made, _) = db.create_quotas g s₁ in opened && made

  abbrev pub all_succeed : Text → State → Bool
  all_succeed g s =
      let (opened, s₁) = db.open_file g s in
      let (made, s₂) = db.create_users g s₁ in (opened && made) && quotas_succeed g s₂

  -- 0 with both tables in the file if `ok`, else -1
  abbrev pub Made : Bool → Text → ℤ → State → Type 0
  Made ok g r s =
      ((ok ≡ true) × (r ≡ pos 0) × law.HasUsers g s × law.HasQuotas g s)
      ⊎ ((ok ≡ false) × (r ≡ negsuc 0))

  abbrev pub Created : (path : Option Text) (g : Text) (s : State) → (ℤ × Text) × State → Type 0
  Created path g s ((r, g'), s') =
      (g' ≡ db_path path g) × Made (all_succeed (db_path path g) s) (db_path path g) r s'

  init_quotas_table-Made :
      (g : Text) (s : State)
      → law.HasUsers g s
      → Made (quotas_succeed g s) g (init_quotas_table db g s).0 (init_quotas_table db g s).1
  unfolding init_quotas_table
  init_quotas_table-Made g s users =
      let (opened, s₁) = db.open_file g s in
      let (made, s₂) = db.create_quotas g s₁ in
      elim (Bool-cases opened) [
        | inr closed ↦ rw closed (inr (refl, refl))
        | inl open_now ↦ elim (Bool-cases made) [
          | inr failed ↦ rw (open_now, failed) (inr (refl, refl))
          | inl ok ↦
              rw (open_now, ok)
                (inl (
                  refl,
                  refl,
                  law.create_keeps g g s₁ (law.open_keeps g g s users),
                  law.quotas_made g s₁ ok,
                ))
        ]
      ]

  -- `init_db` uses the first 255 bytes of the path it is given, or the old path if that is NULL or
  -- empty. If all calls of SQLite succeed, it returns 0 and the file there has both tables; if any of
  -- them fails, it returns -1.
  pub init_db-Created :
      (path : Option Text) (g : Text) (s : State) → Created path g s (init_db db path g s)
  unfolding init_db
  init_db-Created path g s =
      let g' = db_path path g in
      let (opened, s₁) = db.open_file g' s in
      let (made, s₂) = db.create_users g' s₁ in
      elim (Bool-cases opened) [
        | inr closed ↦ rw closed (refl, inr (refl, refl))
        | inl open_now ↦ elim (Bool-cases made) [
          | inr failed ↦ rw (open_now, failed) (refl, inr (refl, refl))
          | inl ok ↦
              rw (open_now, ok) (refl, init_quotas_table-Made g' s₂ (law.users_made g' s₁ ok))
        ]
      ]
