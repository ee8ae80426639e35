-- ===== src/Storage/Accounts.antt =====
-- `signup`, `login` and `get_user_id`: what they do to the tables, whatever fails.
use client_worker_thread_poo.Base.{
  ℕ, ◌≤◌, ◌<◌, ◌≡◌, ◌≢◌, refl, sym, ap, subst, ◌∙◌, ◌⊎◌, inl, inr, Bool, true, false, ◌||◌, none,
  some, arith, Text, length, str_eq_refl, str_eq_iff, ltb, ◌==◌, some_inj, Bool-cases,
  if◌then◌else◌,
}
use client_worker_thread_poo.Base.Int.{ℤ, pos}
use client_worker_thread_poo.Storage.Sqlite.{
  Statement, select_exists, insert_user, insert_quota, select_password, select_id, StepResult, row,
  done, error, Sqlite, IsSqlite, Tables, Account, add_user, set_row, Means, int_eq,
}
use client_worker_thread_poo.Storage.Defs.{
  query, login, get_user_id, add_quota_row, insert_account, signup, id_of_row, int32, text_matches,
  is_row, is_done, minus_one, default_quota_bytes,
}

module _ (db : Sqlite) (law : IsSqlite db) where
  open db use {State}
  open law use {tables}

  -- the state in which a query that starts in `s` makes its step
  abbrev pub at_step : Statement → State → State
  at_step st s = (db.prepare st (db.open_file s).1).1

  -- What a function that makes one query returns: its failure value, or what it reads of its own
  -- step, which tells the truth about the tables.
  pub data Asked {A : Type 0} (st : Statement) (fail : A) (read : StepResult → A) (s : State)
      : A × State → Type 0 where
    failed : (s' : State) → tables s' ≡ tables s → Asked st fail read s (fail, s')
    answered :
        (r : StepResult) (s' : State)
        → (db.step st (at_step st s)).0 ≡ r
        → Means st (tables s) r (tables s')
        → Asked st fail read s (read r, s')

  pub query-Asked :
      {A : Type 0} (st : Statement) (fail : A) (read : StepResult → A) (s : State)
      → Asked st fail read s (query db st fail read s)
  unfolding query
  query-Asked st fail read s =
      let s₁ = (db.open_file s).1 in
      let s₂ = (db.prepare st s₁).1 in
      let same₁ : tables s₁ ≡ tables s = law.open_same s in
      let same₂ : tables s₂ ≡ tables s = law.prepare_same st s₁ ∙ same₁ in
      elim (Bool-cases (db.open_file s).0) [
        | inl opened ↦ elim (Bool-cases (db.prepare st s₁).0) [
          | inl ready ↦
              rw (opened, ready)
                (answered (db.step st s₂).0 (db.step st s₂).1 refl (
                  subst (λ t. Means st t (db.step st s₂).0 (tables (db.step st s₂).1)) same₂
                    (law.step_means st s₂)))
          | inr not_ready ↦ rw (opened, not_ready) (failed s₂ same₂)
        ]
        | inr not_opened ↦ rw not_opened (failed s₁ same₁)
      ]

  login_of :
      (n p : Text) (s : State) (r : Bool × State)
      → Asked (select_password n) false (text_matches p) s r
      → r.0 ≡ true
      → (a : Account) × ((tables s).users n ≡ some a) × (a.password ≡ p) × (tables r.1 ≡ tables s)
  login_of n p s _ (failed s' e) h = cc
  login_of n p s _ (answered (row c) s' f (e, (a, at, ec))) h =
      (a, at, (str_eq_iff a.password p).0 (subst (λ x. text_matches p (row x) ≡ true) ec h), e)
  login_of n p s _ (answered done s' f (e, _)) h = cc
  login_of n p s _ (answered error s' f e) h = cc

  -- Whatever calls of SQLite fail, `login` lets in only a user who has an account, with exactly the
  -- password that is stored for it, and changes nothing.
  pub login_sound :
      (n p : Text) (s : State)
      → (login db n p s).0 ≡ true
      → (a : Account) × ((tables s).users n ≡ some a)
        × (a.password ≡ p)
        × (tables (login db n p s).1 ≡ tables s)
  unfolding login
  login_sound n p s = login_of n p s _ (query-Asked (select_password n) false (text_matches p) s)

  -- `get_user_id`: -1, or the id of the user; the tables stay.
  abbrev pub IsId : Text → Tables → ℤ → Type 0
  IsId n t z = (z ≡ minus_one) ⊎ ((a : Account) × (t.users n ≡ some a) × (z ≡ int32 (pos a.id)))

  id_lem :
      (n : Text) (s : State) (r : ℤ × State)
      → Asked (select_id n) minus_one id_of_row s r
      → (tables r.1 ≡ tables s) × IsId n (tables s) r.0
  id_lem n s _ (failed s' e) = (e, inl refl)
  id_lem n s _ (answered (row c) s' f (e, (a, at, ec))) = (e, inr (a, at, rw ec refl))
  id_lem n s _ (answered done s' f (e, _)) = (e, inl refl)
  id_lem n s _ (answered error s' f e) = (e, inl refl)

  pub get_user_id-IsId :
      (n : Text) (s : State)
      → (tables (get_user_id db n s).1 ≡ tables s) × IsId n (tables s) (get_user_id db n s).0
  unfolding get_user_id
  get_user_id-IsId n s = id_lem n s _ (query-Asked (select_id n) minus_one id_of_row s)

  -- The row that a new user gets, if all goes well.
  abbrev pub QuotaAdded : ℤ → Tables → Tables → Type 0
  QuotaAdded id t t' =
      (t' ≡ t)
      ⊎ ((t.quotas id ≡ none)
          × (t' ≡ set_row id (record { quota_bytes = default_quota_bytes; used_bytes = pos 0 }) t))

  quota_step :
      (z : ℤ) (t t' : Tables) (r : StepResult)
      → Means (insert_quota z default_quota_bytes) t r t'
      → QuotaAdded z t t'
  quota_step z t t' (row c) m = absurd m
  quota_step z t t' done m = inr m
  quota_step z t t' error e = inl e

  the_id :
      (n : Text) (t : Tables) (z : ℤ) (a : Account)
      → int_eq z minus_one ≡ false
      → IsId n t z
      → t.users n ≡ some a
      → z ≡ int32 (pos a.id)
  the_id n t z a h (inl e) at =
      let found : int_eq z minus_one ≡ true = ap (λ x. int_eq x minus_one) e in absurd (cc)
  the_id n t z a h (inr (b, bt, e)) at =
      e ∙ ap (λ (x : Account). int32 (pos x.id)) (some_inj (sym bt ∙ at))

  add_quota_row-QuotaAdded :
      (n : Text) (s : State) (a : Account)
      → (tables s).users n ≡ some a
      → QuotaAdded (int32 (pos a.id)) (tables s) (tables (add_quota_row db n s).1)
  unfolding add_quota_row
  add_quota_row-QuotaAdded n s a at =
      let z = (get_user_id db n s).0 in
      let s₁ = (get_user_id db n s).1 in
      let (same₁, is_id) = get_user_id-IsId n s in
      let st = insert_quota z default_quota_bytes in
      let s₂ = (db.prepare st s₁).1 in
      let same₂ : tables s₂ ≡ tables s = law.prepare_same st s₁ ∙ same₁ in
      elim (Bool-cases (int_eq z minus_one)) [
        | inl none_found ↦ rw none_found (inl same₁)
        | inr found ↦ elim (Bool-cases (db.prepare st s₁).0) [
          | inr not_ready ↦ rw (found, not_ready) (inl same₂)
          | inl ready ↦
              let s₃ = (db.step st s₂).1 in
              let here : QuotaAdded z (tables s₂) (tables s₃) =
                quota_step z (tables s₂) (tables s₃) (db.step st s₂).0 (law.step_means st s₂) in
              let there : QuotaAdded z (tables s) (tables s₃) =
                subst (λ t. QuotaAdded z t (tables s₃)) same₂ here in
              rw (found, ready)
                (subst (λ w. QuotaAdded w (tables s) (tables s₃))
                  (the_id n (tables s) z a found is_id at) there)
        ]
      ]

  -- What `signup` may do: refuse and change nothing, or accept a name of 1 to 256 bytes that was
  -- free.
  pub data SignedUp (n p : Text) (s : State) : Bool × State → Type 0 where
    rejected : (s' : State) → tables s' ≡ tables s → SignedUp n p s (false, s')
    created :
        (id : ℕ) (s' : State)
        → 0 < length n
        → length n ≤ 256
        → (tables s).users n ≡ none
        → ((m : Text) (a : Account) → (tables s).users m ≡ some a → a.id ≢ id)
        → QuotaAdded
            (int32 (pos id))
            (add_user n (record { id = id; password = p }) (tables s))
            (tables s')
        → SignedUp n p s (true, s')

  inserted :
      (n p : Text) (s s₂ : State) (r : StepResult)
      → 0 < length n
      → length n ≤ 256
      → Means (insert_user n p) (tables s) r (tables s₂)
      → SignedUp n p s (if is_done r then (true, (add_quota_row db n s₂).1) else (false, s₂))
  inserted n p s s₂ (row c) lo hi m = absurd m
  inserted n p s s₂ error lo hi e = rejected s₂ e
  inserted n p s s₂ done lo hi (free, (id, fresh, e)) =
      let a : Account = record { id = id; password = p } in
      let at : (tables s₂).users n ≡ some a = rw (e, str_eq_refl n) refl in
      created id _ lo hi free fresh (
        subst (λ t. QuotaAdded (int32 (pos id)) t (tables (add_quota_row db n s₂).1)) e
          (add_quota_row-QuotaAdded n s₂ a at))

  insert_account-SignedUp :
      (n p : Text) (s s₀ : State)
      → 0 < length n
      → length n ≤ 256
      → tables s₀ ≡ tables s
      → SignedUp n p s (insert_account db n p s₀)
  unfolding insert_account
  insert_account-SignedUp n p s s₀ lo hi e₀ =
      let st = insert_user n p in
      let s₁ = (db.prepare st s₀).1 in
      let same₁ : tables s₁ ≡ tables s = law.prepare_same st s₀ ∙ e₀ in
      let (r, s₂) = db.step st s₁ in
      elim (Bool-cases (db.prepare st s₀).0) [
        | inr not_ready ↦ rw not_ready (rejected s₁ same₁)
        | inl ready ↦ rw ready (
            inserted n p s s₂ r lo hi
              (subst (λ t. Means st t r (tables s₂)) same₁ (law.step_means st s₁)))
      ]

  select_same :
      (n : Text) (t t' : Tables) (r : StepResult) → Means (select_exists n) t r t' → t' ≡ t
  select_same n t t' (row c) m = m.0
  select_same n t t' done m = m.0
  select_same n t t' error m = m

  -- Whatever calls of SQLite fail, `signup` answers false and leaves the tables as they were, or it
  -- answers true, and then the name has 1 to 256 bytes and was free, and it has added exactly one
  -- user, with a fresh id and the password given, and at most one row of the default quota and no
  -- used space for that id, where none was.
  pub signup-SignedUp : (n p : Text) (s : State) → SignedUp n p s (signup db n p s)
  unfolding signup
  signup-SignedUp n p s =
      let st = select_exists n in
      let s₁ = (db.open_file s).1 in
      let s₂ = (db.prepare st s₁).1 in
      let s₃ = (db.step st s₂).1 in
      let same₁ : tables s₁ ≡ tables s = law.open_same s in
      let same₂ : tables s₂ ≡ tables s = law.prepare_same st s₁ ∙ same₁ in
      let same₃ : tables s₃ ≡ tables s =
        select_same n (tables s₂) (tables s₃) (db.step st s₂).0 (law.step_means st s₂) ∙ same₂ in
      elim (Bool-cases (length n == 0 || ltb 256 (length n))) [
        | inl bad ↦ rw bad (rejected s refl)
        | inr fine ↦ elim (Bool-cases (db.open_file s).0) [
          | inr not_opened ↦ rw (fine, not_opened) (rejected s₁ same₁)
          | inl opened ↦ elim (Bool-cases (db.prepare st s₁).0) [
            | inr not_ready ↦ rw (fine, opened, not_ready) (rejected s₂ same₂)
            | inl ready ↦ elim (Bool-cases (is_row (db.step st s₂).0)) [
              | inl taken ↦ rw (fine, opened, ready, taken) (rejected s₃ same₃)
              | inr free ↦
                  rw (fine, opened, ready, free)
                    (insert_account-SignedUp n p s s₃ (ground arith) (ground arith) same₃)
            ]
          ]
        ]
      ]
