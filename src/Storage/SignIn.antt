-- ===== src/Storage/SignIn.antt =====
-- `signup` followed by `login`, where the calls of SQLite work.
use client_worker_thread_poo.Base.{
  ◌≡◌, ◌≢◌, refl, sym, ap, ◌∙◌, inl, inr, Bool, true, some, Text, str_eq, str_eq_refl, some_inj,
}
use client_worker_thread_poo.Base.Int.{ℤ, pos}
use client_worker_thread_poo.Storage.Sqlite.{
  Statement, select_password, StepResult, row, done, error, Sqlite, IsSqlite, Tables, Account,
  Means,
}
use client_worker_thread_poo.Storage.Defs.{query, login, signup, text_matches, int32}
use client_worker_thread_poo.Storage.Accounts.{
  SignedUp, rejected, created, QuotaAdded, signup-SignedUp,
}

module _ (db : Sqlite) (law : IsSqlite db) where
  open db use {State}
  open law use {tables}

  -- The calls for one statement work: the file opens, it prepares, and its step does not fail.
  pub record Works (st : Statement) : Type 0 where
    pub opens : (s : State) → (db.open_file s).0 ≡ true
    pub prepares : (s : State) → (db.prepare st s).0 ≡ true
    pub steps : (s : State) → (db.step st s).0 ≢ error

  compared :
      (n p : Text) (t t' : Tables) (a : Account) (r : StepResult)
      → t.users n ≡ some a
      → Means (select_password n) t r t'
      → r ≢ error
      → text_matches p r ≡ str_eq a.password p
  compared n p t t' a (row c) at (e, (b, bt, ec)) ne =
      ap (λ x. text_matches p (row x)) ec
      ∙ ap (λ (x : Account). str_eq x.password p) (some_inj (sym bt ∙ at))
  compared n p t t' a done at (e, nt) ne = absurd (cc)
  compared n p t t' a error at e ne = absurd (ne refl)

  login_exact :
      (n p : Text) (s : State) (a : Account)
      → Works (select_password n)
      → (tables s).users n ≡ some a
      → (login db n p s).0 ≡ str_eq a.password p
  unfolding login query
  login_exact n p s a works at =
      let st = select_password n in
      let s₁ = (db.open_file s).1 in
      let s₂ = (db.prepare st s₁).1 in
      let same₂ : tables s₂ ≡ tables s = law.prepare_same st s₁ ∙ law.open_same s in
      rw (works.opens s, works.prepares s₁)
        (compared n p (tables s₂) (tables (db.step st s₂).1) a (db.step st s₂).0
          (ap (λ (t : Tables). t.users n) same₂ ∙ at) (law.step_means st s₂) (works.steps s₂))

  Stored : Text → Text → Bool × State → Type 0
  Stored n p r = r.0 ≡ true → (a : Account) × ((tables r.1).users n ≡ some a) × (a.password ≡ p)

  users_kept :
      (id : ℤ) (n : Text) (t t' : Tables) → QuotaAdded db law id t t' → t'.users n ≡ t.users n
  users_kept id n t t' (inl e) = ap (λ (x : Tables). x.users n) e
  users_kept id n t t' (inr (free, e)) = ap (λ (x : Tables). x.users n) e

  SignedUp-Stored :
      (n p : Text) (s : State) (r : Bool × State) → SignedUp db law n p s r → Stored n p r
  unfolding Stored
  SignedUp-Stored n p s _ (rejected s' e) h = cc
  SignedUp-Stored n p s _ (created id s' lo hi free fresh q) h = (
    record { id = id; password = p },
    users_kept (int32 (pos id)) n _ _ q ∙ rw (str_eq_refl n) refl,
    refl,
  )

  pub signup_stored :
      (n p : Text) (s : State)
      → (signup db n p s).0 ≡ true
      → (a : Account) × ((tables (signup db n p s).1).users n ≡ some a) × (a.password ≡ p)
  unfolding Stored
  signup_stored n p s = SignedUp-Stored n p s (signup db n p s) (signup-SignedUp db law n p s)

  -- After a `signup` that was accepted, `login` under the same name lets in with exactly the password
  -- of the sign-up, provided that its own calls of SQLite work.
  pub login-signup :
      (n p p' : Text) (s : State)
      → Works (select_password n)
      → (signup db n p s).0 ≡ true
      → (login db n p' (signup db n p s).1).0 ≡ str_eq p p'
  login-signup n p p' s works h =
      let (a, at, e) = signup_stored n p s h in
      login_exact n p' (signup db n p s).1 a works at ∙ ap (λ x. str_eq x p') e
