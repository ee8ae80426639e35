-- ===== src/Session/Auth.antt =====
-- Who is let in by `signup_login`, and under which name.
use client_worker_thread_poo.Base.{
  ℕ, ◌≡◌, sym, ap, subst, ◌∙◌, Bool, true, false, Option, none, some, Text, codes, length,
  replicate, str_eq, ltb, some_inj, if◌then◌else◌,
}
use client_worker_thread_poo.Utility.Words.{three_words}
use client_worker_thread_poo.Storage.Sqlite.{Sqlite, IsSqlite, Tables, Account, int_eq}
use client_worker_thread_poo.Storage.Defs.{signup, login, get_user_id, minus_one}
use client_worker_thread_poo.Storage.Accounts.{login_sound, get_user_id-IsId}
use client_worker_thread_poo.Storage.SignIn.{signup_stored}
use client_worker_thread_poo.Session.Defs.{
  Gahak, strncpy, Folders, World, folder_name, signup_cmd, login_cmd, signup_login,
}

module _ (db : Sqlite) (law : IsSqlite db) (dirs : Folders) (log10 : ℕ → ℕ) where
  open law use {tables}

  -- The tables have an account `n` with the password `p`.
  abbrev pub HasAccount : Text → Text → Tables → Type 0
  HasAccount n p t = (a : Account) × (t.users n ≡ some a) × (a.password ≡ p)

  Honest : Text → Text → (Bool × Gahak) × World db dirs log10 → Type 0
  Honest n p r = r.0.0 ≡ true → HasAccount n p (tables r.1.0)

  after_signup :
      (n p : Text) (c made ok : Bool) (g g' : Gahak) (w w' : World db dirs log10)
      → (ok ≡ true → HasAccount n p (tables w'.0))
      → Honest n p (if c then ((false, g), w) else (((if made then ok else false), g'), w'))
  unfolding Honest
  after_signup n p true made ok g g' w w' f h = cc
  after_signup n p false true ok g g' w w' f h = f h
  after_signup n p false false ok g g' w w' f h = cc

  signup_cmd-Honest :
      (n p : Text) (g : Gahak) (w : World db dirs log10)
      → Honest n p (signup_cmd db dirs log10 n p g w)
  unfolding signup_cmd
  signup_cmd-Honest n p g (s, d) =
      let s₁ = (signup db n p s).1 in
      let user_id = (get_user_id db n s₁).0 in
      let s₂ = (get_user_id db n s₁).1 in
      let (made, d') = dirs.mkdir (folder_name db dirs log10 n user_id) d in
      after_signup n p (int_eq user_id minus_one) made (signup db n p s).0 g
        (record { user_id = user_id; username = strncpy n (replicate 256 0) }) (s₂, d) (s₂, d')
        (λ ok.
          subst (HasAccount n p) (sym (get_user_id-IsId db law n s₁).0)
            (signup_stored db law n p s ok))

  -- What holds if there is a result.
  All : Text → Text → Option ((Bool × Gahak) × World db dirs log10) → Type 0
  All n p none = Unit {0}
  All n p (some r) = Honest n p r

  after_login :
      (n p : Text) (c : Bool) (r : (Bool × Gahak) × World db dirs log10)
      → Honest n p r
      → All n p (if c then none else some r)
  unfolding All
  after_login n p true r h = tt
  after_login n p false r h = h

  login_cmd-All :
      (n p : Text) (g : Gahak) (w : World db dirs log10) → All n p (login_cmd db dirs log10 n p g w)
  unfolding login_cmd Honest
  login_cmd-All n p g (s, d) =
      let (user_id, s₁) = get_user_id db n s in
      let (ok, s₂) = login db n p s₁ in
      after_login n p (ltb 256 (length n))
        ((ok, record { user_id = user_id; username = strncpy n g.username }), (s₂, d))
        (λ let_in.
          let (a, at, e, same) = login_sound db law n p s₁ let_in in
          (a, ap (λ (t : Tables). t.users n) same ∙ at, e))

  chosen :
      (n p : Text) (c d : Bool) (g : Gahak) (w : World db dirs log10)
      → All n p (
          if c
          then some (signup_cmd db dirs log10 n p g w)
          else (if d then login_cmd db dirs log10 n p g w else some ((false, g), w)))
  unfolding All Honest
  chosen n p true d g w = signup_cmd-Honest n p g w
  chosen n p false true g w = login_cmd-All n p g w
  chosen n p false false g w = λ h. cc

  result :
      (n p : Text) (o : Option ((Bool × Gahak) × World db dirs log10))
      → (r : (Bool × Gahak) × World db dirs log10) → All n p o
      → o ≡ some r
      → r.0.0 ≡ true
      → HasAccount n p (tables r.1.0)
  unfolding All Honest
  result n p none r a e h = cc
  result n p (some q) r a e h =
      subst (HasAccount n p)
        (ap (λ (x : (Bool × Gahak) × World db dirs log10). tables x.1.0) (some_inj e))
        (a (ap (λ (x : (Bool × Gahak) × World db dirs log10). x.0.0) (some_inj e) ∙ h))

  -- Whatever calls of SQLite and of `mkdir` fail: where `signup_login` lets a client in, the tables
  -- then have an account of the second word of the line whose password is the third word.
  pub signup_login-HasAccount :
      (line : Text) (g : Gahak) (w : World db dirs log10)
      → (r : (Bool × Gahak) × World db dirs log10) → signup_login db dirs log10 line g w ≡ some r
      → r.0.0 ≡ true
      → HasAccount (three_words line).1 (three_words line).2 (tables r.1.0)
  unfolding signup_login
  signup_login-HasAccount line g w r = result (three_words line).1 (three_words line).2 _ r (
      chosen (three_words line).1 (three_words line).2
        (str_eq (three_words line).0 (codes "SIGNUP")) (str_eq (three_words line).0 (codes "LOGIN"))
        g w)
