-- ===== src/Storage/Quotas.antt =====
-- The quota functions: what `check_quota` allows, and what `update_used_space` makes of the tables.
use client_worker_thread_poo.Base.{
  ◌≡◌, refl, ap, subst, ◌∙◌, ◌⊎◌, inl, inr, Bool, true, false, not, ◌||◌, Option, none, some, arith,
  Bool-cases, if◌then◌else◌,
}
use client_worker_thread_poo.Base.Int.{ℤ, pos, negsuc, ◌-ℤ◌, ◌+ℤ◌, ◌≤ℤ◌, ltb_ℤ}
use client_worker_thread_poo.Storage.Sqlite.{
  Statement, select_quota, select_used, update_used, begin, commit, rollback, StepResult, row, done,
  error, Sqlite, IsSqlite, Tables, Quota, Means, int_eq, IsInt64, update_row, add_used,
}
use client_worker_thread_poo.Storage.Defs.{
  get_user_quota, get_used_space, check_quota, update_used_space, int_or, is_done, minus_one,
  default_quota_bytes,
}
use client_worker_thread_poo.Storage.Accounts.{Asked, failed, answered, at_step, query-Asked}

-- The quota and the used space of a user, as the functions see them: a user without a row has the
-- default quota and has used nothing.
abbrev pub quota_in : Option Quota → ℤ
quota_in none = default_quota_bytes
quota_in (some q) = q.quota_bytes

abbrev pub used_in : Option Quota → ℤ
used_in none = pos 0
used_in (some q) = q.used_bytes

int_eq_sound : (a b : ℤ) → int_eq a b ≡ true → a ≡ b
int_eq_sound (pos a) (pos b) h = ap pos (ground arith)
int_eq_sound (pos a) (negsuc b) h = cc
int_eq_sound (negsuc a) (pos b) h = cc
int_eq_sound (negsuc a) (negsuc b) h = ap negsuc (ground arith)

or_false : (a b : Bool) → (a || b) ≡ false → (a ≡ false) × (b ≡ false)
or_false true b h = cc
or_false false b h = (refl, h)

not_lt : (a b : ℤ) → not (ltb_ℤ a b) ≡ true → b ≤ℤ a
not_lt a b h = ground arith

module _ (db : Sqlite) (law : IsSqlite db) where
  open db use {State}
  open law use {tables, saved}

  -- The step of the query that starts in `s` fails.
  abbrev pub Fails : Statement → State → Type 0
  Fails st s = (db.step st (at_step db law st s)).0 ≡ error

  -- -1, or what is in the tables, or the default that a failed step leaves
  abbrev pub Read : Statement → State → (v d z : ℤ) → Type 0
  Read st s v d z = (z ≡ minus_one) ⊎ ((z ≡ v) ⊎ ((z ≡ d) × Fails st s))

  quota_lem :
      (i : ℤ) (s : State) (r : ℤ × State)
      → Asked db law (select_quota i) minus_one (int_or default_quota_bytes) s r
      → (tables r.1 ≡ tables s)
        × Read (select_quota i) s (quota_in ((tables s).quotas i)) default_quota_bytes r.0
  quota_lem i s _ (failed s' e) = (e, inl refl)
  quota_lem i s _ (answered (row c) s' f (e, (q, at, ec))) = (e, inr (inl (rw (ec, at) refl)))
  quota_lem i s _ (answered done s' f (e, at)) = (e, inr (inl (rw at refl)))
  quota_lem i s _ (answered error s' f e) = (e, inr (inr (refl, f)))

  used_lem :
      (i : ℤ) (s : State) (r : ℤ × State)
      → Asked db law (select_used i) minus_one (int_or (pos 0)) s r
      → (tables r.1 ≡ tables s) × Read (select_used i) s (used_in ((tables s).quotas i)) (pos 0) r.0
  used_lem i s _ (failed s' e) = (e, inl refl)
  used_lem i s _ (answered (row c) s' f (e, (q, at, ec))) = (e, inr (inl (rw (ec, at) refl)))
  used_lem i s _ (answered done s' f (e, at)) = (e, inr (inl (rw at refl)))
  used_lem i s _ (answered error s' f e) = (e, inr (inr (refl, f)))

  pub get_user_quota-Read :
      (i : ℤ) (s : State)
      → (tables (get_user_quota db i s).1 ≡ tables s)
        × Read
            (select_quota i)
            s
            (quota_in ((tables s).quotas i))
            default_quota_bytes
            (get_user_quota db i s).0
  unfolding get_user_quota
  get_user_quota-Read i s =
      quota_lem i s _ (query-Asked db law (select_quota i) minus_one (int_or default_quota_bytes) s)

  pub get_used_space-Read :
      (i : ℤ) (s : State)
      → (tables (get_used_space db i s).1 ≡ tables s)
        × Read (select_used i) s (used_in ((tables s).quotas i)) (pos 0) (get_used_space db i s).0
  unfolding get_used_space
  get_used_space-Read i s =
      used_lem i s _ (query-Asked db law (select_used i) minus_one (int_or (pos 0)) s)

  known :
      {st : Statement} {s : State} {v d z : ℤ}
      → int_eq z minus_one ≡ false
      → Read st s v d z
      → (z ≡ v) ⊎ ((z ≡ d) × Fails st s)
  known h (inr r) = r
  known {z = z} h (inl e) =
      let found : int_eq z minus_one ≡ true = ap (λ x. int_eq x minus_one) e in absurd (cc)

  abbrev pub answer : Bool → Bool → State → Bool × State
  answer bad fits s = if bad then (false, s) else (fits, s)

  pub answer-same : (b c : Bool) (s : State) → (answer b c s).1 ≡ s
  answer-same true c s = refl
  answer-same false c s = refl

  answer-true : (b c : Bool) (s : State) → (answer b c s).0 ≡ true → (b ≡ false) × (c ≡ true)
  answer-true true c s h = cc
  answer-true false c s h = (refl, h)

  allowed :
      (quota used size : ℤ) (s : State)
      → (answer
          (int_eq quota minus_one || int_eq used minus_one)
          (not (ltb_ℤ (quota -ℤ used) size))
          s).0
        ≡ true
      → (int_eq quota minus_one ≡ false) × (int_eq used minus_one ≡ false) × (size ≤ℤ quota -ℤ used)
  allowed quota used size s h =
      let (b, c) =
        answer-true (int_eq quota minus_one || int_eq used minus_one)
          (not (ltb_ℤ (quota -ℤ used) size)) s h in
      let (x, y) = or_false (int_eq quota minus_one) (int_eq used minus_one) b in
      (x, y, not_lt (quota -ℤ used) size c)

  -- `check_quota` changes nothing. Where it allows a file, the file's size is at most the
  -- difference of a quota and a used space. The quota is the user's (the default for a user
  -- without a row), or it is the default because the step of this call's SELECT of it failed; the used
  -- space is the user's (0 for a user without a row), or it is 0 because the step of this call's
  -- SELECT of it failed.
  pub check_quota-fits :
      (i size : ℤ) (s : State)
      → (check_quota db i size s).0 ≡ true
      → (tables (check_quota db i size s).1 ≡ tables s)
        × ((quota used : ℤ) × ((quota ≡ quota_in ((tables s).quotas i))
              ⊎ ((quota ≡ default_quota_bytes) × Fails (select_quota i) s))
            × ((used ≡ used_in ((tables s).quotas i))
                ⊎ ((used ≡ pos 0) × Fails (select_used i) (get_user_quota db i s).1))
            × (size ≤ℤ quota -ℤ used))
  unfolding check_quota
  check_quota-fits i size s h =
      let (same₁, quota_read) = get_user_quota-Read i s in
      let quota = (get_user_quota db i s).0 in
      let s₁ = (get_user_quota db i s).1 in
      let (same₂, used_read) = get_used_space-Read i s₁ in
      let used = (get_used_space db i s₁).0 in
      let s₂ = (get_used_space db i s₁).1 in
      let (a, b, fits) = allowed quota used size s₂ h in
      let used_read' =
        subst (λ (t : Tables). Read (select_used i) s₁ (used_in (t.quotas i)) (pos 0) used) same₁
          used_read in
      (
        ap tables (
              answer-same (int_eq quota minus_one || int_eq used minus_one)
                (not (ltb_ℤ (quota -ℤ used) size)) s₂)
            ∙ same₂
            ∙ same₁,
        (quota, used, known a quota_read, known b used_read', fits),
      )

  -- What `update_used_space` may do: fail and change nothing; add `d` to the used space of the row
  -- of `i`, if there is one; or answer true although the COMMIT failed, and change nothing.
  pub data UsedSpace (i d : ℤ) (s : State) : Bool × State → Type 0 where
    kept : (s' : State) → tables s' ≡ tables s → UsedSpace i d s (false, s')
    added :
        (s' : State)
        → (((q : Quota) → (tables s).quotas i ≡ some q → IsInt64 (q.used_bytes +ℤ d))
            → tables s' ≡ update_row i (add_used d) (tables s))
        → UsedSpace i d s (true, s')
    lost :
        (u s' : State)
        → db.exec commit u ≡ (false, s')
        → tables s' ≡ tables s
        → UsedSpace i d s (true, s')

  -- the end of `update_used_space`, after the UPDATE
  stepped :
      (i d : ℤ) (s s₃ u : State) (r : StepResult)
      → tables s₃ ≡ tables s
      → Means (update_used d i) (tables s₃) r (tables u)
      → (saved u ≡ tables s) ⊎ (saved u ≡ tables u)
      → UsedSpace i d s
          (if is_done r then (true, (db.exec commit u).1) else (false, (db.exec rollback u).1))
  stepped i d s s₃ u (row c) same m sv = absurd m
  stepped i d s s₃ u error same m (inl e) = kept _ (law.rollback_saved u ∙ e)
  stepped i d s s₃ u error same m (inr e) = kept _ (law.rollback_saved u ∙ e ∙ m ∙ same)
  stepped i d s s₃ u done same m sv =
      let m' = subst (λ t. Means (update_used d i) t done (tables u)) same m in
      let s' = (db.exec commit u).1 in
      elim (Bool-cases (db.exec commit u).0) [
        | inl ok ↦ added s' (λ range. law.commit_same u ok ∙ m' range)
        | inr bad ↦ elim sv [
          | inl e ↦ lost u s' (λ k. (bad k, s')) (law.commit_saved u bad ∙ e)
          | inr e ↦ added s' (λ range. law.commit_saved u bad ∙ e ∙ m' range)
        ]
      ]

  -- Whatever calls of SQLite fail, `update_used_space` answers false and changes nothing; or it
  -- answers true, and then it has added `delta` to the used space of the user's row, if there is
  -- one and the sum is in the range of SQLite's integers, and changed nothing else, or its COMMIT
  -- failed and it has changed nothing at all.
  pub update_used_space-UsedSpace :
      (i delta : ℤ) (s : State) → UsedSpace i delta s (update_used_space db i delta s)
  unfolding update_used_space
  update_used_space-UsedSpace i d s =
      let st = update_used d i in
      let s₁ = (db.open_file s).1 in
      let s₂ = (db.exec begin s₁).1 in
      let s₃ = (db.prepare st s₂).1 in
      let u = (db.step st s₃).1 in
      let same₁ : tables s₁ ≡ tables s = law.open_same s in
      let same₃ : tables s₃ ≡ tables s = law.prepare_same st s₂ ∙ law.begin_same s₁ ∙ same₁ in
      let saved₃ : saved s₃ ≡ tables s =
        law.prepare_saved st s₂ ∙ law.begin_saved s₁ ∙ law.open_saved s in
      let sv : (saved u ≡ tables s) ⊎ (saved u ≡ tables u) = elim (law.step_saved st s₃) [
        | inl e ↦ inl (e ∙ saved₃)
        | inr e ↦ inr e
      ] in
      elim (Bool-cases (db.open_file s).0) [
        | inr not_opened ↦ rw not_opened (kept s₁ same₁)
        | inl opened ↦ elim (Bool-cases (db.prepare st s₂).0) [
          | inr not_ready ↦ rw (opened, not_ready) (kept _ (law.rollback_saved s₃ ∙ saved₃))
          | inl ready ↦
              rw (opened, ready)
                (stepped i d s s₃ u (db.step st s₃).0 same₃ (law.step_means st s₃) sv)
        ]
      ]
