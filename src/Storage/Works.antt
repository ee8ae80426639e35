-- ===== src/Storage/Works.antt =====
-- The quota functions on a database none of whose calls fails.
use mathlib.Core.Bool.{false≢true}
use client_worker_thread_poo.Base.{
  arith, ◌≡◌, ◌≢◌, refl, sym, ap, ◌∙◌, inl, inr, true, not, ◌||◌, some, Bool,
}
use client_worker_thread_poo.Base.Int.{ℤ, pos, negsuc, ◌-ℤ◌, ◌+ℤ◌, ◌≤ℤ◌, ltb_ℤ}
use client_worker_thread_poo.Storage.Sqlite.{
  Statement, select_quota, select_used, update_used, commit, StepResult, row, done, error, begin,
  Sqlite, IsSqlite, Tables, Quota, int_eq, IsInt64, update_row, add_used, Means,
}
use client_worker_thread_poo.Storage.Defs.{
  query, int_or, default_quota_bytes, get_user_quota, get_used_space, check_quota,
  update_used_space, minus_one, is_done,
}
use client_worker_thread_poo.Storage.Quotas.{
  answer, quota_in, used_in, get_user_quota-Read, get_used_space-Read, answer-same,
  check_quota-fits, UsedSpace, kept, added, lost, update_used_space-UsedSpace,
}

-- No call of the quota functions fails: the file opens, their statements are prepared and stepped,
-- and a COMMIT succeeds.
pub record Works (db : Sqlite) : Type 0 where
  pub opens : (s : db.State) → (db.open_file s).0 ≡ true
  pub prepares : (st : Statement) (s : db.State) → (db.prepare st s).0 ≡ true
  pub steps_quota : (i : ℤ) (s : db.State) → (db.step (select_quota i) s).0 ≢ error
  pub steps_used : (i : ℤ) (s : db.State) → (db.step (select_used i) s).0 ≢ error
  pub steps_update : (i d : ℤ) (s : db.State) → (db.step (update_used d i) s).0 ≢ error
  pub commits : (s : db.State) → (db.exec commit s).0 ≡ true

module _ (db : Sqlite) (law : IsSqlite db) where
  open db use {State}
  open law use {tables}

  pub get_user_quota-same : (i : ℤ) (s : State) → tables (get_user_quota db i s).1 ≡ tables s
  get_user_quota-same i s = (get_user_quota-Read db law i s).0

  pub get_used_space-same : (i : ℤ) (s : State) → tables (get_used_space db i s).1 ≡ tables s
  get_used_space-same i s = (get_used_space-Read db law i s).0

  pub check_quota-same : (i z : ℤ) (s : State) → tables (check_quota db i z s).1 ≡ tables s
  unfolding check_quota
  check_quota-same i z s =
      let (quota, s₁) = get_user_quota db i s in
      let (used, s₂) = get_used_space db i s₁ in
      ap tables (
        answer-same db law (int_eq quota minus_one || int_eq used minus_one)
          (not (ltb_ℤ (quota -ℤ used) z)) s₂)
      ∙ get_used_space-same i s₁
      ∙ get_user_quota-same i s

  room_enough :
      (q u z : ℤ) (s : State)
      → pos 0 ≤ℤ q
      → pos 0 ≤ℤ u
      → z ≤ℤ q -ℤ u
      → (answer db law (int_eq q minus_one || int_eq u minus_one) (not (ltb_ℤ (q -ℤ u) z)) s).0
        ≡ true
  room_enough (pos a) (pos b) z s h h' fits = ground arith
  room_enough (negsuc a) u z s h h' fits = absurd (omega arith)
  room_enough (pos a) (negsuc b) z s h h' fits = absurd (omega arith)

  module _ (works : Works db) where
    -- A file that is allowed fits what the user's quota leaves.
    pub check_quota-Fits :
        (i z : ℤ) (s : State)
        → (check_quota db i z s).0 ≡ true
        → z ≤ℤ quota_in ((tables s).quotas i) -ℤ used_in ((tables s).quotas i)
    check_quota-Fits i z s h =
        let (_, (quota, used, q, u, fits)) = check_quota-fits db law i z s h in
        elim q [
          | inr (_, f) ↦ absurd (works.steps_quota i _ f)
          | inl eq ↦ elim u [
            | inr (_, f) ↦ absurd (works.steps_used i _ f)
            | inl eu ↦ rw (← eq, ← eu) fits
          ]
        ]

    is_done_of :
        (i d : ℤ) (t t' : Tables) (r : StepResult)
        → r ≢ error
        → Means (update_used d i) t r t'
        → is_done r ≡ true
    is_done_of i d t t' done ne m = refl
    is_done_of i d t t' (row c) ne m = absurd m
    is_done_of i d t t' error ne m = absurd (ne refl)

    update_used_space-true : (i d : ℤ) (s : State) → (update_used_space db i d s).0 ≡ true
    unfolding update_used_space
    update_used_space-true i d s =
        let s₁ = (db.open_file s).1 in
        let s₂ = (db.exec begin s₁).1 in
        let s₃ = (db.prepare (update_used d i) s₂).1 in
        let u = (db.step (update_used d i) s₃).1 in
        let finished =
          is_done_of i d (tables s₃) (tables u) (db.step (update_used d i) s₃).0
            (works.steps_update i d s₃) (law.step_means (update_used d i) s₃) in
        rw (works.opens s, works.prepares (update_used d i) s₂, finished) refl

    charged :
        (i d : ℤ) (s : State) (r : Bool × State)
        → r.0 ≡ true
        → UsedSpace db law i d s r
        → ((q : Quota) → (tables s).quotas i ≡ some q → IsInt64 (q.used_bytes +ℤ d))
        → tables r.1 ≡ update_row i (add_used d) (tables s)
    charged i d s _ h (kept s' e) range = cc
    charged i d s _ h (added s' e) range = e range
    charged i d s _ h (lost u s' e same) range =
        absurd (false≢true (sym (ap (λ (x : Bool × State). x.0) e) ∙ works.commits u))

    -- A charge whose sum is in range adds to the used space of the user's row.
    pub update_used_space-charged :
        (i d : ℤ) (s : State)
        → ((q : Quota) → (tables s).quotas i ≡ some q → IsInt64 (q.used_bytes +ℤ d))
        → tables (update_used_space db i d s).1 ≡ update_row i (add_used d) (tables s)
    update_used_space-charged i d s range =
        charged i d s _ (update_used_space-true i d s) (update_used_space-UsedSpace db law i d s)
          range

    -- what a SELECT gives
    selected :
        (st : Statement) (z : ℤ) (s : State) (v : Tables → ℤ)
        → ((u : State) → (db.step st u).0 ≢ error)
        → ((t t' : Tables) (r : StepResult) → r ≢ error → Means st t r t' → int_or z r ≡ v t)
        → (query db st minus_one (int_or z) s).0 ≡ v (tables s)
    unfolding query
    selected st z s v sure value =
        let s₁ = (db.open_file s).1 in
        let s₂ = (db.prepare st s₁).1 in
        rw (works.opens s, works.prepares st s₁)
          (value (tables s₂) (tables (db.step st s₂).1) (db.step st s₂).0 (sure s₂)
              (law.step_means st s₂)
            ∙ ap v (law.prepare_same st s₁ ∙ law.open_same s))

    quota_value :
        (i : ℤ) (t t' : Tables) (r : StepResult)
        → r ≢ error
        → Means (select_quota i) t r t'
        → int_or default_quota_bytes r ≡ quota_in (t.quotas i)
    quota_value i t t' (row c) ne (e, (q, at, ec)) = rw (ec, at) refl
    quota_value i t t' done ne (e, at) = rw at refl
    quota_value i t t' error ne m = absurd (ne refl)

    used_value :
        (i : ℤ) (t t' : Tables) (r : StepResult)
        → r ≢ error
        → Means (select_used i) t r t'
        → int_or (pos 0) r ≡ used_in (t.quotas i)
    used_value i t t' (row c) ne (e, (q, at, ec)) = rw (ec, at) refl
    used_value i t t' done ne (e, at) = rw at refl
    used_value i t t' error ne m = absurd (ne refl)

    quota_of : (i : ℤ) (s : State) → (get_user_quota db i s).0 ≡ quota_in ((tables s).quotas i)
    unfolding get_user_quota
    quota_of i s =
        selected (select_quota i) default_quota_bytes s (λ t. quota_in (t.quotas i))
          (works.steps_quota i) (quota_value i)

    used_of : (i : ℤ) (s : State) → (get_used_space db i s).0 ≡ used_in ((tables s).quotas i)
    unfolding get_used_space
    used_of i s =
        selected (select_used i) (pos 0) s (λ t. used_in (t.quotas i)) (works.steps_used i)
          (used_value i)

    -- A file that fits is allowed.
    pub check_quota-true :
        (i z : ℤ) (s : State)
        → pos 0 ≤ℤ quota_in ((tables s).quotas i)
        → pos 0 ≤ℤ used_in ((tables s).quotas i)
        → z ≤ℤ quota_in ((tables s).quotas i) -ℤ used_in ((tables s).quotas i)
        → (check_quota db i z s).0 ≡ true
    unfolding check_quota
    check_quota-true i z s quota used fits =
        let s₁ = (get_user_quota db i s).1 in
        let used_now : (get_used_space db i s₁).0 ≡ used_in ((tables s).quotas i) =
          used_of i s₁ ∙ ap (λ (t : Tables). used_in (t.quotas i)) (get_user_quota-same i s) in
        rw (quota_of i s, used_now)
          (room_enough (quota_in ((tables s).quotas i)) (used_in ((tables s).quotas i)) z _ quota
            used fits)
