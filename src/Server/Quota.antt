-- ===== src/Server/Quota.antt =====
-- The used space that is charged is the space that the files take.
use client_worker_thread_poo.Base.{
  ℕ, ◌+◌, ◌^◌, ◌<◌, ◌≡◌, ◌≢◌, refl, sym, ap, subst, ◌∙◌, ◌⊎◌, inl, inr, Bool, true, false, Option,
  none, some, Option-cases, some_inj, List, arith, Text, length, Bool-cases, ==_iff, ◌==◌,
}
use client_worker_thread_poo.Base.Int.{
  ℤ, pos, sub_ℕ, ◌+ℤ◌, ◌-ℤ◌, ◌≤ℤ◌, +ℤ_parts, -ℤ_parts, eq_of_parts,
}
use client_worker_thread_poo.Storage.Sqlite.{
  Sqlite, IsSqlite, Tables, Quota, IsInt64, update_row, update_row_if, add_used,
}
use client_worker_thread_poo.Storage.Quotas.{quota_in, used_in}
use client_worker_thread_poo.Task.Defs.{Cmd, upload, delete, Task, payload_bytes, filepath}
use client_worker_thread_poo.Server.Os.{Os, IsOs, Files, put}
use client_worker_thread_poo.Server.Defs.{Shared}
use client_worker_thread_poo.Server.Sizes.{
  bytes_in, total, total_same, total-put, total_elsewhere, Apart, Among, Distinct,
}
use client_worker_thread_poo.Server.Changed.{tables_of, files_of, Changed, unchanged, changed, Fits}

-- A row whose used space is the total size of these files, and within the quota
abbrev pub Counts : List Text → Files → Quota → Type 0
Counts fs files q =
    (q.used_bytes ≡ pos (total fs files))
    × (pos (total fs files) ≤ℤ q.quota_bytes)
    × IsInt64 q.quota_bytes

-- The row of each user counts the files `own user`.
abbrev pub Charged : (ℕ → List Text) → Tables → Files → Type 0
Charged own t files =
    (user : ℕ) (q : Quota) → t.quotas (pos user) ≡ some q → Counts (own user) files q

-- the sum after a file of `old` bytes has become one of `new` bytes
new_sum : (sum sum' new old : ℕ) → sum' + old ≡ sum + new → (pos sum +ℤ sub_ℕ new old) ≡ pos sum'
new_sum sum sum' new old e =
    eq_of_parts (pos sum +ℤ sub_ℕ new old) (pos sum')
      (ground (arith, +ℤ_parts (pos sum) (sub_ℕ new old)))

-- it is within the quota
within :
    (quota : ℤ) (sum sum' new old : ℕ)
    → sum' + old ≡ sum + new
    → pos sum ≤ℤ quota
    → (new ≡ 0) ⊎ (pos new ≤ℤ quota -ℤ pos sum)
    → pos sum' ≤ℤ quota
within quota sum sum' new old e h (inl z) = omega arith
within quota sum sum' new old e h (inr fits) = omega (arith, -ℤ_parts quota (pos sum))

in_range : (quota : ℤ) (sum : ℕ) → pos sum ≤ℤ quota → IsInt64 quota → IsInt64 (pos sum)
in_range quota sum h (a, b) = (omega arith, omega arith)

-- an UPDATE of the row of `user`
update_row_self :
    (i : ℕ) (f : Quota → Quota) (t : Tables) (q : Quota)
    → t.quotas (pos i) ≡ some q
    → (update_row (pos i) f t).quotas (pos i) ≡ some (f q)
update_row_self i f t q e = rw (e, (==_iff i i).1 refl) refl

rowless_update :
    (i j : ℕ) (f : Quota → Quota) (t : Tables)
    → t.quotas (pos i) ≡ none
    → (update_row (pos i) f t).quotas (pos j) ≡ t.quotas (pos j)
rowless_update i j f t e = rw e refl

update_row_other :
    (i j : ℕ) (f : Quota → Quota) (t : Tables)
    → i ≢ j
    → (update_row (pos i) f t).quotas (pos j) ≡ t.quotas (pos j)
update_row_other i j f t ne = other (t.quotas (pos i))
  where
    other : (o : Option Quota) → (update_row_if o (pos i) f t).quotas (pos j) ≡ t.quotas (pos j)
    other none = refl
    other (some q) = elim (Bool-cases (i == j)) [
      | inl same ↦ absurd (ne (ground arith))
      | inr differ ↦ rw differ refl
    ]

-- A task that changes a file changes one of its user's, and of nobody else's; the length that comes
-- with a payload is its length, below 2 ^ 63 as that of any object of C.
abbrev pub changes_files : Cmd → Bool
changes_files upload = true
changes_files delete = true
changes_files _ = false

pub record IsPlaced (resolve : Text → Text) (own : ℕ → List Text) (k : Task) : Type 0 where
  pub own_file : changes_files k.cmd ≡ true → Among (resolve (filepath k)) (own k.gahak.user_id)
  pub no_other :
      (user : ℕ)
      → changes_files k.cmd ≡ true
      → k.gahak.user_id ≢ user
      → Apart (resolve (filepath k)) (own user)
  pub whole : k.payload_len ≡ length (payload_bytes k.payload)
  pub bounded : k.payload_len < 2 ^ 63

module _ (db : Sqlite) (law : IsSqlite db) (os : Os) (law' : IsOs os) (own : ℕ → List Text)
    (distinct : (user : ℕ) → Distinct (own user)) where
  abbrev pub InStep : Shared db os → Type 0
  InStep w = Charged own (tables_of db law os law' w) (files_of db law os law' w)

  pub unchanged-Charged :
      (t t' : Tables) (a b : Files)
      → t' ≡ t
      → ((g : Text) → b g ≡ a g)
      → Charged own t a
      → Charged own t' b
  unchanged-Charged t t' a b et e h user q at =
      let same = total_same (own user) b a e in
      rw same (h user q (ap (λ (x : Tables). x.quotas (pos user)) (sym et) ∙ at))

  -- of the user whose file has changed
  own-Charged :
      (t : Tables) (a : Files) (f : Text) (user : ℕ) (o : Option Text) (q : Quota)
      → Charged own t a
      → Among f (own user)
      → (o ≡ none) ⊎ Fits (bytes_in o) (pos user) t
      → t.quotas (pos user) ≡ some q
      → Counts (own user) (put f o a) (add_used (sub_ℕ (bytes_in o) (bytes_in (a f))) q)
  own-Charged t a f user o q h m fits at =
      let (used, room, range) = h user q at in
      let sum = total (own user) a in
      let sum' = total (own user) (put f o a) in
      let e = total-put (own user) f o a (distinct user) m in
      let small : (bytes_in o ≡ 0) ⊎ (pos (bytes_in o) ≤ℤ q.quota_bytes -ℤ pos sum) = elim fits [
        | inl gone ↦ inl (ap bytes_in gone)
        | inr r ↦ inr (
            rw (← used)
              (subst (λ (x : Option Quota). pos (bytes_in o) ≤ℤ quota_in x -ℤ used_in x) at r))
      ] in
      (
        ap (λ z. z +ℤ sub_ℕ (bytes_in o) (bytes_in (a f))) used
            ∙ new_sum sum sum' (bytes_in o) (bytes_in (a f)) e,
        within q.quota_bytes sum sum' (bytes_in o) (bytes_in (a f)) e room small,
        range,
      )

  -- what is charged is in range
  charge-IsInt64 :
      (t : Tables) (a : Files) (f : Text) (user : ℕ) (o : Option Text)
      → Charged own t a
      → Among f (own user)
      → (o ≡ none) ⊎ Fits (bytes_in o) (pos user) t
      → (q : Quota) → t.quotas (pos user) ≡ some q
      → IsInt64 (q.used_bytes +ℤ sub_ℕ (bytes_in o) (bytes_in (a f)))
  charge-IsInt64 t a f user o h m fits q at =
      let (sum, room, range) = own-Charged t a f user o q h m fits at in
      subst IsInt64 (sym sum) (in_range q.quota_bytes _ room range)

  -- the other users
  others-Charged :
      (t : Tables) (a : Files) (f : Text) (user v : ℕ) (o : Option Text) (c : Quota → Quota)
      → Charged own t a
      → Apart f (own v)
      → user ≢ v
      → (q : Quota) → (update_row (pos user) c t).quotas (pos v) ≡ some q
      → Counts (own v) (put f o a) q
  others-Charged t a f user v o c h apart ne q at =
      rw (total_elsewhere (own v) f o a apart) (h v q (sym (update_row_other user v c t ne) ∙ at))

  after_charge :
      (t : Tables) (a : Files) (f : Text) (user : ℕ) (o : Option Text)
      → Charged own t a
      → Among f (own user)
      → ((other : ℕ) → user ≢ other → Apart f (own other))
      → (o ≡ none) ⊎ Fits (bytes_in o) (pos user) t
      → Charged own
          (update_row (pos user) (add_used (sub_ℕ (bytes_in o) (bytes_in (a f)))) t)
          (put f o a)
  after_charge t a f user o h m apart fits v q at =
      let c = add_used (sub_ℕ (bytes_in o) (bytes_in (a f))) in
      elim (Bool-cases (user == v)) [
        | inr other ↦
            let ne : user ≢ v = ground arith in
            others-Charged t a f user v o c h (apart v ne) ne q at
        | inl same ↦
            let e : user ≡ v = ground arith in
            let at' : (update_row (pos user) c t).quotas (pos user) ≡ some q =
              ap (λ x. (update_row (pos user) c t).quotas (pos x)) e ∙ at in
            elim (Option-cases (t.quotas (pos user))) [
              | inl no_row ↦
                  let none_some : none ≡ some q =
                    sym no_row ∙ sym (rowless_update user user c t no_row) ∙ at' in
                  cc
              | inr (r, row) ↦
                  let new : c r ≡ q = some_inj (sym (update_row_self user c t r row) ∙ at') in
                  subst (λ x. Counts (own x) (put f o a) q) e
                    (subst (Counts (own user) (put f o a)) new
                      (own-Charged t a f user o r h m fits row))
            ]
      ]

  pub Changed-Charged :
      (t : Tables) (a : Files) (f : Text) (user : ℕ) (w : Shared db os)
      → Charged own t a
      → Among f (own user)
      → ((other : ℕ) → user ≢ other → Apart f (own other))
      → Changed db law os law' t a f (pos user) w
      → InStep w
  Changed-Charged t a f user w h m apart (unchanged et e) =
      unchanged-Charged t (tables_of db law os law' w) a (files_of db law os law' w) et e h
  Changed-Charged t a f user w h m apart (changed o e charge fits) =
      unchanged-Charged _ (tables_of db law os law' w) _ (files_of db law os law' w)
        (charge (charge-IsInt64 t a f user o h m fits)) e (after_charge t a f user o h m apart fits)
