-- ===== src/Server/Changed.antt =====
-- What one task does to the files and to the used space.
use client_worker_thread_poo.Base.{
  ◌<◌, ◌^◌, ℕ, ◌≡◌, refl, sym, ap, subst, ◌∙◌, ==_iff, ◌⊎◌, inl, inr, Bool, true, false, Option,
  none, some, [], arith, Text, length, take, take_of_length_le, str_eq, Bool-cases,
}
use client_worker_thread_poo.Base.Int.{ℤ, pos, sub_ℕ, ◌+ℤ◌, ◌-ℤ◌, ◌≤ℤ◌, eq_of_parts, -ℤ_parts}
use client_worker_thread_poo.Storage.Sqlite.{
  Sqlite, IsSqlite, Tables, Quota, IsInt64, update_row, add_used,
}
use client_worker_thread_poo.Storage.Defs.{update_used_space, check_quota, get_user_quota}
use client_worker_thread_poo.Storage.Quotas.{quota_in, used_in}
use client_worker_thread_poo.Storage.Works.{
  Works, check_quota-same, check_quota-Fits, get_user_quota-same, get_used_space-same,
  update_used_space-charged,
}
use client_worker_thread_poo.Task.Defs.{
  Task, long_of, long_of_small, payload_bytes, filepath, upload_write, upload_locked,
  execute_upload, or_zero,
}
use client_worker_thread_poo.Task.Services.{size_of}
use client_worker_thread_poo.Server.Os.{Os, IsOs, TakesAll, Files, put, put_if}
use client_worker_thread_poo.Server.Defs.{
  Shared, services, acquire_file_lock, lock_found, lock_or_wait,
}
use client_worker_thread_poo.Server.Sizes.{bytes_in}
use client_worker_thread_poo.FileLocks.Defs.{acquire_slot, lock_slot, FileLockTable}

-- The user has this much room.
abbrev pub Fits : ℕ → ℤ → Tables → Type 0
Fits n user t = pos n ≤ℤ quota_in (t.quotas user) -ℤ used_in (t.quotas user)

or_zero_lem : (o : Option Text) → or_zero (size_of o) ≡ bytes_in o
or_zero_lem none = refl
or_zero_lem (some b) = refl

minus_pos : (a b : ℕ) → (pos a -ℤ pos b) ≡ sub_ℕ a b
minus_pos a b = eq_of_parts (pos a -ℤ pos b) (sub_ℕ a b) (ground (arith, -ℤ_parts (pos a) (pos b)))

module _ (db : Sqlite) (law : IsSqlite db) (os : Os) (law' : IsOs os) where
  open law use {tables}
  open law' use {resolve, files}

  abbrev pub tables_of : Shared db os → Tables
  tables_of w = tables w.accounts

  abbrev pub files_of : Shared db os → Files
  files_of w = files w.disk

  -- From the tables `t` and the files `fs`: nothing has changed; or the file `f` has, to `o`, where
  -- there was room for it, and the difference of its sizes was charged to `user`.
  pub data Changed (t : Tables) (fs : Files) (f : Text) (user : ℤ) (w : Shared db os) : Type 0 where
    unchanged : tables_of w ≡ t → ((g : Text) → files_of w g ≡ fs g) → Changed t fs f user w
    changed :
        (o : Option Text)
        → ((g : Text) → files_of w g ≡ put f o fs g)
        → (((q : Quota)
              → t.quotas user ≡ some q
              → IsInt64 (q.used_bytes +ℤ sub_ℕ (bytes_in o) (bytes_in (fs f))))
            → tables_of w ≡ update_row user (add_used (sub_ℕ (bytes_in o) (bytes_in (fs f)))) t)
        → (o ≡ none) ⊎ Fits (bytes_in o) user t
        → Changed t fs f user w

  lock_or_wait-same :
      (o : Option FileLockTable) (w : Shared db os)
      → ((lock_or_wait db os o w).1.accounts ≡ w.accounts)
        × ((lock_or_wait db os o w).1.disk ≡ w.disk)
  unfolding lock_or_wait
  lock_or_wait-same none w = (refl, refl)
  lock_or_wait-same (some t) w = (refl, refl)

  lock_found-same :
      (r : Option ℕ × FileLockTable) (w : Shared db os)
      → ((lock_found db os r w).1.accounts ≡ w.accounts) × ((lock_found db os r w).1.disk ≡ w.disk)
  unfolding lock_found
  lock_found-same (none, t) w = (refl, refl)
  lock_found-same (some i, t) w = lock_or_wait-same (lock_slot t i) (record w { table = t })

  -- The locks are no part of the accounts and the files.
  pub acquire_file_lock-same :
      (p : Text) (w : Shared db os)
      → ((acquire_file_lock db os p w).1.accounts ≡ w.accounts)
        × ((acquire_file_lock db os p w).1.disk ≡ w.disk)
  unfolding acquire_file_lock
  acquire_file_lock-same p w = lock_found-same (acquire_slot w.table p) w

  put_twice :
      (f : Text) (o o' : Option Text) (a fs : Files)
      → ((g : Text) → a g ≡ put f o fs g)
      → (g : Text) → put f o' a g ≡ put f o' fs g
  put_twice f o o' a fs e g = elim (Bool-cases (str_eq f g)) [
    | inl same ↦ rw same refl
    | inr other ↦ rw other (e g ∙ rw other refl)
  ]

  -- No call of the database fails, and the disk takes all that is written.
  module _ (works : Works db) (full : TakesAll os) where
    pub charged_from :
        (i d : ℤ) (s : db.State) (t : Tables)
        → tables s ≡ t
        → ((q : Quota) → t.quotas i ≡ some q → IsInt64 (q.used_bytes +ℤ d))
        → tables (update_used_space db i d s).1 ≡ update_row i (add_used d) t
    charged_from i d s t e =
        subst
          (λ (t : Tables).
            ((q : Quota) → t.quotas i ≡ some q → IsInt64 (q.used_bytes +ℤ d))
            → tables (update_used_space db i d s).1 ≡ update_row i (add_used d) t)
          e (update_used_space-charged db law works i d s)

    written :
        (p b : Text) (w : Shared db os) (fs : Files)
        → ((g : Text) → files_of w g ≡ put (resolve p) (some []) fs g)
        → (g : Text)
        → files (os.close_write p (os.write p b w.disk).1).1 g ≡ put (resolve p) (some b) fs g
    written p b w fs e g =
        let n = (os.write p b w.disk).0 in
        let all : take n b ≡ b = take_of_length_le n b (omega (arith, (full p b w.disk).0)) in
        ap (λ (a : Files). a g) (law'.write_files p b w.disk (full p b w.disk).1)
        ∙ ap (λ x. put (resolve p) (some x) (files w.disk) g) all
        ∙ put_twice (resolve p) (some []) (some b) (files w.disk) fs e g

    upload_write-Changed :
        (path b : Text) (old : Option ℕ) (k : Task) (w : Shared db os) (t : Tables) (fs : Files)
        → tables_of w ≡ t
        → ((g : Text) → files_of w g ≡ put (resolve path) (some []) fs g)
        → old ≡ size_of (fs (resolve path))
        → payload_bytes k.payload ≡ b
        → k.payload_len ≡ length b
        → length b < 2 ^ 63
        → Fits (length b) (pos k.gahak.user_id) t
        → Changed t fs
            (resolve path)
            (pos k.gahak.user_id)
            (upload_write (services db os) path old k w).1
    unfolding upload_write
    upload_write-Changed path b old k w t fs same e eold eb elen small fits =
        let all =
          (==_iff (os.write path (payload_bytes k.payload) w.disk).0 k.payload_len).1
            ((full path (payload_bytes k.payload) w.disk).0 ∙ ap length eb ∙ sym elen) in
        let d : (long_of k.payload_len -ℤ pos (or_zero old))
            ≡ sub_ℕ (length b) (bytes_in (fs (resolve path))) =
          rw (elen, eold, long_of_small (length b) small)
            (ap (λ m. pos (length b) -ℤ pos m) (or_zero_lem (fs (resolve path)))
              ∙ minus_pos (length b) (bytes_in (fs (resolve path)))) in
        let i = pos k.gahak.user_id in
        rw all (
          changed (some b)
            (λ g.
              ap (λ x. files (os.close_write path (os.write path x w.disk).1).1 g) eb
              ∙ written path b w fs e g)
            (λ range.
              ap (λ z. tables (update_used_space db i z w.accounts).1) d
              ∙ charged_from i _ w.accounts t same range)
            (inr fits))

    -- opened for writing, or not
    opened_as :
        (path : Text) (s : os.State) (fs : Files) (b : Bool)
        → (os.open_write path s).0 ≡ b
        → files s ≡ fs
        → (g : Text) → files (os.open_write path s).1 g ≡ put_if b (resolve path) (some []) fs g
    opened_as path s fs b h e g =
        ap (λ (a : Files). a g) (law'.open_write_files path s)
        ∙ ap (λ x. put_if x (resolve path) (some []) (files s) g) h
        ∙ ap (λ a. put_if b (resolve path) (some []) a g) e

    upload_locked-Changed :
        (path b : Text) (k : Task) (w : Shared db os) (t : Tables) (fs : Files)
        → tables_of w ≡ t
        → files_of w ≡ fs
        → payload_bytes k.payload ≡ b
        → k.payload_len ≡ length b
        → length b < 2 ^ 63
        → Fits (length b) (pos k.gahak.user_id) t
        → Changed t fs
            (resolve path)
            (pos k.gahak.user_id)
            (upload_locked (services db os) path k w).1
    unfolding upload_locked
    upload_locked-Changed path b k w t fs same e eb elen small fits =
        let s₁ = (os.stat path w.disk).1 in
        let same₁ : files s₁ ≡ fs = law'.stat_same path w.disk ∙ e in
        let old : (os.stat path w.disk).0 ≡ size_of (fs (resolve path)) =
          law'.stat_size path w.disk ∙ ap (λ (a : Files). size_of (a (resolve path))) e in
        elim (Bool-cases (os.open_write path s₁).0) [
          | inl opened ↦ rw opened (
              upload_write-Changed path b (os.stat path w.disk).0 k _ t fs same
                (opened_as path s₁ fs true opened same₁) old eb elen small fits)
          | inr not_opened ↦
              rw not_opened (unchanged same (opened_as path s₁ fs false not_opened same₁))
        ]

    pub execute_upload-Changed :
        (k : Task) (w : Shared db os)
        → k.payload_len ≡ length (payload_bytes k.payload)
        → k.payload_len < 2 ^ 63
        → Changed
            (tables_of w)
            (files_of w)
            (resolve (filepath k))
            (pos k.gahak.user_id)
            (execute_upload (services db os) k w).1
    unfolding execute_upload
    execute_upload-Changed k w elen small =
        let i = pos k.gahak.user_id in
        let s₁ = (check_quota db i (long_of k.payload_len) w.accounts).1 in
        let same₁ = check_quota-same db law i (long_of k.payload_len) w.accounts in
        let s₂ = (get_user_quota db i s₁).1 in
        let same₃ = get_used_space-same db law i s₂ ∙ get_user_quota-same db law i s₁ ∙ same₁ in
        let w₁ = record w { accounts = s₁ } in
        let (locks_a, locks_d) = acquire_file_lock-same (filepath k) w₁ in
        elim (Bool-cases (check_quota db i (long_of k.payload_len) w.accounts).0) [
          | inr too_big ↦ rw too_big (unchanged same₃ (λ g. refl))
          | inl allowed ↦
              let fits =
                subst
                  (λ z. z ≤ℤ quota_in ((tables_of w).quotas i) -ℤ used_in ((tables_of w).quotas i))
                  (long_of_small k.payload_len small)
                  (check_quota-Fits db law works i (long_of k.payload_len) w.accounts allowed) in
              elim (Bool-cases (acquire_file_lock db os (filepath k) w₁).0) [
                | inl locked ↦
                    rw (allowed, locked)
                      (upload_locked-Changed (filepath k) (payload_bytes k.payload) k _
                        (tables_of w) (files_of w) (ap tables locks_a ∙ same₁) (ap files locks_d)
                        refl elen (subst (λ n. n < 2 ^ 63) elen small)
                        (subst (λ n. Fits n i (tables_of w)) elen fits))
                | inr full_table ↦
                    rw (allowed, full_table)
                      (unchanged (ap tables locks_a ∙ same₁) (λ g. ap (λ s. files s g) locks_d))
              ]
        ]
