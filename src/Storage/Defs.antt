-- ===== src/Storage/Defs.antt =====
-- The functions of storage.c. Each opens the file, prepares its statement, binds and steps it, and
-- closes again; closing and finalizing have no result that the code reads.
use client_worker_thread_poo.Base.{
  ℕ, ◌-◌, ◌^◌, ◌%◌, Bool, true, false, not, ◌||◌, Text, length, str_eq, ltb, ◌==◌, if◌then◌else◌,
}
use client_worker_thread_poo.Base.Int.{ℤ, pos, negsuc, ◌-ℤ◌, ltb_ℤ}
use client_worker_thread_poo.Storage.Sqlite.{
  Statement, select_exists, insert_user, insert_quota, select_password, select_id, select_quota,
  select_used, update_used, update_quota, begin, commit, rollback, Column, int, text, StepResult,
  row, done, Sqlite, int_eq,
}

-- DEFAULT_QUOTA_BYTES
abbrev pub default_quota_bytes : ℤ
default_quota_bytes = pos 104857600

abbrev pub minus_one : ℤ
minus_one = negsuc 0

abbrev pub is_done : StepResult → Bool
is_done done = true
is_done _ = false

abbrev pub is_row : StepResult → Bool
is_row (row c) = true
is_row _ = false

-- the low 32 bits of an integer, with their sign
abbrev pub int32_of : ℕ → ℤ
int32_of w = if ltb w (2 ^ 31) then pos w else negsuc (2 ^ 32 - 1 - w)

unfoldable pub int32 : ℤ → ℤ
int32 (pos n) = int32_of (n % 2 ^ 32)
int32 (negsuc n) = int32_of (2 ^ 32 - 1 - n % 2 ^ 32)

-- `sqlite3_column_int64`: 0 for a text that is no number
abbrev pub column_int : Column → ℤ
column_int (int z) = z
column_int (text s) = pos 0

-- the integer of a row, or a default
abbrev pub int_or : ℤ → StepResult → ℤ
int_or z (row c) = column_int c
int_or z _ = z

-- `sqlite3_column_int` of a row, which keeps 32 bits, or -1
abbrev pub id_of_row : StepResult → ℤ
id_of_row (row c) = int32 (column_int c)
id_of_row _ = minus_one

-- `sqlite3_column_text` of a row, compared with `strcmp`
abbrev pub text_matches : Text → StepResult → Bool
text_matches p (row (text s)) = str_eq s p
text_matches p _ = false

module _ (db : Sqlite) where
  open db use {State, open_file, prepare, step, exec}

  abbrev pub Db : Type 0 → Type 0
  Db A = State → A × State

  -- `open_db`, `sqlite3_prepare_v2` and one `sqlite3_step`: `fail` if one of the first two fails
  unfoldable pub query : {A : Type 0} → Statement → (fail : A) → (StepResult → A) → Db A
  query st fail read s =
      let (opened, s₁) = open_file s in
      let (prepared, s₂) = prepare st s₁ in
      let (r, s₃) = step st s₂ in
      if opened then (if prepared then (read r, s₃) else (fail, s₂)) else (fail, s₁)

  unfoldable pub login : Text → Text → Db Bool
  login username password = query (select_password username) false (text_matches password)

  unfoldable pub get_user_id : Text → Db ℤ
  get_user_id username = query (select_id username) minus_one id_of_row

  unfoldable pub get_user_quota : ℤ → Db ℤ
  get_user_quota user_id = query (select_quota user_id) minus_one (int_or default_quota_bytes)

  unfoldable pub get_used_space : ℤ → Db ℤ
  get_used_space user_id = query (select_used user_id) minus_one (int_or (pos 0))

  unfoldable pub check_quota : ℤ → ℤ → Db Bool
  check_quota user_id file_size s =
      let (quota, s₁) = get_user_quota user_id s in
      let (used, s₂) = get_used_space user_id s₁ in
      if int_eq quota minus_one || int_eq used minus_one
      then (false, s₂)
      else (not (ltb_ℤ (quota -ℤ used) file_size), s₂)

  unfoldable pub set_user_quota : ℤ → ℤ → Db (Unit {0})
  set_user_quota user_id quota_bytes = query (update_quota quota_bytes user_id) tt (λ _. tt)

  -- The results of BEGIN, COMMIT and ROLLBACK are not read.
  unfoldable pub update_used_space : ℤ → ℤ → Db Bool
  update_used_space user_id delta s =
      let (opened, s₁) = open_file s in
      let (_, s₂) = exec begin s₁ in
      let (prepared, s₃) = prepare (update_used delta user_id) s₂ in
      let (r, s₄) = step (update_used delta user_id) s₃ in
      if opened
      then if prepared
        then if is_done r then (true, (exec commit s₄).1) else (false, (exec rollback s₄).1)
        else (false, (exec rollback s₃).1)
      else (false, s₁)

  -- The end of `signup`: the row of the new user in `quotas`, if all goes well. The connection is
  -- the one that `signup` has open.
  unfoldable pub add_quota_row : Text → Db (Unit {0})
  add_quota_row username s =
      let (user_id, s₁) = get_user_id username s in
      let (prepared, s₂) = prepare (insert_quota user_id default_quota_bytes) s₁ in
      if int_eq user_id minus_one
      then (tt, s₁)
      else if prepared
      then (tt, (step (insert_quota user_id default_quota_bytes) s₂).1)
      else (tt, s₂)

  -- `signup` from the INSERT on
  unfoldable pub insert_account : Text → Text → Db Bool
  insert_account username password s =
      let (prepared, s₁) = prepare (insert_user username password) s in
      let (r, s₂) = step (insert_user username password) s₁ in
      if prepared
      then if is_done r then (true, (add_quota_row username s₂).1) else (false, s₂)
      else (false, s₁)

  unfoldable pub signup : Text → Text → Db Bool
  signup username password s =
      let (opened, s₁) = open_file s in
      let (prepared, s₂) = prepare (select_exists username) s₁ in
      let (r, s₃) = step (select_exists username) s₂ in
      if length username == 0 || ltb 256 (length username)
      then (false, s)
      else if opened
      then if prepared
        then if is_row r then (false, s₃) else insert_account username password s₃
        else (false, s₂)
      else (false, s₁)
