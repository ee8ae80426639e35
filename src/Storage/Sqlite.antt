-- ===== src/Storage/Sqlite.antt =====
-- What storage.c uses of SQLite: opening the file, preparing and stepping the statements that it
-- writes, and its transaction commands. Any call may fail.
use client_worker_thread_poo.Base.{
  ℕ, ◌^◌, ◌≤◌, ◌<◌, ◌≡◌, ◌≢◌, ◌⊎◌, Bool, true, false, Option, none, some, Text, str_eq,
  if◌then◌else◌, ◌==◌,
}
use client_worker_thread_poo.Base.Int.{ℤ, pos, negsuc, pos_part, neg_part, ◌+ℤ◌}

-- The statements of storage.c with their parameters bound.
pub data Statement : Type 0 where
  select_exists : (username : Text) → Statement
  insert_user : (username password : Text) → Statement
  insert_quota : (user_id quota_bytes : ℤ) → Statement
  select_password : (username : Text) → Statement
  select_id : (username : Text) → Statement
  select_quota : (user_id : ℤ) → Statement
  select_used : (user_id : ℤ) → Statement
  update_used : (delta user_id : ℤ) → Statement
  update_quota : (quota_bytes user_id : ℤ) → Statement

pub data Command : Type 0 where
  begin commit rollback : Command

-- A column, and what one `sqlite3_step` returns: SQLITE_ROW with its first column, SQLITE_DONE, or
-- another code.
pub data Column : Type 0 where
  int : ℤ → Column
  text : Text → Column

pub data StepResult : Type 0 where
  row : Column → StepResult
  done : StepResult
  error : StepResult

pub record Sqlite : Type 1 where
  pub State : Type 0
  pub open_file : State → Bool × State
  pub prepare : Statement → State → Bool × State
  pub step : Statement → State → StepResult × State
  pub exec : Command → State → Bool × State

pub record Account : Type 0 where
  pub id : ℕ
  pub password : Text

pub record Quota : Type 0 where
  pub quota_bytes : ℤ
  pub used_bytes : ℤ

-- The tables `users` and `quotas`, which their keys make functions.
pub record Tables : Type 0 where
  pub users : Text → Option Account
  pub quotas : ℤ → Option Quota

abbrev pub int_eq : ℤ → ℤ → Bool
int_eq (pos a) (pos b) = a == b
int_eq (negsuc a) (negsuc b) = a == b
int_eq _ _ = false

abbrev pub add_user : Text → Account → Tables → Tables
add_user n a t = record t { users = λ m. if str_eq n m then some a else t.users m }

abbrev pub set_row : ℤ → Quota → Tables → Tables
set_row i q t = record t { quotas = λ j. if int_eq i j then some q else t.quotas j }

-- SQLite keeps 64-bit integers.
abbrev pub IsInt64 : ℤ → Type 0
IsInt64 z = (pos_part z < 2 ^ 63) × (neg_part z ≤ 2 ^ 63)

-- `UPDATE … WHERE user_id = ?` changes the row with that id, if there is one.
abbrev pub update_row_if : Option Quota → ℤ → (Quota → Quota) → Tables → Tables
update_row_if none i f t = t
update_row_if (some q) i f t = set_row i (f q) t

abbrev pub update_row : ℤ → (Quota → Quota) → Tables → Tables
update_row i f t = update_row_if (t.quotas i) i f t

abbrev pub add_used : ℤ → Quota → Quota
add_used d q = record q { used_bytes = q.used_bytes +ℤ d }

-- What a step of a statement tells of the tables `t`, and makes of them.
abbrev pub Means : Statement → Tables → StepResult → Tables → Type 0
Means st t error t' = t' ≡ t
Means (select_exists n) t (row c) t' = (t' ≡ t) × (t.users n ≢ none)
Means (select_exists n) t done t' = (t' ≡ t) × (t.users n ≡ none)
Means (select_password n) t (row c) t' =
    (t' ≡ t) × ((a : Account) × (t.users n ≡ some a) × (c ≡ text a.password))
Means (select_password n) t done t' = (t' ≡ t) × (t.users n ≡ none)
Means (select_id n) t (row c) t' =
    (t' ≡ t) × ((a : Account) × (t.users n ≡ some a) × (c ≡ int (pos a.id)))
Means (select_id n) t done t' = (t' ≡ t) × (t.users n ≡ none)
Means (select_quota i) t (row c) t' =
    (t' ≡ t) × ((q : Quota) × (t.quotas i ≡ some q) × (c ≡ int q.quota_bytes))
Means (select_quota i) t done t' = (t' ≡ t) × (t.quotas i ≡ none)
Means (select_used i) t (row c) t' =
    (t' ≡ t) × ((q : Quota) × (t.quotas i ≡ some q) × (c ≡ int q.used_bytes))
Means (select_used i) t done t' = (t' ≡ t) × (t.quotas i ≡ none)
Means (insert_user n p) t done t' =
    (t.users n ≡ none)
    × ((id : ℕ) × ((m : Text) (a : Account) → t.users m ≡ some a → a.id ≢ id)
        × (t' ≡ add_user n (record { id = id; password = p }) t))
Means (insert_quota i b) t done t' =
    (t.quotas i ≡ none) × (t' ≡ set_row i (record { quota_bytes = b; used_bytes = pos 0 }) t)
Means (update_used d i) t done t' =
    ((q : Quota) → t.quotas i ≡ some q → IsInt64 (q.used_bytes +ℤ d))
    → t' ≡ update_row i (add_used d) t
Means (update_quota b i) t done t' = t' ≡ update_row i (λ q. record q { quota_bytes = b }) t
Means _ t (row c) t' = ⊥

-- What SQLite documents of these calls, where nobody else writes in between.
pub record IsSqlite (db : Sqlite) : Type 0 where
  pub tables : db.State → Tables
  pub open_same : (s : db.State) → tables (db.open_file s).1 ≡ tables s
  pub prepare_same : (st : Statement) (s : db.State) → tables (db.prepare st s).1 ≡ tables s
  pub step_means :
      (st : Statement) (s : db.State)
      → Means st (tables s) (db.step st s).0 (tables (db.step st s).1)
  -- A COMMIT that succeeds keeps what the connection has written. One that fails leaves the
  -- transaction open, and the close that follows rolls it back.
  pub commit_same :
      (s : db.State) → (db.exec commit s).0 ≡ true → tables (db.exec commit s).1 ≡ tables s
  -- What a ROLLBACK restores: the tables where the transaction began, and outside of a transaction
  -- those of the moment.
  pub saved : db.State → Tables
  pub open_saved : (s : db.State) → saved (db.open_file s).1 ≡ tables s
  pub begin_same : (s : db.State) → tables (db.exec begin s).1 ≡ tables s
  pub begin_saved : (s : db.State) → saved (db.exec begin s).1 ≡ saved s
  pub prepare_saved : (st : Statement) (s : db.State) → saved (db.prepare st s).1 ≡ saved s
  pub step_saved :
      (st : Statement) (s : db.State)
      → (saved (db.step st s).1 ≡ saved s) ⊎ (saved (db.step st s).1 ≡ tables (db.step st s).1)
  pub commit_saved :
      (s : db.State) → (db.exec commit s).0 ≡ false → tables (db.exec commit s).1 ≡ saved s
  pub rollback_saved : (s : db.State) → tables (db.exec rollback s).1 ≡ saved s
