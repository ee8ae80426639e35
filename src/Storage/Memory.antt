-- ===== src/Storage/Memory.antt =====
-- A database in memory: an instance of the interface to SQLite that keeps its laws.
use client_worker_thread_poo.Base.{
  suc, ◌<◌, ◌≡◌, refl, ap, ◌⊎◌, inl, inr, Bool, true, false, Option, none, some, List, [], ◌∷◌,
  arith, Text, length, str_eq, some_inj, if◌then◌else◌,
}
use client_worker_thread_poo.Base.Int.{ℤ, pos}
use client_worker_thread_poo.Storage.Sqlite.{
  Statement, select_exists, insert_user, insert_quota, select_password, select_id, select_quota,
  select_used, update_used, update_quota, Command, begin, commit, rollback, Column, int, text,
  StepResult, row, done, error, Sqlite, IsSqlite, Tables, Account, Quota, Means, update_row_if,
  add_used, int_eq,
}

-- The users, youngest first: an id is the number of older users. And the quotas.
pub record Content : Type 0 where
  pub names : List (Text × Text)
  pub quotas : ℤ → Option Quota

pub record File : Type 0 where
  pub now : Content
  pub at_begin : Option Content

abbrev pub find : Text → List (Text × Text) → Option Account
find n [] = none
find n ((m, p) ∷ r) = if str_eq m n then some (record { id = length r; password = p }) else find n r

abbrev pub tables_of : Content → Tables
tables_of c = record { users = λ n. find n c.names; quotas = c.quotas }

abbrev pub read : {A : Type 0} → Option A → (A → Column) → StepResult
read none f = done
read (some a) f = row (f a)

abbrev pub put : ℤ → Quota → Content → Content
put i q c = record c { quotas = λ j. if int_eq i j then some q else c.quotas j }

abbrev pub insert_name : Option Account → Text → Text → Content → StepResult × Content
insert_name none n p c = (done, record c { names = (n, p) ∷ c.names })
insert_name (some a) n p c = (error, c)

abbrev pub insert_row : Option Quota → ℤ → ℤ → Content → StepResult × Content
insert_row none i b c = (done, put i (record { quota_bytes = b; used_bytes = pos 0 }) c)
insert_row (some q) i b c = (error, c)

abbrev pub change : Option Quota → ℤ → (Quota → Quota) → Content → Content
change none i f c = c
change (some q) i f c = put i (f q) c

abbrev pub run : Statement → Content → StepResult × Content
run (select_exists n) c = (read (find n c.names) (λ _. int (pos 1)), c)
run (select_password n) c = (read (find n c.names) (λ a. text a.password), c)
run (select_id n) c = (read (find n c.names) (λ a. int (pos a.id)), c)
run (select_quota i) c = (read (c.quotas i) (λ q. int q.quota_bytes), c)
run (select_used i) c = (read (c.quotas i) (λ q. int q.used_bytes), c)
run (insert_user n p) c = insert_name (find n c.names) n p c
run (insert_quota i b) c = insert_row (c.quotas i) i b c
run (update_used d i) c = (done, change (c.quotas i) i (add_used d) c)
run (update_quota b i) c = (done, change (c.quotas i) i (λ q. record q { quota_bytes = b }) c)

older :
    (n m p : Text) (r : List (Text × Text)) (a : Account) (b : Bool)
    → (find n r ≡ some a → a.id < length r)
    → (if b then some (record { id = length r; password = p }) else find n r) ≡ some a
    → a.id < suc (length r)
older n m p r a true ih h =
    let own : length r ≡ a.id = ap (λ (x : Account). x.id) (some_inj h) in omega arith
older n m p r a false ih h = let below = ih h in omega arith

find_older : (n : Text) (l : List (Text × Text)) (a : Account) → find n l ≡ some a → a.id < length l
find_older n [] a h = cc
find_older n ((m, p) ∷ r) a h = older n m p r a (str_eq m n) (find_older n r a) h

exists_Means :
    (n : Text) (c : Content) (o : Option Account)
    → find n c.names ≡ o
    → Means (select_exists n) (tables_of c) (read o (λ _. int (pos 1))) (tables_of c)
exists_Means n c none e = (refl, e)
exists_Means n c (some a) e = (refl, λ h. cc)

password-Means :
    (n : Text) (c : Content) (o : Option Account)
    → find n c.names ≡ o
    → Means (select_password n) (tables_of c) (read o (λ a. text a.password)) (tables_of c)
password-Means n c none e = (refl, e)
password-Means n c (some a) e = (refl, (a, e, refl))

id-Means :
    (n : Text) (c : Content) (o : Option Account)
    → find n c.names ≡ o
    → Means (select_id n) (tables_of c) (read o (λ a. int (pos a.id))) (tables_of c)
id-Means n c none e = (refl, e)
id-Means n c (some a) e = (refl, (a, e, refl))

quota-Means :
    (i : ℤ) (c : Content) (o : Option Quota)
    → c.quotas i ≡ o
    → Means (select_quota i) (tables_of c) (read o (λ q. int q.quota_bytes)) (tables_of c)
quota-Means i c none e = (refl, e)
quota-Means i c (some q) e = (refl, (q, e, refl))

used-Means :
    (i : ℤ) (c : Content) (o : Option Quota)
    → c.quotas i ≡ o
    → Means (select_used i) (tables_of c) (read o (λ q. int q.used_bytes)) (tables_of c)
used-Means i c none e = (refl, e)
used-Means i c (some q) e = (refl, (q, e, refl))

name-Means :
    (n p : Text) (c : Content) (o : Option Account)
    → find n c.names ≡ o
    → Means
        (insert_user n p)
        (tables_of c)
        (insert_name o n p c).0
        (tables_of (insert_name o n p c).1)
name-Means n p c none e = (
  e,
  (length c.names, λ m a h k. let below = find_older m c.names a h in absurd (omega arith), refl),
)
name-Means n p c (some a) e = refl

row-Means :
    (i b : ℤ) (c : Content) (o : Option Quota)
    → c.quotas i ≡ o
    → Means
        (insert_quota i b)
        (tables_of c)
        (insert_row o i b c).0
        (tables_of (insert_row o i b c).1)
row-Means i b c none e = (e, refl)
row-Means i b c (some q) e = refl

change-Means :
    (i : ℤ) (f : Quota → Quota) (c : Content) (o : Option Quota)
    → tables_of (change o i f c) ≡ update_row_if o i f (tables_of c)
change-Means i f c none = refl
change-Means i f c (some q) = refl

run-Means :
    (st : Statement) (c : Content) → Means st (tables_of c) (run st c).0 (tables_of (run st c).1)
run-Means (select_exists n) c = exists_Means n c (find n c.names) refl
run-Means (select_password n) c = password-Means n c (find n c.names) refl
run-Means (select_id n) c = id-Means n c (find n c.names) refl
run-Means (select_quota i) c = quota-Means i c (c.quotas i) refl
run-Means (select_used i) c = used-Means i c (c.quotas i) refl
run-Means (insert_user n p) c = name-Means n p c (find n c.names) refl
run-Means (insert_quota i b) c = row-Means i b c (c.quotas i) refl
run-Means (update_used d i) c = λ _. change-Means i (add_used d) c (c.quotas i)
run-Means (update_quota b i) c = change-Means i (λ q. record q { quota_bytes = b }) c (c.quotas i)

abbrev pub content_saved : File → Content
content_saved f = elim f.at_begin [ none ↦ f.now | some c ↦ c ]

abbrev pub command : Command → File → Bool × File
command begin f = (true, record f { at_begin = some (content_saved f) })
command commit f = (true, record f { at_begin = none })
command rollback f = (true, record { now = content_saved f; at_begin = none })

abbrev pub memory : Sqlite
memory = record {
  State = File;
  open_file = λ f. (true, record f { at_begin = none });
  prepare = λ st f. (true, f);
  step = λ st f. ((run st f.now).0, record f { now = (run st f.now).1 });
  exec = command;
}

step_lem :
    (o : Option Content) (c c' : Content)
    → (tables_of (content_saved (record { now = c'; at_begin = o }))
        ≡ tables_of (content_saved (record { now = c; at_begin = o })))
      ⊎ (tables_of (content_saved (record { now = c'; at_begin = o })) ≡ tables_of c')
step_lem none c c' = inr refl
step_lem (some b) c c' = inl refl

pub memory-IsSqlite : IsSqlite memory
memory-IsSqlite = record {
  tables = λ f. tables_of f.now;
  open_same = λ f. refl;
  prepare_same = λ st f. refl;
  step_means = λ st f. run-Means st f.now;
  commit_same = λ f e. refl;
  saved = λ f. tables_of (content_saved f);
  open_saved = λ f. refl;
  begin_same = λ f. refl;
  begin_saved = λ f. refl;
  prepare_saved = λ st f. refl;
  step_saved = λ st f. step_lem f.at_begin f.now (run st f.now).1;
  commit_saved = λ f e. cc;
  rollback_saved = λ f. refl;
}

pub memory-tables : (f : File) → memory-IsSqlite.tables f ≡ tables_of f.now
unfolding memory-IsSqlite
memory-tables f = refl
