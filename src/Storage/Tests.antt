-- ===== src/Storage/Tests.antt =====
-- The functions of storage.c on a database in memory, and the theorems at work there.
use client_worker_thread_poo.Base.{
  ◌≡◌, ◌≢◌, refl, ◌⊎◌, true, Option, none, some, [], Text, codes, str_eq, arith,
}
use client_worker_thread_poo.Base.Int.{ℤ, pos, ◌+ℤ◌, ◌-ℤ◌, ◌≤ℤ◌}
use client_worker_thread_poo.Storage.Sqlite.{
  select_password, select_quota, select_used, Column, text, error,
}
use client_worker_thread_poo.Storage.Defs.{
  query, login, signup, get_user_id, add_quota_row, insert_account, check_quota, get_user_quota,
  get_used_space, update_used_space, int32, default_quota_bytes,
}
use client_worker_thread_poo.Storage.Accounts.{SignedUp, signup-SignedUp}
use client_worker_thread_poo.Storage.SignIn.{Works, login-signup}
use client_worker_thread_poo.Storage.Quotas.{
  quota_in, used_in, Fails, check_quota-fits, UsedSpace, update_used_space-UsedSpace,
}
use client_worker_thread_poo.Storage.Race.{row_of, quota_race}
use client_worker_thread_poo.Storage.Memory.{File, memory, memory-IsSqlite, find, read}

abbrev empty_file : File
empty_file = record { now = record { names = []; quotas = λ _. none }; at_begin = none }

abbrev ann : Text
ann = codes "ann"

abbrev one_user : File
one_user = (signup memory ann (codes "pw") empty_file).1

signup-SignedUp_example :
    SignedUp memory memory-IsSqlite ann
      (codes "pw")
      empty_file
      (signup memory ann (codes "pw") empty_file)
signup-SignedUp_example = signup-SignedUp memory memory-IsSqlite ann (codes "pw") empty_file

accepted : (signup memory ann (codes "pw") empty_file).0 ≡ true
unfolding signup insert_account
accepted = refl

read_ne : {A : Type 0} (o : Option A) (f : A → Column) → read o f ≢ error
read_ne none f h = cc
read_ne (some a) f h = cc

let_in : (login memory ann (codes "pw") one_user).0 ≡ true
unfolding login query signup insert_account add_quota_row get_user_id int32 str_eq
let_in = refl

half_a_kilobyte : (check_quota memory (pos 0) (pos 500) one_user).0 ≡ true
unfolding check_quota get_user_quota get_used_space query signup insert_account add_quota_row
    get_user_id int32 ◌-ℤ◌ str_eq
half_a_kilobyte = refl

used_after :
    ((update_used_space memory (pos 0) (pos 500) one_user).1.now.quotas (pos 0))
    ≡ some (record { quota_bytes = default_quota_bytes; used_bytes = pos 500 })
unfolding update_used_space query signup insert_account add_quota_row get_user_id int32 ◌+ℤ◌ str_eq
used_after = refl

password-Works : Works memory memory-IsSqlite (select_password ann)
password-Works = record {
  opens = λ f. refl;
  prepares = λ f. refl;
  steps = λ f. read_ne (find ann f.now.names) (λ a. text a.password);
}

login-signup_example :
    (login memory ann (codes "PW") (signup memory ann (codes "pw") empty_file).1).0
    ≡ str_eq (codes "pw") (codes "PW")
login-signup_example =
    login-signup memory memory-IsSqlite ann (codes "pw") (codes "PW") empty_file password-Works
      accepted

check_quota-fits_example :
    (memory-IsSqlite.tables (check_quota memory (pos 0) (pos 500) one_user).1
      ≡ memory-IsSqlite.tables one_user)
    × ((quota used : ℤ) × ((quota ≡ quota_in ((memory-IsSqlite.tables one_user).quotas (pos 0)))
          ⊎ ((quota ≡ default_quota_bytes)
              × Fails memory memory-IsSqlite (select_quota (pos 0)) one_user))
        × ((used ≡ used_in ((memory-IsSqlite.tables one_user).quotas (pos 0)))
            ⊎ ((used ≡ pos 0)
                × Fails memory memory-IsSqlite
                    (select_used (pos 0))
                    (get_user_quota memory (pos 0) one_user).1))
        × (pos 500 ≤ℤ quota -ℤ used))
check_quota-fits_example =
    check_quota-fits memory memory-IsSqlite (pos 0) (pos 500) one_user half_a_kilobyte

update_used_space-UsedSpace_example :
    UsedSpace memory memory-IsSqlite
      (pos 0)
      (pos 500)
      one_user
      (update_used_space memory (pos 0) (pos 500) one_user)
update_used_space-UsedSpace_example =
    update_used_space-UsedSpace memory memory-IsSqlite (pos 0) (pos 500) one_user

-- A user with 10 bytes.
abbrev ten_bytes : File
ten_bytes = record {
  now = record { names = []; quotas = λ j. some (row_of 10 0) };
  at_begin = none;
}

quota_race_example :
    (f₁ f₂ f₃ f₄ : File) × (check_quota memory (pos 0) (pos 6) ten_bytes ≡ (true, f₁))
    × (check_quota memory (pos 0) (pos 7) f₁ ≡ (true, f₂))
    × ((update_used_space memory (pos 0) (pos 6) f₂).1 ≡ f₃)
    × ((update_used_space memory (pos 0) (pos 7) f₃).1 ≡ f₄)
    × (f₄.now.quotas (pos 0) ≡ some (row_of 10 13))
quota_race_example = quota_race 0 10 0 6 7 ten_bytes refl (omega arith) (omega arith)
