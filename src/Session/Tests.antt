-- ===== src/Session/Tests.antt =====
-- Lines of commands at work, on a database in memory and a connection that moves single bytes.
use client_worker_thread_poo.Base.{
  ◌+◌, ◌*◌, ◌≡◌, refl, Bool, true, false, none, some, List, [], ◌∷◌, ◌++◌, arith, Text, codes,
  length, drop, replicate, str_eq,
}
use client_worker_thread_poo.Base.Int.{pos, negsuc}
use client_worker_thread_poo.Utility.Words.{first_word, three_words, strchr}
use client_worker_thread_poo.Utility.Decimal.{decimal}
use client_worker_thread_poo.Utility.Transfer.{got}
use client_worker_thread_poo.Utility.Drip.{drip, drip-IsStream, counted_log10, drip_recv}
use client_worker_thread_poo.Storage.Defs.{
  query, signup, login, get_user_id, add_quota_row, insert_account, int32,
}
use client_worker_thread_poo.Storage.Memory.{memory, memory-IsSqlite}
use client_worker_thread_poo.Task.Defs.{user_dir}
use client_worker_thread_poo.Session.Defs.{
  Gahak, c_string, Folders, World, signup_cmd, login_cmd, signup_login, little_endian, handle_cmd,
}
use client_worker_thread_poo.Session.Auth.{HasAccount, signup_login-HasAccount}
use client_worker_thread_poo.Session.Commands.{Framed, handle_cmd-Framed}
use client_worker_thread_poo.Session.Buffer.{login_cmd-username}
use client_worker_thread_poo.Session.Folders.{user_dir_shared}

-- the names of the folders made
abbrev folders : Folders
folders = record { State = List Text; mkdir = λ n d. (true, n ∷ d) }

abbrev nobody : Gahak
nobody = record { user_id = pos 0; username = replicate 256 0 }

abbrev empty_world : World memory folders counted_log10
empty_world = (record { now = record { names = []; quotas = λ _. none }; at_begin = none }, [])

abbrev sign_up : Text
sign_up = codes "SIGNUP ann pw"

abbrev after : (Bool × Gahak) × World memory folders counted_log10
after = signup_cmd memory folders counted_log10 (codes "ann") (codes "pw") nobody empty_world

signed_up : signup_login memory folders counted_log10 sign_up nobody empty_world ≡ some after
unfolding signup_login three_words first_word strchr str_eq
signed_up = refl

let_in : after.0.0 ≡ true
unfolding signup_cmd signup insert_account add_quota_row get_user_id query int32 str_eq
let_in = refl

signup_login-HasAccount_example :
    HasAccount memory memory-IsSqlite folders counted_log10
      (three_words sign_up).1
      (three_words sign_up).2
      (memory-IsSqlite.tables after.1.0)
signup_login-HasAccount_example =
    signup_login-HasAccount memory memory-IsSqlite folders counted_log10 sign_up nobody empty_world
      after signed_up let_in

abbrev three_bytes : Text
three_bytes = 3 ∷ codes "abc"

handle_cmd-Framed_example :
    Framed drip
      (λ n. true)
      drip-IsStream
      (three_bytes, [])
      (handle_cmd drip (λ n. true) (codes "UPLOAD notes") (three_bytes, []))
handle_cmd-Framed_example =
    handle_cmd-Framed drip (λ n. true) drip-IsStream (codes "UPLOAD notes") (three_bytes, [])

upload_word : (first_word (codes "UPLOAD notes")).0 ≡ codes "UPLOAD"
unfolding first_word strchr
upload_word = refl

zero_byte : drip.recv 8 (0 ∷ [], []) ≡ (got (0 ∷ []), ([], []))
unfolding drip_recv
zero_byte = refl

zero_length : little_endian (0 ∷ []) ≡ 0
unfolding little_endian
zero_length = refl

user_dir_shared_example :
    user_dir (record { user_id = 2; username = codes "a" ++ decimal 1 })
    ≡ user_dir (record { user_id = 10 * 1 + 2; username = codes "a" })
user_dir_shared_example = user_dir_shared (codes "a") 1 2 (omega arith) (omega arith)

-- A buffer with what another client left there.
abbrev used_buffer : Gahak
used_buffer = record { user_id = pos 0; username = codes "alice" ++ replicate 251 0 }

abbrev after_login : (Bool × Gahak) × World memory folders counted_log10
after_login = (
  (false, record { user_id = negsuc 0; username = codes "bobce" ++ replicate 251 0 }),
  empty_world,
)

logged_in :
    login_cmd memory folders counted_log10 (codes "bob") (codes "pw") used_buffer empty_world
    ≡ some after_login
unfolding login_cmd login get_user_id query
logged_in = refl

login_cmd-username_example :
    c_string after_login.0.1.username
    ≡ codes "bob" ++ c_string (drop (length (codes "bob")) used_buffer.username)
login_cmd-username_example =
    login_cmd-username memory folders counted_log10 (codes "bob") (codes "pw") used_buffer
      empty_world after_login (omega arith) logged_in
