-- ===== src/Session/Serve/Runs.antt =====
-- Runs of a connection, by evaluation: a client that signs up, asks for something else and
-- leaves, where every `recv` gets all that it asks for, and where it gets single bytes.
use client_worker_thread_poo.Base.{
  str_eq, ◌≡◌, refl, true, false, some, [], ◌∷◌, ◌++◌, Text, codes, replicate,
}
use client_worker_thread_poo.Utility.Words.{strchr, first_word, three_words}
use client_worker_thread_poo.Utility.Decimal.{decimal, decimal_loop, count_digits}
use client_worker_thread_poo.Utility.Transfer.{Socket, recv_loop, recv_all, send_loop, send_all}
use client_worker_thread_poo.Utility.Drip.{drip, drip_recv, drip_send}
use client_worker_thread_poo.Task.Disk.{Disk, set_file, empty_disk}
use client_worker_thread_poo.Storage.Defs.{
  signup, insert_account, add_quota_row, get_user_id, query, int32,
}
use client_worker_thread_poo.Task.Defs.{
  execute_upload, upload_locked, upload_write, execute_download, download_locked, filepath,
  user_dir, execute_task, run_cmd,
}
use client_worker_thread_poo.Session.Defs.{
  c_string, folder_name, signup_cmd, signup_login, little_endian, after_length, upload_cmd,
  handle_cmd,
}
use client_worker_thread_poo.Session.Wire.{bytes, send_message, send_response}
use client_worker_thread_poo.Utility.Whole.{whole}
use client_worker_thread_poo.Session.Serve.Machine.{host_on, nobody, line_frame, message, sign_up}
use client_worker_thread_poo.Session.Serve.Defs.{
  Turn, ended, again, overrun, unfinished, auth_resp, terminated, read_line, respond, turn,
  serve_loop, sign_in, serve,
}

abbrev written : (net : Socket) → (net.State → Text) → Turn (host_on net) → Text
written net f (ended c) = f c.conn
written net f (again c) = []
written net f overrun = []
written net f unfinished = []

-- All that the server sends to a client that sends `b` and leaves.
abbrev answers : Text → Disk → Text
answers b d =
    written whole (λ s. s.1)
      (serve (host_on whole) 4 nobody (record { size = replicate 4 0; conn = (b, []); world = d }))

abbrev hello : Text
hello = answers (sign_up ++ line_frame (codes "HELLO")) empty_disk

abbrev upload_it : Text
upload_it =
    answers
      (sign_up
        ++ (line_frame (codes "UPLOAD a")
            ++ (message (codes "xyz") ++ line_frame (codes "DOWNLOAD a"))))
      empty_disk

abbrev empty_file_disk : Disk
empty_file_disk = set_file (codes "ann0/a") (some []) empty_disk

abbrev download_it : Text
download_it = answers (sign_up ++ line_frame (codes "DOWNLOAD a")) empty_file_disk

abbrev dripped : Text
dripped =
    written drip (λ s. s.1)
      (serve (host_on drip) 4 nobody
        (record { size = replicate 4 0; conn = (sign_up, []); world = empty_disk }))

said_hello : hello ≡ message (auth_resp true) ++ message (codes "INVALID COMMAND" ++ 0 ∷ [])
unfolding serve serve_loop turn read_line terminated sign_in signup_login signup_cmd folder_name
    count_digits signup insert_account add_quota_row get_user_id query int32 str_eq three_words
    first_word strchr send_message bytes send_all send_loop handle_cmd little_endian
said_hello = refl

uploaded_and_read :
    upload_it
    ≡ message (auth_resp true)
      ++ (message (codes "UPLOAD SUCCESS" ++ 0 ∷ []) ++ message (codes "xyz"))
unfolding serve serve_loop turn read_line terminated sign_in signup_login signup_cmd folder_name
    count_digits signup insert_account add_quota_row get_user_id query int32 str_eq three_words
    first_word strchr send_message bytes send_all send_loop handle_cmd little_endian upload_cmd
    after_length execute_upload upload_locked upload_write execute_download download_locked filepath
    user_dir decimal decimal_loop c_string respond send_response recv_all recv_loop execute_task
    run_cmd
uploaded_and_read = refl

-- The client waits for the answer to its DOWNLOAD of an empty file.
no_answer : download_it ≡ message (auth_resp true)
unfolding serve serve_loop turn read_line terminated sign_in signup_login signup_cmd folder_name
    count_digits signup insert_account add_quota_row get_user_id query int32 str_eq three_words
    first_word strchr send_message bytes send_all send_loop handle_cmd little_endian
    execute_download download_locked filepath user_dir decimal decimal_loop c_string respond
    execute_task run_cmd
no_answer = refl

-- The same sign-up as in `said_hello`, one byte at a time.
refused_in_pieces : dripped ≡ message (auth_resp false)
unfolding serve serve_loop turn read_line terminated sign_in signup_login signup_cmd folder_name
    count_digits signup insert_account add_quota_row get_user_id query int32 str_eq three_words
    first_word strchr send_message bytes send_all send_loop handle_cmd little_endian drip_recv
    drip_send
refused_in_pieces = refl
