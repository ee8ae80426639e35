-- ===== src/Task/Locks.antt =====
-- Whatever fails, `execute_task` gives back the lock that it took, and leaves a complete answer.
use client_worker_thread_poo.Base.{
  ℕ, ◌+◌, ◌<◌, arith, length-take, ◌≡◌, refl, inl, inr, Bool, true, false, ◌||◌, Option, none, some,
  List, [], ◌∷◌, ◌++◌, Text, codes, length, take, str_eq, ltb, ◌==◌, Bool-cases, if◌then◌else◌,
  ◌>>=◌,
}
use client_worker_thread_poo.Base.Int.{pos}
use client_worker_thread_poo.FileLocks.Defs.{filepath_max}
use client_worker_thread_poo.Utility.Decimal.{decimal}
use client_worker_thread_poo.Task.Services.{Services, IsServices}
use client_worker_thread_poo.Task.Defs.{
  Cmd, upload, download, delete, list, unknown, Client, Task, reply, fail, user_dir, filepath,
  file_info, or_zero, list_loop, list_entries, list_locked, execute_list, run_cmd, execute_task,
}
use client_worker_thread_poo.Task.Finished.{
  fail-IsReply, reply-IsReply, Finished, execute_upload-Finished, execute_download-Finished,
  execute_delete-Finished,
}

-- A directory fits a slot of the lock table.
user_dir_short : (c : Client) → length (user_dir c) < filepath_max
unfolding user_dir
user_dir_short c =
    let whole = c.username ++ (decimal c.user_id ++ codes "/") in
    omega (arith, length-take 511 whole)

module _ (srv : Services) (law : IsServices srv) where
  open srv use {World}
  open law use {Held}

  -- `none` is an overrun of memory.
  abbrev pub Outcome : Cmd → Option (Task × World) → Type 0
  Outcome c none = c ≡ list
  Outcome c (some r) = Finished srv law r

  -- The loop of LIST keeps the lock.
  Listed : Option Text → Option (Text × ℕ × World) → Type 0
  Listed o none = Unit {0}
  Listed o (some (t, n, w)) = Held o w

  list_loop-Listed :
      (o : Option Text) (dir : Text) (names : List Text) (t : Text) (n : ℕ) (w : World)
      → Held o w
      → Listed o (list_loop srv dir names t n w)
  unfolding list_loop Listed
  list_loop-Listed o dir [] t n w h = h
  list_loop-Listed o dir (name ∷ names) t n w h =
      let path = take 1023 (dir ++ name) in
      let w₁ = (srv.stat path w).1 in
      let h₁ : Held o w₁ = law.stat_held path w h in
      let longer = t ++ file_info name (or_zero (srv.stat path w).0) in
      elim (Bool-cases (str_eq name (codes ".") || str_eq name (codes ".."))) [
        | inl skip ↦ rw skip (list_loop-Listed o dir names t n w h)
        | inr file ↦ elim (Bool-cases (ltb (length longer) 4096)) [
          | inl fits ↦ rw (file, fits) (list_loop-Listed o dir names longer (n + 1) w₁ h₁)
          | inr overrun ↦ rw (file, overrun) tt
        ]
      ]

  listed_Outcome :
      (dir : Text) (k : Task) (o : Option (Text × ℕ × World))
      → Listed (some dir) o
      → Outcome list (
          o >>= λ r.
          let (file_list, n, w₄) = r in
          some (
            reply (pos 0) (if n == 0 then codes "No files found" else file_list) k,
            srv.release_file_lock dir w₄,
          ))
  unfolding Listed
  listed_Outcome dir k none h = refl
  listed_Outcome dir k (some (t, n, w)) h = (law.released dir w h, reply-IsReply _ k)

  list_entries-Outcome :
      (dir : Text) (k : Task) (w w' : World) (o : Option (List Text))
      → Held (some dir) w
      → Held (some dir) w'
      → Outcome list (list_entries srv dir k w w' o)
  unfolding list_entries
  list_entries-Outcome dir k w w' none h h' =
      (law.released dir w h, fail-IsReply (codes "LIST FAILED: Cannot open directory") k)
  list_entries-Outcome dir k w w' (some names) h h' =
      listed_Outcome dir k (list_loop srv dir names (codes "FILES:" ++ 10 ∷ []) 0 w')
        (list_loop-Listed (some dir) dir names (codes "FILES:" ++ 10 ∷ []) 0 w' h')

  list_locked-Outcome :
      (dir : Text) (k : Task) (w : World)
      → Held (some dir) w
      → Outcome list (list_locked srv dir k w)
  unfolding list_locked
  list_locked-Outcome dir k w h =
      let i = pos k.gahak.user_id in
      let w₁ = (srv.list_dir dir w).1 in
      let w₂ = (srv.get_user_quota i w₁).1 in
      let w₃ = (srv.get_used_space i w₂).1 in
      let h₁ : Held (some dir) w₁ = law.list_dir_held dir w h in
      let h₃ : Held (some dir) w₃ =
        law.get_used_space_held i w₂ (law.get_user_quota_held i w₁ h₁) in
      list_entries-Outcome dir k w₁ w₃ (srv.list_dir dir w).0 h₁ h₃

  after_acquire :
      (dir : Text) (k : Task) (w : World) (got : Bool)
      → Held (if got then some dir else none) w
      → Outcome list (
          if got
          then list_locked srv dir k w
          else some (fail (codes "LIST FAILED: Could not acquire lock") k, w))
  after_acquire dir k w true h = list_locked-Outcome dir k w h
  after_acquire dir k w false h = (h, fail-IsReply (codes "LIST FAILED: Could not acquire lock") k)

  pub execute_list-Outcome :
      (k : Task) (w : World) → Held none w → Outcome list (execute_list srv k w)
  unfolding execute_list
  execute_list-Outcome k w h =
      let dir = user_dir k.gahak in
      let w₁ = (srv.acquire_file_lock dir w).1 in
      after_acquire dir k w₁ (srv.acquire_file_lock dir w).0
        (law.acquired dir w (user_dir_short k.gahak) h)

  run_cmd-Outcome :
      (c : Cmd) (k : Task) (w : World)
      → length (filepath k) < filepath_max
      → Held none w
      → Outcome c (run_cmd srv c k w)
  unfolding run_cmd
  run_cmd-Outcome upload k w short h = execute_upload-Finished srv law k w short h
  run_cmd-Outcome download k w short h = execute_download-Finished srv law k w short h
  run_cmd-Outcome delete k w short h = execute_delete-Finished srv law k w short h
  run_cmd-Outcome list k w short h = execute_list-Outcome k w h
  run_cmd-Outcome unknown k w short h = (h, fail-IsReply (codes "UNKNOWN COMMAND") k)

  -- A worker that holds no lock and runs a task, the path of whose file has less than 512 bytes,
  -- holds no lock afterwards, whatever the command and whichever calls fail; the status is then 0 or
  -- -1, and the length sent is that of the response. An overrun of memory instead of a result is
  -- possible only for a LIST.
  pub execute_task-Outcome :
      (k : Task) (w : World)
      → length (filepath k) < filepath_max
      → Held none w
      → Outcome k.cmd (execute_task srv k w)
  unfolding execute_task
  execute_task-Outcome k w short h = run_cmd-Outcome k.cmd k w short h
