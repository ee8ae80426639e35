-- ===== src/Task/Listing.antt =====
-- LIST collects its answer in a buffer of 4096 bytes by `strcat`, with no test of its length.
use client_worker_thread_poo.Base.{
  ℕ, ◌+◌, ◌*◌, ◌≤◌, ◌<◌, ◌/◌, ◌%◌, ◌≡◌, refl, true, ◌||◌, none, some, List, [], ◌∷◌, ◌++◌, arith,
  Text, codes, length, take, length-append, length-take, str_eq, ltb, Bool-cases, inl, inr,
  if◌then◌else◌,
}
use client_worker_thread_poo.Base.Int.{pos}
use client_worker_thread_poo.Utility.Decimal.{decimal, decimal_loop}
use client_worker_thread_poo.Task.Services.{Services}
use client_worker_thread_poo.Task.Defs.{
  list, Task, file_info, or_zero, user_dir, list_loop, list_entries, list_locked, execute_list,
  run_cmd, execute_task,
}

decimal_some : (n : ℕ) → 1 ≤ length (decimal n)
unfolding decimal decimal_loop
decimal_some n = elim (Bool-cases (ltb n 10)) [
  | inl small ↦ rw small (omega arith)
  | inr big ↦
      rw big (omega (arith, length-append {0} (decimal_loop n (n / 10)) ((48 + n % 10) ∷ [])))
]

file_info-length : (name : Text) (n : ℕ) → 11 ≤ length (file_info name n)
file_info-length name n =
    let size : Text = decimal n ++ codes " bytes)" in
    let line : Text = name ++ (codes " (" ++ size) ++ 10 ∷ [] in
    omega (
      arith,
      decimal_some n,
      length-append {0} (decimal n) (codes " bytes)"),
      length-append {0} (codes " (") size,
      length-append {0} (codes " (" ++ size) (10 ∷ []),
      length-append {0} (name ++ (codes " (" ++ size)) (10 ∷ []),
      length-append {0} name (codes " (" ++ size),
      length-append {0} name (codes " (" ++ size ++ 10 ∷ []),
      length-take 255 line,
    )

-- How many of the names that `readdir` gives are files: not the directory itself or its parent.
abbrev pub count_files : List Text → ℕ
count_files [] = 0
count_files (name ∷ names) =
    (if str_eq name (codes ".") || str_eq name (codes "..") then 0 else 1) + count_files names

module _ (srv : Services) where
  open srv use {World}

  list_loop_overruns :
      (dir : Text) (names : List Text) (t : Text) (n : ℕ) (w : World)
      → length t < 4096
      → 4096 ≤ length t + 11 * count_files names
      → list_loop srv dir names t n w ≡ none
  unfolding list_loop
  list_loop_overruns dir [] t n w fits long = absurd (omega arith)
  list_loop_overruns dir (name ∷ names) t n w fits long =
      let path = take 1023 (dir ++ name) in
      let w₁ = (srv.stat path w).1 in
      let info = file_info name (or_zero (srv.stat path w).0) in
      let grown : length (t ++ info) ≡ length t + length info = length-append t info in
      let more : 11 ≤ length info = file_info-length name (or_zero (srv.stat path w).0) in
      elim (Bool-cases (str_eq name (codes ".") || str_eq name (codes ".."))) [
        | inl skip ↦ rw skip (list_loop_overruns dir names t n w fits (ground arith))
        | inr file ↦ elim (Bool-cases (ltb (length (t ++ info)) 4096)) [
          | inl room ↦
              rw (file, room)
                (list_loop_overruns dir names (t ++ info) (n + 1) w₁ (ground arith) (ground arith))
          | inr overrun ↦ rw (file, overrun) refl
        ]
      ]

  -- LIST of a directory with 372 or more files always overruns its buffer, once it has the lock and
  -- the directory opens.
  pub execute_task-overrun :
      (k : Task) (w : World) (names : List Text)
      → k.cmd ≡ list
      → (srv.acquire_file_lock (user_dir k.gahak) w).0 ≡ true
      → (srv.list_dir (user_dir k.gahak) (srv.acquire_file_lock (user_dir k.gahak) w).1).0
        ≡ some names
      → 372 ≤ count_files names
      → execute_task srv k w ≡ none
  unfolding execute_task run_cmd execute_list list_locked list_entries
  execute_task-overrun k w names c got entries many =
      let dir = user_dir k.gahak in
      let w₁ = (srv.list_dir dir (srv.acquire_file_lock dir w).1).1 in
      let i = pos k.gahak.user_id in
      let w₃ = (srv.get_used_space i (srv.get_user_quota i w₁).1).1 in
      rw
        (
          c,
          run_cmd,
          got,
          entries,
          list_entries,
          list_loop_overruns dir names (codes "FILES:" ++ 10 ∷ []) 0 w₃ (omega arith) (omega arith),
        )
        refl
