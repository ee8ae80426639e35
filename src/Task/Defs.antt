-- ===== src/Task/Defs.antt =====
-- `execute_task` of main.c. `strdup` is taken to succeed.
use client_worker_thread_poo.Base.{
  ℕ, suc, ◌+◌, ◌-◌, ◌^◌, ◌%◌, ◌<◌, ◌≡◌, arith, Bool, true, false, not, ◌||◌, ◌&&◌, Option, none,
  some, List, [], ◌∷◌, ◌++◌, Text, codes, length, take, str_eq, ltb, ◌==◌, if◌then◌else◌, ◌>>=◌,
}
use client_worker_thread_poo.Base.Int.{ℤ, pos, negsuc, neg, ◌-ℤ◌, ◌≤ℤ◌}
use client_worker_thread_poo.Utility.Decimal.{decimal}
use client_worker_thread_poo.Task.Services.{Services}

-- CMD; `unknown` is any other value of the enum.
pub data Cmd : Type 0 where
  upload download delete list unknown : Cmd

-- The id is one of the database's; `username` is without its final zero.
pub record Client : Type 0 where
  pub user_id : ℕ
  pub username : Text

-- `payload` is `none` once it is freed; its length is that of the text until then. `resp` is what
-- the response points to.
pub record Task : Type 0 where
  pub cmd : Cmd
  pub gahak : Client
  pub filename : Text
  pub payload : Option Text
  pub payload_len : ℕ
  pub status : ℤ
  pub resp : Text
  pub resp_len : ℕ

-- a `size_t` as a `long`
unfoldable pub long_of : ℕ → ℤ
long_of n = let w = n % 2 ^ 64 in if ltb w (2 ^ 63) then pos w else negsuc (2 ^ 64 - 1 - w)

-- It is the number itself below 2 ^ 63, and never more.
pub long_of_small : (n : ℕ) → n < 2 ^ 63 → long_of n ≡ pos n
unfolding long_of
long_of_small n h = ground arith

pub long_of_le : (n : ℕ) → long_of n ≤ℤ pos n
unfolding long_of
long_of_le n = ground arith

-- `%ld`
abbrev pub decimal_ℤ : ℤ → Text
decimal_ℤ (pos n) = decimal n
decimal_ℤ (negsuc n) = codes "-" ++ decimal (suc n)

-- `kaam->status`, a text with its final zero, and its length
abbrev pub reply : ℤ → Text → Task → Task
reply status msg k = record k { status = status; resp = msg ++ 0 ∷ []; resp_len = length msg + 1 }

abbrev pub fail : Text → Task → Task
fail msg k = reply (negsuc 0) msg k

-- `free(kaam->payload); kaam->payload = NULL;`
abbrev pub free_payload : Task → Task
free_payload k = record k { payload = none }

-- `snprintf` into a buffer of 512, 768 and 256 bytes
unfoldable pub user_dir : Client → Text
user_dir c = take 511 (c.username ++ (decimal c.user_id ++ codes "/"))

unfoldable pub filepath : Task → Text
filepath k = take 767 (user_dir k.gahak ++ k.filename)

abbrev pub file_info : Text → ℕ → Text
file_info name size =
    take 255 (name ++ (codes " (" ++ (decimal size ++ codes " bytes)")) ++ 10 ∷ [])

-- what a freed payload points to is not read
abbrev pub payload_bytes : Option Text → Text
payload_bytes none = []
payload_bytes (some b) = b

abbrev pub or_zero : Option ℕ → ℕ
or_zero none = 0
or_zero (some n) = n

abbrev pub is_some : {A : Type 0} → Option A → Bool
is_some none = false
is_some (some a) = true

unfoldable pub quota_exceeded : (available : ℤ) → ℕ → Text
quota_exceeded available needed = take 511 (
    codes "UPLOAD FAILED: Quota exceeded. Available: "
    ++ (decimal_ℤ available ++ (codes " bytes, Needed: " ++ (decimal needed ++ codes " bytes"))))

module _ (srv : Services) where
  open srv use {
    World, check_quota, get_user_quota, get_used_space, update_used_space, acquire_file_lock,
    release_file_lock, stat, open_write, write, close_write, open_read, size, read, close, malloc,
    unlink, list_dir,
  }

  -- UPLOAD with the file open: the write, the quota and the answer
  unfoldable pub upload_write : (path : Text) → (old : Option ℕ) → Task → World → Task × World
  upload_write path old k w =
      let (written, w₁) = write path (payload_bytes k.payload) w in
      let (_, w₂) = close_write path w₁ in
      let delta = long_of k.payload_len -ℤ pos (or_zero old) in
      let (_, w₃) = update_used_space (pos k.gahak.user_id) delta w₂ in
      if not (written == k.payload_len)
      then (
        free_payload (fail (codes "UPLOAD FAILED: Incomplete write") k),
        release_file_lock path w₂,
      )
      else (free_payload (reply (pos 0) (codes "UPLOAD SUCCESS") k), release_file_lock path w₃)

  -- UPLOAD with the lock held
  unfoldable pub upload_locked : (path : Text) → Task → World → Task × World
  upload_locked path k w =
      let (old, w₁) = stat path w in
      let (opened, w₂) = open_write path w₁ in
      if opened
      then upload_write path old k w₂
      else (fail (codes "UPLOAD FAILED: Cannot create file") k, release_file_lock path w₂)

  unfoldable pub execute_upload : Task → World → Task × World
  execute_upload k w =
      let (allowed, w₁) = check_quota (pos k.gahak.user_id) (long_of k.payload_len) w in
      let (quota, w₂) = get_user_quota (pos k.gahak.user_id) w₁ in
      let (used, w₃) = get_used_space (pos k.gahak.user_id) w₂ in
      let (locked, w₄) = acquire_file_lock (filepath k) w₁ in
      if not allowed
      then (free_payload (fail (quota_exceeded (quota -ℤ used) k.payload_len) k), w₃)
      else if locked
      then upload_locked (filepath k) k w₄
      else (fail (codes "UPLOAD FAILED: Could not acquire lock") k, w₄)

  -- DOWNLOAD with the lock held
  unfoldable pub download_locked : (path : Text) → Task → World → Task × World
  download_locked path k w =
      let (opened, w₁) = open_read path w in
      let (file_size, w₂) = size path w₁ in
      let (room, w₃) = malloc file_size w₂ in
      let (bytes, w₄) = read path file_size w₃ in
      if opened
      then if room
        then if length bytes == file_size
          then (
            record k { status = pos 0; resp = bytes; resp_len = file_size },
            release_file_lock path w₄,
          )
          else (fail (codes "DOWNLOAD FAILED: Read error") k, release_file_lock path w₄)
        else (
          fail (codes "DOWNLOAD FAILED: Memory allocation error") k,
          release_file_lock path (close path w₃),
        )
      else (fail (codes "DOWNLOAD FAILED: File not found") k, release_file_lock path w₁)

  unfoldable pub execute_download : Task → World → Task × World
  execute_download k w =
      let (locked, w₁) = acquire_file_lock (filepath k) w in
      if locked
      then download_locked (filepath k) k w₁
      else (fail (codes "UPLOAD FAILED: Could not acquire lock") k, w₁)

  -- DELETE with the lock held
  unfoldable pub delete_locked : (path : Text) → Task → World → Task × World
  delete_locked path k w =
      let (old, w₁) = stat path w in
      let (gone, w₂) = unlink path w₁ in
      let (_, w₃) = update_used_space (pos k.gahak.user_id) (neg (pos (or_zero old))) w₂ in
      if gone
      then (
        reply (pos 0) (codes "DELETE SUCCESS") k,
        release_file_lock path (if is_some old then w₃ else w₂),
      )
      else (
        fail (codes "DELETE FAILED: File not found or permission denied") k,
        release_file_lock path w₂,
      )

  unfoldable pub execute_delete : Task → World → Task × World
  execute_delete k w =
      let (locked, w₁) = acquire_file_lock (filepath k) w in
      if locked
      then delete_locked (filepath k) k w₁
      else (fail (codes "DELETE FAILED: Could not acquire lock") k, w₁)

  -- The loop over the directory: the text, the number of files, and the world; `none` once the
  -- text and its final zero have overrun the 4096 bytes of `file_list`.
  unfoldable pub list_loop :
      (dir : Text) → List Text → (file_list : Text) → ℕ → World → Option (Text × ℕ × World)
  list_loop dir [] file_list n w = some (file_list, n, w)
  list_loop dir (name ∷ names) file_list n w =
      let (found, w₁) = stat (take 1023 (dir ++ name)) w in
      let longer = file_list ++ file_info name (or_zero found) in
      let skip = str_eq name (codes ".") || str_eq name (codes "..") in
      if not skip && not (ltb (length longer) 4096)
      then none
      else list_loop dir names (if skip then file_list else longer) (if skip then n else n + 1)
          (if skip then w else w₁)

  -- LIST with the directory read, or not: the answer. `w` is the world right after that, `w'` the
  -- one after the quota was looked up.
  unfoldable pub list_entries :
      (dir : Text) → Task → (w w' : World) → Option (List Text) → Option (Task × World)
  list_entries dir k w w' none =
      some (fail (codes "LIST FAILED: Cannot open directory") k, release_file_lock dir w)
  list_entries dir k w w' (some names) =
      list_loop dir names (codes "FILES:" ++ 10 ∷ []) 0 w' >>= λ r.
      let (file_list, n, u) = r in
      some (
        reply (pos 0) (if n == 0 then codes "No files found" else file_list) k,
        release_file_lock dir u,
      )

  -- LIST with the lock held
  unfoldable pub list_locked : (dir : Text) → Task → World → Option (Task × World)
  list_locked dir k w =
      let (entries, w₁) = list_dir dir w in
      let (_, w₂) = get_user_quota (pos k.gahak.user_id) w₁ in
      let (_, w₃) = get_used_space (pos k.gahak.user_id) w₂ in list_entries dir k w₁ w₃ entries

  unfoldable pub execute_list : Task → World → Option (Task × World)
  execute_list k w =
      let (locked, w₁) = acquire_file_lock (user_dir k.gahak) w in
      if locked
      then list_locked (user_dir k.gahak) k w₁
      else some (fail (codes "LIST FAILED: Could not acquire lock") k, w₁)

  unfoldable pub run_cmd : Cmd → Task → World → Option (Task × World)
  run_cmd upload k w = some (execute_upload k w)
  run_cmd download k w = some (execute_download k w)
  run_cmd delete k w = some (execute_delete k w)
  run_cmd list k w = execute_list k w
  run_cmd unknown k w = some (fail (codes "UNKNOWN COMMAND") k, w)

  unfoldable pub execute_task : Task → World → Option (Task × World)
  execute_task k w = run_cmd k.cmd k w
