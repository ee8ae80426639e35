-- ===== src/Session/Defs.antt =====
-- `signup_login`, `upload` and `handleCmd` of main.c.
use client_worker_thread_poo.Base.{
  ℕ, ◌+◌, ◌*◌, ◌-◌, ◌^◌, Bool, false, Option, none, some, List, [], ◌∷◌, ◌++◌, Text, codes, length,
  take, drop, replicate, str_eq, ltb, ◌==◌, if◌then◌else◌,
}
use client_worker_thread_poo.Base.Int.{ℤ, pos, negsuc}
use client_worker_thread_poo.Utility.Words.{first_word, three_words}
use client_worker_thread_poo.Utility.Decimal.{decimal, count_digits}
use client_worker_thread_poo.Utility.Transfer.{Socket, Received, failed, got, recv_all}
use client_worker_thread_poo.Storage.Sqlite.{Sqlite, int_eq}
use client_worker_thread_poo.Storage.Defs.{signup, login, get_user_id, minus_one}
use client_worker_thread_poo.Task.Defs.{Cmd, upload, download, delete, list}

-- `client`: `username` is the whole buffer of 256 bytes, whatever is in it.
pub record Gahak : Type 0 where
  pub user_id : ℤ
  pub username : List ℕ

-- the C string that a buffer holds
unfoldable pub c_string : List ℕ → Text
c_string [] = []
c_string (b ∷ buf) = let rest = c_string buf in if b == 0 then [] else b ∷ rest

-- `strncpy(buf, s, strlen(s))`, which writes no final zero
abbrev pub strncpy : Text → List ℕ → List ℕ
strncpy s buf = s ++ drop (length s) buf

-- `%zu` of an int, read as 64 bits
abbrev pub printed : ℤ → Text
printed (pos n) = decimal n
printed (negsuc n) = decimal (2 ^ 64 - 1 - n)

-- `mkdir`
pub record Folders : Type 1 where
  pub State : Type 0
  pub mkdir : Text → State → Bool × State

module _ (db : Sqlite) (dirs : Folders) (log10 : ℕ → ℕ) where
  abbrev pub World : Type 0
  World = db.State × dirs.State

  -- The name of the folder of a user, in a buffer with room for `countDigits(user_id)` digits.
  unfoldable pub folder_name : Text → ℤ → Text
  folder_name username user_id =
      take (length username + count_digits log10 user_id) (username ++ printed user_id)

  -- `SIGNUP`: whether the client is let in, the client, and the world. The name fits the buffer, since
  -- a user with that name exists where it is copied.
  unfoldable pub signup_cmd : Text → Text → Gahak → World → (Bool × Gahak) × World
  signup_cmd username password g (s, d) =
      let (ok, s₁) = signup db username password s in
      let (user_id, s₂) = get_user_id db username s₁ in
      let (made, d') = dirs.mkdir (folder_name username user_id) d in
      if int_eq user_id minus_one then ((false, g), (s₂, d)) else (
        (
          (if made then ok else false),
          record { user_id = user_id; username = strncpy username (replicate 256 0) },
        ),
        (s₂, d'),
      )

  -- `LOGIN`: `none` where the name overruns the buffer
  unfoldable pub login_cmd : Text → Text → Gahak → World → Option ((Bool × Gahak) × World)
  login_cmd username password g (s, d) =
      let (user_id, s₁) = get_user_id db username s in
      let (ok, s₂) = login db username password s₁ in
      if ltb 256 (length username)
      then none
      else some
          ((ok, record { user_id = user_id; username = strncpy username g.username }), (s₂, d))

  unfoldable pub signup_login : Text → Gahak → World → Option ((Bool × Gahak) × World)
  signup_login cmd g w =
      let (what2do, username, password) = three_words cmd in
      if str_eq what2do (codes "SIGNUP")
      then some (signup_cmd username password g w)
      else if str_eq what2do (codes "LOGIN")
      then login_cmd username password g w
      else some ((false, g), w)

-- What `handleCmd` fills in of a task, which starts as zeros.
pub record Request : Type 0 where
  pub cmd : Cmd
  pub filename : Text
  pub payload : Text
  pub payload_len : ℕ

-- The number whose bytes are `bytes`, the lowest first; those that did not arrive are 0.
unfoldable pub little_endian : Text → ℕ
little_endian [] = 0
little_endian (b ∷ bytes) = b + 256 * little_endian bytes

-- `n > 0`
abbrev pub is_positive : ℤ → Bool
is_positive (pos n) = ltb 0 n
is_positive (negsuc n) = false

module _ (net : Socket) (malloc : ℕ → Bool) where
  open net use {State, recv}

  -- after `recv_all`: `none` only if that is out of rounds
  abbrev pub after_payload : Text → ℕ → Option (ℤ × Text × State) → Option (Option Request × State)
  after_payload filename n none = none
  after_payload filename n (some (r, bytes, s)) = some (
    (if is_positive r
        then some (record { cmd = upload; filename = filename; payload = bytes; payload_len = n })
        else none),
    s,
  )

  -- after the `recv` of the length
  unfoldable pub after_length : Text → Received → State → Option (Option Request × State)
  after_length filename (failed k) s = some (none, s)
  after_length filename (got b) s =
      let n = little_endian b in
      if malloc n then after_payload filename n (recv_all net n s) else some (none, s)

  unfoldable pub upload_cmd : Text → State → Option (Option Request × State)
  upload_cmd filename s = let (r, s₁) = recv 8 s in after_length filename r s₁

  abbrev pub plain : Cmd → Text → Request
  plain c filename = record { cmd = c; filename = filename; payload = []; payload_len = 0 }

  -- The request, or `none` inside for an invalid command
  unfoldable pub handle_cmd : Text → State → Option (Option Request × State)
  handle_cmd line s =
      let (what2do, rest) = first_word line in
      let (filename, _) = first_word rest in
      if str_eq what2do (codes "UPLOAD")
      then upload_cmd filename s
      else if str_eq what2do (codes "DOWNLOAD")
      then some (some (plain download filename), s)
      else if str_eq what2do (codes "DELETE")
      then some (some (plain delete filename), s)
      else if str_eq what2do (codes "LIST")
      then some (some (plain list []), s)
      else some (none, s)
