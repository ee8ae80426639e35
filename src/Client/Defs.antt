-- ===== src/Client/Defs.antt =====
-- What test_client.c makes of a line that the user types, and what it sends.
use client_worker_thread_poo.Base.{
  ℕ, suc, ◌+◌, Bool, false, Option, none, some, [], ◌∷◌, ◌++◌, Text, length, take, drop, ◌==◌,
  ◌>>=◌, if◌then◌else◌,
}
use client_worker_thread_poo.Utility.Words.{space, strchr}
use client_worker_thread_poo.Utility.Transfer.{Socket, send_all}
use client_worker_thread_poo.Session.Defs.{is_positive}
use client_worker_thread_poo.Session.Wire.{bytes}

abbrev pub up_to : Text → Option ℕ → Text
up_to s none = s
up_to s (some n) = take n s

unfoldable pub get_first_word : Text → Text
get_first_word s = up_to s (strchr s space)

abbrev pub after_command : Text → Option ℕ → Option Text
after_command s none = none
after_command s (some n) = let rest = drop (suc n) s in some (up_to rest (strchr rest space))

-- `none` stands for NULL.
unfoldable pub get_filename : Text → Option Text
get_filename s = after_command s (strchr s space)

module _ (net : Socket) where
  open net use {State}

  -- A line with its final zero, after its length as an int: whether both went out
  unfoldable pub send_line : Text → State → Option (Bool × State)
  send_line l s = do
    (r, s₁) ← send_all net (bytes 4 (length l + 1)) s
    (r', s₂) ← send_all net (l ++ 0 ∷ []) s₁
    some (if is_positive r then (is_positive r', s₂) else (false, s₁))

  -- `handle_upload` once the file is open: its size, and then what `fread` has given
  unfoldable pub send_file :
      (malloc : ℕ → Bool) (file_size : ℕ) → Text → State → Option (Bool × State)
  send_file malloc file_size buffer s = do
    (r, s₁) ← send_all net (bytes 8 file_size) s
    (r', s₂) ← send_all net buffer s₁
    some (
        if is_positive r
        then if malloc file_size
          then if length buffer == file_size then (is_positive r', s₂) else (false, s₁)
          else (false, s₁)
        else (false, s₁))
