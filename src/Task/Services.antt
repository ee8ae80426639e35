-- ===== src/Task/Services.antt =====
-- What `execute_task` calls: the quota functions of storage.c, the locks of file_locks.c, and files,
-- directories and memory of the C library. The world is what all threads share; whatever other
-- threads do between two calls is part of the next call.
use client_worker_thread_poo.Base.{
  ℕ, ◌<◌, ◌≡◌, Bool, true, Option, none, some, List, Text, length, take, if◌then◌else◌,
}
use client_worker_thread_poo.Base.Int.{ℤ}
use client_worker_thread_poo.FileLocks.Defs.{filepath_max}

pub record Services : Type 1 where
  pub World : Type 0
  pub check_quota : (user_id file_size : ℤ) → World → Bool × World
  pub get_user_quota : (user_id : ℤ) → World → ℤ × World
  pub get_used_space : (user_id : ℤ) → World → ℤ × World
  pub update_used_space : (user_id delta : ℤ) → World → Bool × World
  -- `acquire_file_lock`: whether it returned a lock, which is then held
  pub acquire_file_lock : Text → World → Bool × World
  pub release_file_lock : Text → World → World
  -- `stat`: the size of the file, if there is one
  pub stat : Text → World → Option ℕ × World
  -- `fopen` for writing, which empties the file, `fwrite`: the bytes that it took, and `fclose`:
  -- whether it succeeded
  pub open_write : Text → World → Bool × World
  pub write : (path payload : Text) → World → ℕ × World
  pub close_write : Text → World → Bool × World
  -- `fopen` for reading, the size by `fseek` and `ftell`, and `fread` with `fclose`
  pub open_read : Text → World → Bool × World
  pub size : Text → World → ℕ × World
  pub read : (path : Text) (size : ℕ) → World → Text × World
  pub close : Text → World → World
  pub malloc : ℕ → World → Bool × World
  pub unlink : Text → World → Bool × World
  -- `opendir`, all that `readdir` then gives, and `closedir`
  pub list_dir : Text → World → Option (List Text) × World

abbrev pub size_of : Option Text → Option ℕ
size_of none = none
size_of (some b) = some (length b)

-- The ghost state that the theorems speak of: the lock that this worker holds.
pub record IsServices (srv : Services) : Type 1 where
  pub Held : Option Text → srv.World → Type 0
  -- Only the locks' own functions change what this worker holds.
  pub check_quota_held :
      {o : Option Text} (i z : ℤ) (w : srv.World) → Held o w → Held o (srv.check_quota i z w).1
  pub get_user_quota_held :
      {o : Option Text} (i : ℤ) (w : srv.World) → Held o w → Held o (srv.get_user_quota i w).1
  pub get_used_space_held :
      {o : Option Text} (i : ℤ) (w : srv.World) → Held o w → Held o (srv.get_used_space i w).1
  pub update_used_space_held :
      {o : Option Text} (i d : ℤ) (w : srv.World)
      → Held o w
      → Held o (srv.update_used_space i d w).1
  pub stat_held : {o : Option Text} (p : Text) (w : srv.World) → Held o w → Held o (srv.stat p w).1
  pub open_write_held :
      {o : Option Text} (p : Text) (w : srv.World) → Held o w → Held o (srv.open_write p w).1
  pub write_held :
      {o : Option Text} (p b : Text) (w : srv.World) → Held o w → Held o (srv.write p b w).1
  pub close_write_held :
      {o : Option Text} (p : Text) (w : srv.World) → Held o w → Held o (srv.close_write p w).1
  pub open_read_held :
      {o : Option Text} (p : Text) (w : srv.World) → Held o w → Held o (srv.open_read p w).1
  pub size_held : {o : Option Text} (p : Text) (w : srv.World) → Held o w → Held o (srv.size p w).1
  pub read_held :
      {o : Option Text} (p : Text) (n : ℕ) (w : srv.World) → Held o w → Held o (srv.read p n w).1
  pub close_held : {o : Option Text} (p : Text) (w : srv.World) → Held o w → Held o (srv.close p w)
  pub malloc_held : {o : Option Text} (n : ℕ) (w : srv.World) → Held o w → Held o (srv.malloc n w).1
  pub unlink_held :
      {o : Option Text} (p : Text) (w : srv.World) → Held o w → Held o (srv.unlink p w).1
  pub list_dir_held :
      {o : Option Text} (p : Text) (w : srv.World) → Held o w → Held o (srv.list_dir p w).1
  pub acquired :
      (p : Text) (w : srv.World)
      → length p < filepath_max
      → Held none w
      → Held (if (srv.acquire_file_lock p w).0 then some p else none) (srv.acquire_file_lock p w).1
  pub released :
      (p : Text) (w : srv.World) → Held (some p) w → Held none (srv.release_file_lock p w)

-- The contents of the files, of which something is known only while this worker holds the lock of the
-- path: then no other thread changes the file, which changes only as the call says. The locks see to
-- that only where every thread that comes to the file takes the same path to it.
pub record IsExclusive (srv : Services) (law : IsServices srv) : Type 1 where
  pub file : srv.World → Text → Option Text
  pub stat_file :
      (p : Text) (w : srv.World)
      → law.Held (some p) w
      → (file (srv.stat p w).1 p ≡ file w p) × ((srv.stat p w).0 ≡ size_of (file w p))
  -- What `fwrite` took is in the file once `fclose` succeeds.
  pub write_file :
      (p b : Text) (w : srv.World)
      → law.Held (some p) w
      → (srv.close_write p (srv.write p b w).1).0 ≡ true
      → (file (srv.close_write p (srv.write p b w).1).1 p ≡ some (take (srv.write p b w).0 b))
  pub update_used_space_file :
      (p : Text) (i d : ℤ) (w : srv.World)
      → law.Held (some p) w
      → file (srv.update_used_space i d w).1 p ≡ file w p
  pub open_read_file :
      (p : Text) (w : srv.World)
      → law.Held (some p) w
      → (srv.open_read p w).0 ≡ true
      → (b : Text) × (file w p ≡ some b) × (file (srv.open_read p w).1 p ≡ some b)
  pub size_file :
      (p b : Text) (w : srv.World)
      → law.Held (some p) w
      → file w p ≡ some b
      → ((srv.size p w).0 ≡ length b) × (file (srv.size p w).1 p ≡ some b)
  pub malloc_file :
      (p : Text) (n : ℕ) (w : srv.World)
      → law.Held (some p) w
      → file (srv.malloc n w).1 p ≡ file w p
  -- `fread` gives the first bytes, at most as many as asked for.
  pub read_file :
      (p b : Text) (n : ℕ) (w : srv.World)
      → law.Held (some p) w
      → file w p ≡ some b
      → ((k : ℕ) × ((srv.read p n w).0 ≡ take k b)) × (file (srv.read p n w).1 p ≡ some b)
  pub unlink_file :
      (p : Text) (w : srv.World)
      → law.Held (some p) w
      → (srv.unlink p w).0 ≡ true
      → file (srv.unlink p w).1 p ≡ none
  pub release_file :
      (p : Text) (w : srv.World)
      → law.Held (some p) w
      → file (srv.release_file_lock p w) p ≡ file w p
