-- ===== src/Server/Os.antt =====
-- The calls of the C library and the operating system in `execute_task`.
use client_worker_thread_poo.Base.{
  ℕ, ◌≡◌, Bool, true, Option, none, some, List, [], Text, length, take, str_eq, if◌then◌else◌,
}
use client_worker_thread_poo.Task.Services.{size_of}

pub record Os : Type 1 where
  pub State : Type 0
  pub stat : Text → State → Option ℕ × State
  -- `fopen` for writing, `fwrite`: the bytes that it took, and `fclose`: whether it succeeded
  pub open_write : Text → State → Bool × State
  pub write : (path payload : Text) → State → ℕ × State
  pub close_write : Text → State → Bool × State
  -- `fopen` for reading, the size by `fseek` and `ftell`, and `fread` with `fclose`
  pub open_read : Text → State → Bool × State
  pub size : Text → State → ℕ × State
  pub read : (path : Text) (size : ℕ) → State → Text × State
  pub close : Text → State → State
  pub malloc : ℕ → State → Bool × State
  pub unlink : Text → State → Bool × State
  -- `opendir`, all that `readdir` then gives, and `closedir`
  pub list_dir : Text → State → Option (List Text) × State

abbrev pub Files : Type 0
Files = Text → Option Text

-- the files with one of them replaced
abbrev pub put : Text → Option Text → Files → Files
put f o files = λ g. if str_eq f g then o else files g

abbrev pub put_if : Bool → Text → Option Text → Files → Files
put_if b f o files = λ g. if b then put f o files g else files g

-- What POSIX documents, where nobody else is at the files. `resolve` is the file that a path leads
-- to, and `files` the contents of each file; two paths may lead to one file. The paths are taken to
-- lead to files, not to folders, and a `write` to follow an `open_write` of its path.
pub record IsOs (os : Os) : Type 0 where
  pub resolve : Text → Text
  pub files : os.State → Files
  pub stat_size : (p : Text) (s : os.State) → (os.stat p s).0 ≡ size_of (files s (resolve p))
  pub stat_same : (p : Text) (s : os.State) → files (os.stat p s).1 ≡ files s
  pub open_write_files :
      (p : Text) (s : os.State)
      → files (os.open_write p s).1 ≡ put_if (os.open_write p s).0 (resolve p) (some []) (files s)
  -- What `fwrite` took is in the file once `fclose` succeeds.
  pub write_files :
      (p b : Text) (s : os.State)
      → (os.close_write p (os.write p b s).1).0 ≡ true
      → files (os.close_write p (os.write p b s).1).1
        ≡ put (resolve p) (some (take (os.write p b s).0 b)) (files s)
  pub open_read_there :
      (p : Text) (s : os.State)
      → (os.open_read p s).0 ≡ true
      → (b : Text) × (files s (resolve p) ≡ some b)
  pub open_read_same : (p : Text) (s : os.State) → files (os.open_read p s).1 ≡ files s
  pub size_length :
      (p b : Text) (s : os.State) → files s (resolve p) ≡ some b → (os.size p s).0 ≡ length b
  pub size_same : (p : Text) (s : os.State) → files (os.size p s).1 ≡ files s
  pub read_part :
      (p b : Text) (n : ℕ) (s : os.State)
      → files s (resolve p) ≡ some b
      → (k : ℕ) × ((os.read p n s).0 ≡ take k b)
  pub read_same : (p : Text) (n : ℕ) (s : os.State) → files (os.read p n s).1 ≡ files s
  pub close_same : (p : Text) (s : os.State) → files (os.close p s) ≡ files s
  pub malloc_same : (n : ℕ) (s : os.State) → files (os.malloc n s).1 ≡ files s
  pub unlink_files :
      (p : Text) (s : os.State)
      → files (os.unlink p s).1 ≡ put_if (os.unlink p s).0 (resolve p) none (files s)
  pub list_dir_same : (p : Text) (s : os.State) → files (os.list_dir p s).1 ≡ files s

-- The disk takes all that is written, and `fclose` succeeds.
abbrev pub TakesAll : Os → Type 0
TakesAll os =
    (p b : Text) (s : os.State)
    → ((os.write p b s).0 ≡ length b) × ((os.close_write p (os.write p b s).1).0 ≡ true)

-- No call fails: files open, the disk takes all that is written, a file is read whole.
pub record OsWorks (os : Os) (law : IsOs os) : Type 0 where
  pub opens_write : (p : Text) (s : os.State) → (os.open_write p s).0 ≡ true
  pub writes : (p b : Text) (s : os.State) → (os.write p b s).0 ≡ length b
  pub flushes : (p : Text) (s : os.State) → (os.close_write p s).0 ≡ true
  pub opens_read :
      (p b : Text) (s : os.State)
      → law.files s (law.resolve p) ≡ some b
      → (os.open_read p s).0 ≡ true
  pub room : (n : ℕ) (s : os.State) → (os.malloc n s).0 ≡ true
  pub reads :
      (p b : Text) (s : os.State)
      → law.files s (law.resolve p) ≡ some b
      → (os.read p (length b) s).0 ≡ b
