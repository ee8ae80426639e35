-- ===== src/Server/Memory.antt =====
-- Files in memory: an instance of the operating system's calls that keeps their laws. How a path
-- leads to a file is a parameter.
use client_worker_thread_poo.Base.{
  ◌≡◌, refl, sym, ap, ◌∙◌, true, Option, none, some, [], arith, Text, length, take,
  take_of_length_le,
}
use client_worker_thread_poo.Task.Services.{size_of}
use client_worker_thread_poo.Task.Disk.{contents, is_there}
use client_worker_thread_poo.Server.Os.{Os, IsOs, OsWorks, Files, put, put_if}

module _ (resolve : Text → Text) where
  abbrev pub memory_os : Os
  memory_os = record {
    State = Files;
    stat = λ p s. (size_of (s (resolve p)), s);
    open_write = λ p s. (true, put (resolve p) (some []) s);
    write = λ p b s. (length b, put (resolve p) (some b) s);
    close_write = λ p s. (true, s);
    open_read = λ p s. (is_there (s (resolve p)), s);
    size = λ p s. (length (contents (s (resolve p))), s);
    read = λ p n s. (take n (contents (s (resolve p))), s);
    close = λ p s. s;
    malloc = λ n s. (true, s);
    unlink =
        λ p s. (is_there (s (resolve p)), put_if (is_there (s (resolve p))) (resolve p) none s);
    list_dir = λ p s. (none, s);
  }

  there : (o : Option Text) → is_there o ≡ true → (b : Text) × (o ≡ some b)
  there none h = cc
  there (some b) h = (b, refl)

  pub memory_os-IsOs : IsOs memory_os
  memory_os-IsOs = record {
    resolve = resolve;
    files = λ s. s;
    stat_size = λ p s. refl;
    stat_same = λ p s. refl;
    open_write_files = λ p s. refl;
    write_files = λ p b s ok.
        ap (λ x. put (resolve p) (some x) s) (sym (take_of_length_le (length b) b (omega arith)));
    open_read_there = λ p s e. there (s (resolve p)) e;
    open_read_same = λ p s. refl;
    size_length = λ p b s e. ap (λ o. length (contents o)) e;
    size_same = λ p s. refl;
    read_part = λ p b n s e. (n, ap (λ o. take n (contents o)) e);
    read_same = λ p n s. refl;
    close_same = λ p s. refl;
    malloc_same = λ n s. refl;
    unlink_files = λ p s. refl;
    list_dir_same = λ p s. refl;
  }

  pub memory_os-resolve : (p : Text) → memory_os-IsOs.resolve p ≡ resolve p
  unfolding memory_os-IsOs
  memory_os-resolve p = refl

  pub memory_os-files : (s : Files) → memory_os-IsOs.files s ≡ s
  unfolding memory_os-IsOs
  memory_os-files s = refl

  is_there_of : (o : Option Text) (b : Text) → o ≡ some b → is_there o ≡ true
  is_there_of none b e = cc
  is_there_of (some a) b e = refl

  pub memory_os-OsWorks : OsWorks memory_os memory_os-IsOs
  unfolding memory_os-IsOs
  memory_os-OsWorks = record {
    opens_write = λ p s. refl;
    writes = λ p b s. refl;
    flushes = λ p s. refl;
    opens_read = λ p b s e. is_there_of (s (resolve p)) b e;
    room = λ n s. refl;
    reads = λ p b s e.
        ap (λ o. take (length b) (contents o)) e ∙ take_of_length_le (length b) b (omega arith);
  }
