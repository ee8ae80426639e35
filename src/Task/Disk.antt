-- ===== src/Task/Disk.antt =====
-- A file system in memory: an instance of what `execute_task` calls that keeps the laws.
use client_worker_thread_poo.Base.{
  ◌<◌, ◌≡◌, refl, sym, ap, Bool, true, false, Option, none, some, List, [], arith, Text, codes,
  length, take, replicate, take_of_length_le, str_eq, str_eq_refl, if◌then◌else◌,
}
use client_worker_thread_poo.Base.Int.{pos}
use client_worker_thread_poo.Storage.Memory.{File}
use client_worker_thread_poo.Task.Services.{Services, IsServices, IsExclusive, size_of}
use client_worker_thread_poo.Task.Defs.{Cmd, Task, filepath, user_dir}
use client_worker_thread_poo.Utility.Decimal.{decimal, decimal_loop}
use client_worker_thread_poo.FileLocks.Defs.{filepath_max}

-- `accounts` is what sign-up and login work on: the database and the folders made.
pub record Disk : Type 0 where
  pub held : Option Text
  pub files : Text → Option Text
  pub names : List Text
  pub accounts : File × List Text

abbrev pub set_file : Text → Option Text → Disk → Disk
set_file p o d = record d { files = λ q. if str_eq p q then o else d.files q }

abbrev pub contents : Option Text → Text
contents none = []
contents (some b) = b

abbrev pub is_there : Option Text → Bool
is_there none = false
is_there (some b) = true

abbrev pub disk : Services
disk = record {
  World = Disk;
  check_quota = λ i z d. (true, d);
  get_user_quota = λ i d. (pos 1000, d);
  get_used_space = λ i d. (pos 0, d);
  update_used_space = λ i z d. (true, d);
  acquire_file_lock = λ p d. (true, record d { held = some p });
  release_file_lock = λ p d. record d { held = none };
  stat = λ p d. (size_of (d.files p), d);
  open_write = λ p d. (true, set_file p (some []) d);
  write = λ p b d. (length b, set_file p (some b) d);
  close_write = λ p d. (true, d);
  open_read = λ p d. (is_there (d.files p), d);
  size = λ p d. (length (contents (d.files p)), d);
  read = λ p n d. (take n (contents (d.files p)), d);
  close = λ p d. d;
  malloc = λ n d. (true, d);
  unlink = λ p d. (is_there (d.files p), set_file p none d);
  list_dir = λ p d. (some d.names, d);
}

opened_there : (o : Option Text) → is_there o ≡ true → (b : Text) × (o ≡ some b) × (o ≡ some b)
opened_there none h = cc
opened_there (some b) h = (b, refl, refl)

pub disk-IsServices : IsServices disk
disk-IsServices = record {
  Held = λ o d. d.held ≡ o;
  check_quota_held = λ i z d h. h;
  get_user_quota_held = λ i d h. h;
  get_used_space_held = λ i d h. h;
  update_used_space_held = λ i z d h. h;
  stat_held = λ p d h. h;
  open_write_held = λ p d h. h;
  write_held = λ p b d h. h;
  close_write_held = λ p d h. h;
  open_read_held = λ p d h. h;
  size_held = λ p d h. h;
  read_held = λ p n d h. h;
  close_held = λ p d h. h;
  malloc_held = λ n d h. h;
  unlink_held = λ p d h. h;
  list_dir_held = λ p d h. h;
  acquired = λ p d short h. refl;
  released = λ p d h. refl;
}

pub disk-IsExclusive : IsExclusive disk disk-IsServices
disk-IsExclusive = record {
  file = λ d. d.files;
  stat_file = λ p d h. (refl, refl);
  write_file = λ p b d h e.
      rw (str_eq_refl p) (ap some (sym (take_of_length_le (length b) b (omega arith))));
  update_used_space_file = λ p i z d h. refl;
  open_read_file = λ p d h e. opened_there (d.files p) e;
  size_file = λ p b d h e. (ap (λ o. length (contents o)) e, e);
  malloc_file = λ p n d h. refl;
  read_file = λ p b n d h e. ((n, ap (λ o. take n (contents o)) e), e);
  unlink_file = λ p d h e. rw (str_eq_refl p) refl;
  release_file = λ p d h. refl;
}

abbrev pub empty_file : File
empty_file = record { now = record { names = []; quotas = λ _. none }; at_begin = none }

abbrev pub empty_disk : Disk
empty_disk = record {
  held = none;
  files = λ _. none;
  names = replicate 400 (codes "f");
  accounts = (empty_file, []);
}

abbrev pub task_of : Cmd → Task
task_of c = record {
  cmd = c;
  gahak = record { user_id = 7; username = codes "ann" };
  filename = codes "notes";
  payload = some (codes "hello");
  payload_len = 5;
  status = pos 0;
  resp = [];
  resp_len = 0;
}

pub held_none : (d : Disk) → d.held ≡ none → disk-IsServices.Held none d
unfolding disk-IsServices
held_none d h = h

pub none_held : (d : Disk) → disk-IsServices.Held none d → d.held ≡ none
unfolding disk-IsServices
none_held d h = h

pub task_of-path : (c : Cmd) → filepath (task_of c) ≡ codes "ann7/notes"
unfolding filepath user_dir decimal decimal_loop
task_of-path c = refl

pub task_of_short : (c : Cmd) → length (filepath (task_of c)) < filepath_max
task_of_short c = rw (task_of-path c) (omega arith)
