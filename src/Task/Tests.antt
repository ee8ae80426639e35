-- ===== src/Task/Tests.antt =====
-- `execute_task` on a file system in memory, and the theorems at work there.
use client_worker_thread_poo.Base.{◌≤◌, ◌≡◌, refl, none, some, arith, codes, str_eq, str_eq_refl}
use client_worker_thread_poo.Base.Int.{pos}
use client_worker_thread_poo.Utility.Decimal.{decimal, decimal_loop}
use client_worker_thread_poo.Task.Defs.{
  upload, download, delete, list, user_dir, filepath, upload_write, upload_locked, execute_upload,
  download_locked, execute_download, delete_locked, execute_delete, execute_task,
}
use client_worker_thread_poo.Task.Locks.{Outcome, execute_task-Outcome}
use client_worker_thread_poo.Task.Files.{
  Stored, upload_begins, execute_upload-Stored, execute_download-file, execute_delete-file,
}
use client_worker_thread_poo.Task.Listing.{count_files, execute_task-overrun}
use client_worker_thread_poo.Task.Disk.{
  Disk, disk, disk-IsServices, disk-IsExclusive, set_file, empty_disk, task_of, task_of_short,
  held_none,
}

path_lem : filepath (task_of upload) ≡ codes "ann7/notes"
unfolding filepath user_dir decimal decimal_loop
path_lem = refl

abbrev full_disk : Disk
full_disk = set_file (filepath (task_of upload)) (some (codes "hello")) empty_disk

uploaded : (execute_upload disk (task_of upload) empty_disk).0.status ≡ pos 0
unfolding execute_upload upload_locked upload_write
uploaded = refl

there : full_disk.files (filepath (task_of upload)) ≡ some (codes "hello")
there = rw (str_eq_refl (filepath (task_of upload))) refl

downloaded : (execute_download disk (task_of download) full_disk).0.status ≡ pos 0
unfolding execute_download download_locked filepath user_dir decimal decimal_loop str_eq
downloaded = refl

deleted : (execute_delete disk (task_of delete) full_disk).0.status ≡ pos 0
unfolding execute_delete delete_locked filepath user_dir decimal decimal_loop str_eq
deleted = refl

execute_task-Outcome_example :
    Outcome disk disk-IsServices upload (execute_task disk (task_of upload) empty_disk)
execute_task-Outcome_example =
    execute_task-Outcome disk disk-IsServices (task_of upload) empty_disk (task_of_short upload)
      (held_none empty_disk refl)

execute_upload-Stored_example :
    Stored disk disk-IsServices disk-IsExclusive
      (task_of upload)
      (codes "hello")
      (upload_begins disk disk-IsServices disk-IsExclusive (task_of upload) empty_disk)
      (execute_upload disk (task_of upload) empty_disk)
execute_upload-Stored_example =
    execute_upload-Stored disk disk-IsServices disk-IsExclusive (task_of upload) (codes "hello")
      empty_disk refl refl (task_of_short upload) (λ u. refl) (held_none empty_disk refl) uploaded

execute_download-file_example :
    disk-IsExclusive.file
      (execute_download disk (task_of download) full_disk).1
      (filepath (task_of download))
    ≡ some (execute_download disk (task_of download) full_disk).0.resp
execute_download-file_example =
    execute_download-file disk disk-IsServices disk-IsExclusive (task_of download) full_disk
      (task_of_short download) (held_none full_disk refl) downloaded

execute_delete-file_example :
    disk-IsExclusive.file
      (execute_delete disk (task_of delete) full_disk).1
      (filepath (task_of delete))
    ≡ none
execute_delete-file_example =
    execute_delete-file disk disk-IsServices disk-IsExclusive (task_of delete) full_disk
      (task_of_short delete) (held_none full_disk refl) deleted

many_files : 372 ≤ count_files empty_disk.names
unfolding str_eq
many_files = omega arith

execute_task-overrun_example : execute_task disk (task_of list) empty_disk ≡ none
execute_task-overrun_example =
    execute_task-overrun disk (task_of list) empty_disk empty_disk.names refl refl refl many_files
