-- ===== src/Client/Tests.antt =====
-- The client and the server at a file of three bytes.
use client_worker_thread_poo.Base.{
  ◌<◌, ◌≡◌, refl, true, some, [], ◌++◌, arith, Text, codes, length, replicate,
}
use client_worker_thread_poo.Base.Int.{pos}
use client_worker_thread_poo.Task.Defs.{
  Client, Task, user_dir, filepath, execute_upload, upload_locked, upload_write,
}
use client_worker_thread_poo.FileLocks.Defs.{filepath_max}
use client_worker_thread_poo.Utility.Decimal.{decimal, decimal_loop}
use client_worker_thread_poo.Task.Disk.{
  disk, disk-IsServices, disk-IsExclusive, empty_disk, held_none,
}
use client_worker_thread_poo.Session.Defs.{Gahak, c_string}
use client_worker_thread_poo.Session.Serve.Defs.{Conn, again, client_of, task_for, turn}
use client_worker_thread_poo.Utility.Words.{first_word}
use client_worker_thread_poo.Utility.Drip.{drip, drip-IsStream, drip-IsOpen}
use client_worker_thread_poo.Utility.Whole.{whole, whole-IsStream, whole-IsOpen, whole-IsWhole}
use client_worker_thread_poo.Session.Serve.Machine.{host_on}
use client_worker_thread_poo.Client.Defs.{get_first_word, get_filename, send_line, send_file}
use client_worker_thread_poo.Client.Arrives.{upload_line}
use client_worker_thread_poo.Client.Stored.{upload_request, turn-send_file}
use client_worker_thread_poo.Client.Words.{get_filename-first_word}

abbrev name : Text
name = codes "a"

abbrev nothing : Text × Text
nothing = ([], [])

-- The client with the id 7.
abbrev ann : Gahak
ann = record { user_id = pos 7; username = codes "ann" ++ replicate 253 0 }

abbrev ann_client : Client
ann_client = record { user_id = 7; username = codes "ann" }

ann_lem : client_of ann ≡ some ann_client
unfolding c_string
ann_lem = refl

abbrev task : Task
task = task_for ann_client (upload_request name (codes "xyz"))

task_short : length (filepath task) < filepath_max
unfolding filepath user_dir decimal decimal_loop
task_short = omega arith

uploaded : (execute_upload disk task empty_disk).0.status ≡ pos 0
unfolding execute_upload upload_locked upload_write
uploaded = refl

turn-send_file_example :
    (c' c'' : Text × Text) × (send_line drip (upload_line name) nothing ≡ some (true, c'))
    × (send_file drip (λ n. true) 3 (codes "xyz") c' ≡ some (true, c''))
    × ((wire : Text) × (drip-IsStream.written c'' ≡ drip-IsStream.written nothing ++ wire)
        × ((s : Text × Text) (rest : Text)
            → whole-IsStream.pending s ≡ wire ++ rest
            → (d : Conn (host_on whole)) × (turn
                  (host_on whole)
                  ann
                  (record { size = replicate 4 0; conn = s; world = empty_disk })
                ≡ again d)
              × (disk-IsExclusive.file d.world (filepath task) ≡ some (codes "xyz"))))
turn-send_file_example =
    turn-send_file (host_on whole) whole-IsStream drip drip-IsStream whole-IsWhole whole-IsOpen
      drip-IsOpen disk-IsServices disk-IsExclusive (λ n. true) name (codes "xyz") (replicate 4 0)
      ann ann_client empty_disk (omega arith, tt) (omega arith, tt) (omega arith) (omega arith)
      (omega arith) refl refl refl refl ann_lem task_short (λ u. refl) (held_none empty_disk refl)
      uploaded nothing

get_filename-first_word_example :
    (get_first_word (codes "UPLOAD a b") ≡ (first_word (codes "UPLOAD a b")).0)
    × ((f : Text)
        → get_filename (codes "UPLOAD a b") ≡ some f
        → f ≡ (first_word (first_word (codes "UPLOAD a b")).1).0)
get_filename-first_word_example = get_filename-first_word (codes "UPLOAD a b")
