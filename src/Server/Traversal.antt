-- ===== src/Server/Traversal.antt =====
-- A file name that leads out of the user's folder.
use mathlib.Core.List.{append_assoc}
use client_worker_thread_poo.Base.{
  ◌+◌, ◌≤◌, ◌<◌, ◌≡◌, sym, ap, ◌∙◌, none, arith, Text, codes, length, length-append, take,
  take_of_length_le, ◌++◌,
}
use client_worker_thread_poo.Base.Int.{pos}
use client_worker_thread_poo.FileLocks.Defs.{filepath_max}
use client_worker_thread_poo.Storage.Sqlite.{Sqlite}
use client_worker_thread_poo.Utility.Decimal.{decimal}
use client_worker_thread_poo.Task.Defs.{Client, Task, user_dir, filepath, execute_delete}
use client_worker_thread_poo.Task.Files.{execute_delete-file}
use client_worker_thread_poo.Server.Os.{Os, IsOs}
use client_worker_thread_poo.Server.Defs.{Shared, services}
use client_worker_thread_poo.Server.Lawful.{
  Free, services-IsServices, services-IsExclusive, free-Held, services_file,
}

-- the name of the user's folder
abbrev pub folder : Client → Text
folder c = c.username ++ decimal c.user_id

user_dir_whole : (c : Client) → length (folder c) < 511 → user_dir c ≡ folder c ++ codes "/"
unfolding user_dir
user_dir_whole c short =
    ap (take 511) (sym (append_assoc c.username (decimal c.user_id) (codes "/")))
    ∙ take_of_length_le 511 (folder c ++ codes "/")
        (omega (arith, length-append (folder c) (codes "/")))

filepath_up :
    (k : Task) (p : Text)
    → k.filename ≡ codes "../" ++ p
    → length (folder k.gahak) < 511
    → length (folder k.gahak) + length p + 4 ≤ 767
    → filepath k ≡ folder k.gahak ++ (codes "/../" ++ p)
unfolding filepath
filepath_up k p name short small =
    let dir = folder k.gahak in
    rw (user_dir_whole k.gahak short, name)
      (ap (take 767) (append_assoc dir (codes "/") (codes "../" ++ p))
        ∙ take_of_length_le 767 (dir ++ (codes "/../" ++ p))
            (omega (arith, length-append dir (codes "/../" ++ p), length-append (codes "/../") p)))

-- A client deletes the file of another. Over the real locks, for a worker that runs while no lock is
-- in use, and a DELETE of the file name `../` followed by the path that `execute_task` makes of any
-- other task: where the operating system takes the user's folder followed by `/../` for no step at
-- all before that path, and the path as a whole has less than 512 bytes, a DELETE that reports
-- success has removed the file of the other task.
pub delete_of_another :
    (db : Sqlite) (os : Os) (law' : IsOs os) (k other : Task) (w : Shared db os)
    → k.filename ≡ codes "../" ++ filepath other
    → length (folder k.gahak) + length (filepath other) + 4 < filepath_max
    → law'.resolve (folder k.gahak ++ (codes "/../" ++ filepath other))
      ≡ law'.resolve (filepath other)
    → Free db os w
    → (execute_delete (services db os) k w).0.status ≡ pos 0
    → law'.files (execute_delete (services db os) k w).1.disk (law'.resolve (filepath other)) ≡ none
delete_of_another db os law' k other w name short up free ok =
    let dir = folder k.gahak in
    let whole : filepath k ≡ dir ++ (codes "/../" ++ filepath other) =
      filepath_up k (filepath other) name (omega arith) (omega arith) in
    let fits : length (filepath k) < filepath_max = rw whole (
      omega (
        arith,
        length-append dir (codes "/../" ++ filepath other),
        length-append (codes "/../") (filepath other),
      )) in
    let gone =
      execute_delete-file (services db os) (services-IsServices db os law')
        (services-IsExclusive db os law') k w fits (free-Held db os law' w free) ok in
    let files = law'.files (execute_delete (services db os) k w).1.disk in
    ap files (sym up ∙ ap law'.resolve (sym whole))
    ∙ sym (services_file db os law' (execute_delete (services db os) k w).1 (filepath k))
    ∙ gone
