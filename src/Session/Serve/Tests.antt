-- ===== src/Session/Serve/Tests.antt =====
-- The theorems on a connection, at a server in memory.
use client_worker_thread_poo.Base.{
  ◌≡◌, refl, sym, ap, subst, ◌∙◌, Bool, true, Option, none, some, some_inj, [], ◌++◌, arith, Text,
  codes, length, replicate,
}
use client_worker_thread_poo.Utility.Drip.{drip, drip-IsStream, drip-IsOpen}
use client_worker_thread_poo.Utility.Whole.{
  whole, whole-IsStream, whole-IsOpen, whole-IsDuplex, whole_pending,
}
use client_worker_thread_poo.Storage.Memory.{memory-IsSqlite}
use client_worker_thread_poo.Task.Defs.{
  Cmd, upload, download, delete, list, unknown, Client, Task, execute_upload, upload_locked,
  upload_write, execute_download, download_locked, execute_delete, delete_locked, run_cmd,
  execute_task,
}
use client_worker_thread_poo.Task.Locks.{Outcome, execute_list-Outcome}
use client_worker_thread_poo.Task.Disk.{
  Disk, disk, disk-IsServices, empty_disk, held_none, none_held,
}
use client_worker_thread_poo.Session.Defs.{Gahak, Request}
use client_worker_thread_poo.Session.Wire.{
  bytes, send_response, recv_message, recv_message-send_response,
}
use client_worker_thread_poo.Session.Serve.Defs.{
  Host, client_of, task_for, Conn, sign_in, stored, serve,
}
use client_worker_thread_poo.Session.Serve.Machine.{host_on, nobody, line_frame, message, sign_up}
use client_worker_thread_poo.Session.Serve.Ends.{Stops, serve-Stops}
use client_worker_thread_poo.Session.Serve.Admitted.{LetIn, Stored, Kept, serve-Kept}

abbrev none_yet : Text × Text
none_yet = ([], [])

recv_message-send_response_example :
    (s' : Text × Text) × (send_response whole (codes "hello") none_yet ≡ some s')
    × ((wire : Text) × (whole-IsStream.written s' ≡ whole-IsStream.written none_yet ++ wire)
        × ((c : Text × Text) (rest : Text)
            → drip-IsStream.pending c ≡ wire ++ rest
            → (c' : Text × Text) × (recv_message drip (λ n. true) c
                ≡ some (some (codes "hello"), c'))
              × (drip-IsStream.pending c' ≡ rest)))
recv_message-send_response_example =
    recv_message-send_response whole drip whole-IsStream drip-IsStream whole-IsOpen drip-IsOpen
      (λ n. true) (codes "hello") none_yet (omega arith) (omega arith) refl

abbrev host : Host
host = host_on whole

-- A client that signs up and sends a file.
abbrev sent : Text
sent = sign_up ++ (line_frame (codes "UPLOAD a") ++ message (codes "xyz"))

abbrev conn : Conn host
conn = record { size = replicate 4 0; conn = (sent, []); world = empty_disk }

serve-Stops_example : Stops host whole-IsStream whole-IsDuplex (serve host 60 nobody conn)
unfolding bytes
serve-Stops_example =
    serve-Stops host whole-IsStream whole-IsDuplex 60 nobody conn
      (omega (arith, ap length (whole_pending conn.conn)))

host-Stored : Stored host memory-IsSqlite
host-Stored d w = refl

abbrev Unlocked : Disk → Type 0
Unlocked w = disk-IsServices.Held none w

signing :
    (line : Text) (g : Gahak) (w : Disk) (r : (Bool × Gahak) × Disk)
    → Unlocked w
    → sign_in host line g w ≡ some r
    → Unlocked r.1
unfolding sign_in
signing line g w r free e = by_result _ e
  where
    by_result : (o : Option ((Bool × Gahak) × _)) → stored host w o ≡ some r → Unlocked r.1
    by_result none e = cc
    by_result (some (a, d)) e =
        held_none r.1
          (sym (ap (λ (x : (Bool × Gahak) × Disk). x.1.held) (some_inj e)) ∙ none_held w free)

upload_unlocked : (k : Task) (w : Disk) → (execute_upload disk k w).1.held ≡ none
unfolding execute_upload upload_locked upload_write
upload_unlocked k w = ground arith

download_unlocked : (k : Task) (w : Disk) → (execute_download disk k w).1.held ≡ none
unfolding execute_download download_locked
download_unlocked k w = ground arith

delete_unlocked : (k : Task) (w : Disk) → (execute_delete disk k w).1.held ≡ none
unfolding execute_delete delete_locked
delete_unlocked k w = ground arith

command_unlocked :
    (c : Cmd) (k : Task) (w : Disk) (r : Task × Disk)
    → Unlocked w
    → run_cmd disk c k w ≡ some r
    → Unlocked r.1
unfolding run_cmd
command_unlocked upload k w r free ran =
    held_none r.1 (sym (ap (λ (x : Task × Disk). x.1.held) (some_inj ran)) ∙ upload_unlocked k w)
command_unlocked download k w r free ran =
    held_none r.1 (sym (ap (λ (x : Task × Disk). x.1.held) (some_inj ran)) ∙ download_unlocked k w)
command_unlocked delete k w r free ran =
    held_none r.1 (sym (ap (λ (x : Task × Disk). x.1.held) (some_inj ran)) ∙ delete_unlocked k w)
command_unlocked list k w r free ran =
    by_outcome _ ran (execute_list-Outcome disk disk-IsServices k w free)
  where
    by_outcome :
        (o : Option (Task × Disk)) → o ≡ some r → Outcome disk disk-IsServices list o → Unlocked r.1
    by_outcome none e out = cc
    by_outcome (some (k, u)) e out = subst (λ (x : Task × Disk). Unlocked x.1) (some_inj e) out.0
command_unlocked unknown k w r free ran =
    subst (λ (x : Task × Disk). Unlocked x.1) (some_inj ran) free

tasks :
    (g : Gahak) (cl : Client) (q : Request) (v : Disk) (r : Task × Disk)
    → LetIn host memory-IsSqlite g
    → client_of g ≡ some cl
    → Unlocked v
    → execute_task disk (task_for cl q) v ≡ some r
    → Unlocked r.1
unfolding execute_task
tasks g cl q v r l e free ran = command_unlocked q.cmd (task_for cl q) v r free ran

serve-Kept_example :
    Kept host memory-IsSqlite host-Stored Unlocked signing tasks (serve host 60 nobody conn)
serve-Kept_example =
    serve-Kept host memory-IsSqlite host-Stored Unlocked signing tasks 60 nobody conn
      (held_none empty_disk refl)
