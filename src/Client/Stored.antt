-- ===== src/Client/Stored.antt =====
-- An UPLOAD from the client's file to the file on the server.
use client_worker_thread_poo.Base.{
  Bool-cases, inl, inr, take, ltb, refl, none, ℕ, ◌+◌, ◌<◌, ◌^◌, ◌≡◌, ap, ◌∙◌, Bool, true, some,
  ◌++◌, Text, length,
}
use client_worker_thread_poo.Base.Int.{pos}
use client_worker_thread_poo.Utility.Words.{IsWord}
use client_worker_thread_poo.Utility.Transfer.{Socket, IsStream, IsOpen, IsWhole}
use client_worker_thread_poo.Task.Defs.{upload}
use client_worker_thread_poo.Session.Buffer.{NoZero}
use client_worker_thread_poo.Session.Serve.Defs.{Host}
use client_worker_thread_poo.Client.Defs.{send_line, send_file}
use client_worker_thread_poo.Client.Arrives.{upload_line}
use client_worker_thread_poo.Client.Upload.{Arrived, handle_cmd-send_file}
use client_worker_thread_poo.FileLocks.Defs.{filepath_max}
use client_worker_thread_poo.Task.Services.{IsServices, IsExclusive}
use client_worker_thread_poo.Task.Defs.{
  Client, Task, filepath, execute_upload, execute_task, run_cmd,
}
use client_worker_thread_poo.Task.Files.{execute_upload-Stored}
use client_worker_thread_poo.Session.Defs.{Gahak, Request}
use client_worker_thread_poo.Session.Wire.{send_response-frame}
use client_worker_thread_poo.Session.Serve.Defs.{Conn, again, client_of, task_for, respond, turn}

abbrev pub upload_request : Text → Text → Request
upload_request name content = record {
  cmd = upload;
  filename = name;
  payload = content;
  payload_len = length content;
}

module _ (host : Host) (law : IsStream host.net) (open_yet : IsOpen host.net law) where
  open host use {srv, net}

  -- The loop goes on after every response.
  respond-again :
      (c : Conn host) (k : Task)
      → (s : net.State) × (respond host c k ≡ again (record c { conn = s }))
  unfolding respond
  respond-again c k = elim (Bool-cases (ltb 0 k.resp_len)) [
    | inl some_bytes ↦
        let (s, e, w) = send_response-frame net law open_yet (take k.resp_len k.resp) c.conn in
        (s, rw (some_bytes, e) refl)
    | inr no_bytes ↦ (c.conn, rw no_bytes refl)
  ]

  turn-Arrived :
      (name content rest size : Text) (s : net.State) (w : srv.World) (g : Gahak) (cl : Client)
      → client_of g ≡ some cl
      → Arrived host law name content rest size s
      → (d : Conn host) × (turn host g (record { size = size; conn = s; world = w }) ≡ again d)
        × (d.world ≡ (execute_upload srv (task_for cl (upload_request name content)) w).1)
  unfolding turn execute_task run_cmd
  turn-Arrived name content rest size s w g cl who a =
      let r = execute_upload srv (task_for cl (upload_request name content)) w in
      let (s', e) = respond-again (record { size = a.size'; conn = a.after; world = r.1 }) r.0 in
      (record { size = a.size'; conn = s'; world = r.1 }, rw (a.line_read, a.request, who) e, refl)

-- An UPLOAD goes from the client to the disk. Over streams that do not fail, where each `recv` of the
-- server gets all that it asks for, for a name without a space and a zero, a file of 1 to
-- 2 ^ 64 - 1 bytes, memory enough on both sides, and a path of less than 512 bytes: the client sends
-- the line and the file; and when a thread of the server that serves client `cl`, holding no lock,
-- reads what was sent, its round ends with the loop going on, and where the UPLOAD of this request
-- reports success, no `fclose` of the file fails and no other thread changes the file while the lock
-- of its path is held, the file of that name in the user's directory then holds exactly the bytes
-- that the client sent.
pub turn-send_file :
    (host : Host) (law : IsStream host.net) (client : Socket) (law' : IsStream client)
    → IsWhole host.net law
    → IsOpen host.net law
    → IsOpen client law'
    → (locks : IsServices host.srv) (disk : IsExclusive host.srv locks) (malloc : ℕ → Bool)
      (name content size : Text) (g : Gahak) (cl : Client) (w : host.srv.World)
    → IsWord name
    → NoZero name
    → length (upload_line name) + 1 < 2 ^ 31
    → 0 < length content
    → length content < 2 ^ 64
    → host.malloc (length (upload_line name) + 1) ≡ true
    → host.malloc (length content) ≡ true
    → malloc (length content) ≡ true
    → length size ≡ 4
    → client_of g ≡ some cl
    → length (filepath (task_for cl (upload_request name content))) < filepath_max
    → ((u : host.srv.World)
        → (host.srv.close_write (filepath (task_for cl (upload_request name content))) u).0 ≡ true)
    → locks.Held none w
    → (execute_upload host.srv (task_for cl (upload_request name content)) w).0.status ≡ pos 0
    → (c : client.State)
    → (c' c'' : client.State) × (send_line client (upload_line name) c ≡ some (true, c'))
      × (send_file client malloc (length content) content c' ≡ some (true, c''))
      × ((wire : Text) × (law'.written c'' ≡ law'.written c ++ wire)
          × ((s : host.net.State) (rest : Text)
              → law.pending s ≡ wire ++ rest
              → (d : Conn host) × (turn host g (record { size = size; conn = s; world = w })
                  ≡ again d)
                × (disk.file d.world (filepath (task_for cl (upload_request name content)))
                    ≡ some content)))
turn-send_file host law client law' whole o o' locks disk malloc name content size g cl w word
      no_zero short some_bytes fits room₁ room₂ room four who fits_slot flushes free ok c =
    let (c', c'', e, e', (wire, w', arrives)) =
      handle_cmd-send_file host law client law' whole o o' malloc name content size word no_zero
        short some_bytes fits room₁ room₂ room four c in
    let k = task_for cl (upload_request name content) in
    let stored =
      execute_upload-Stored host.srv locks disk k content w refl refl fits_slot flushes free ok in
    (
      c',
      c'',
      e,
      e',
      (
        wire,
        w',
        λ s rest p.
            let (d, round, world) =
              turn-Arrived host law o name content rest size s w g cl who (arrives s rest p) in
            (d, round, ap (λ x. disk.file x (filepath k)) world ∙ stored.contents),
      ),
    )
