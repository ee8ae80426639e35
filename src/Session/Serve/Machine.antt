-- ===== src/Session/Serve/Machine.antt =====
-- A server in memory and what its clients send.
use client_worker_thread_poo.Base.{◌+◌, true, [], ◌∷◌, ◌++◌, Text, codes, length, replicate}
use client_worker_thread_poo.Base.Int.{pos}
use client_worker_thread_poo.Utility.Transfer.{Socket}
use client_worker_thread_poo.Storage.Memory.{memory}
use client_worker_thread_poo.Task.Disk.{disk}
use client_worker_thread_poo.Session.Defs.{Gahak}
use client_worker_thread_poo.Session.Wire.{bytes}
use client_worker_thread_poo.Session.Serve.Defs.{Host}

abbrev pub host_on : Socket → Host
host_on net = record {
  srv = disk;
  db = memory;
  dirs = record { State = _; mkdir = λ n d. (true, n ∷ d) };
  log10 = λ n. 0;
  net = net;
  malloc = λ n. true;
  block = λ n. replicate n 170;
  look = λ d. d.accounts;
  store = λ a d. record d { accounts = a };
}

abbrev pub nobody : Gahak
nobody = record { user_id = pos 0; username = replicate 256 0 }

-- What test_client.c sends for a line.
abbrev pub line_frame : Text → Text
line_frame l = bytes 4 (length l + 1) ++ (l ++ 0 ∷ [])

abbrev pub message : Text → Text
message m = bytes 8 (length m) ++ m

abbrev pub sign_up : Text
sign_up = line_frame (codes "SIGNUP ann pw")
