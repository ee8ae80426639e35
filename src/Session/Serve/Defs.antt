-- ===== src/Session/Serve/Defs.antt =====
-- The functions of a connection. A buffer that a `recv` fills in part keeps the rest of what it held.
use client_worker_thread_poo.Base.{
  ℕ, zero, suc, ◌+◌, ◌-◌, ◌^◌, Bool, Option, none, some, [], ◌∷◌, ◌++◌, Text, codes, length, take,
  drop, ltb, ◌==◌, ◌>>=◌, if◌then◌else◌,
}
use client_worker_thread_poo.Base.Int.{pos, negsuc}
use client_worker_thread_poo.Utility.Transfer.{Socket, Received, failed, got}
use client_worker_thread_poo.Storage.Sqlite.{Sqlite}
use client_worker_thread_poo.Task.Services.{Services}
use client_worker_thread_poo.Task.Defs.{Cmd, Client, Task, execute_task}
use client_worker_thread_poo.Session.Defs.{
  Gahak, c_string, Folders, World, signup_login, Request, little_endian, handle_cmd,
}
use client_worker_thread_poo.Session.Wire.{send_message, send_response}

-- What a thread of the server stands on. The database and the folders are part of the world that all
-- threads share; `block n` is what a fresh block of `n` bytes holds.
pub record Host : Type 1 where
  pub srv : Services
  pub db : Sqlite
  pub dirs : Folders
  pub log10 : ℕ → ℕ
  pub net : Socket
  pub malloc : ℕ → Bool
  pub block : ℕ → Text
  pub look : srv.World → World db dirs log10
  pub store : World db dirs log10 → srv.World → srv.World

-- The bytes that arrived: none where the result is 0 or less.
abbrev pub bytes_of : Received → Text
bytes_of (failed k) = []
bytes_of (got b) = b

abbrev pub overlay : Text → Text → Text
overlay b buf = b ++ drop (length b) buf

-- An int as a `size_t`, both as bit patterns
abbrev pub as_size : ℕ → ℕ
as_size n = if ltb n (2 ^ 31) then n else n + (2 ^ 64 - 2 ^ 32)

-- The string at the start of a block, if it ends within the block.
unfoldable pub terminated : Text → Option Text
terminated [] = none
terminated (b ∷ buf) =
    let rest = terminated buf in if b == 0 then some [] else (rest >>= λ s. some (b ∷ s))

-- `endless`: a string that goes on behind its block
pub data Line : Type 0 where
  closed : Line
  endless : Line
  text : Text → Line

abbrev pub line_of : Option Text → Line
line_of none = endless
line_of (some s) = text s

-- The name is read up to its zero; the id is negative if `get_user_id` has failed, and then
-- `execute_task` writes it past the end of a buffer.
abbrev pub client_of : Gahak → Option Client
client_of g = elim g.user_id [
  | pos n ↦ some (record { user_id = n; username = c_string g.username })
  | negsuc n ↦ none
]

abbrev pub payload_of : Cmd → Text → Option Text
payload_of Cmd.upload b = some b
payload_of Cmd.download b = none
payload_of Cmd.delete b = none
payload_of Cmd.list b = none
payload_of Cmd.unknown b = none

abbrev pub task_for : Client → Request → Task
task_for cl q = record {
  cmd = q.cmd;
  gahak = cl;
  filename = q.filename;
  payload = payload_of q.cmd q.payload;
  payload_len = q.payload_len;
  status = pos 0;
  resp = [];
  resp_len = 0;
}

abbrev pub auth_resp : Bool → Text
auth_resp ok = (if ok then codes "AUTH SUCCESS" else codes "AUTH FAILED") ++ 0 ∷ []

module _ (host : Host) where
  open host use {srv, db, dirs, log10, net, malloc, block, look, store}

  -- `size` is the memory of `CmdSize`.
  pub record Conn : Type 0 where
    pub size : Text
    pub conn : net.State
    pub world : srv.World

  -- After a round: the connection is to be closed, or read again, or C leaves open what happens (a
  -- line without a final zero, a name that overruns its buffer at LOGIN, a LIST that does, a negative
  -- id), or the rounds have run out.
  pub data Turn : Type 0 where
    ended : Conn → Turn
    again : Conn → Turn
    overrun : Turn
    unfinished : Turn

  -- `recv` of `CmdSize`, `malloc`, and `recv` of the line. A `recv` into NULL fails and reads nothing.
  unfoldable pub read_line : Text → net.State → Line × Text × net.State
  read_line size s =
      let (r, s₁) = net.recv 4 s in
      let head = bytes_of r in
      let size' = overlay head size in
      let n = as_size (little_endian size') in
      let (r', s₂) = net.recv n s₁ in
      let body = bytes_of r' in
      if ltb 0 (length head)
      then if malloc n
        then if ltb 0 (length body)
          then (line_of (terminated (overlay body (take n (block n)))), size', s₂)
          else (closed, size', s₂)
        else (closed, size', s₁)
      else (closed, size, s₁)

  abbrev pub after_send : Conn → Option net.State → Turn
  after_send c none = unfinished
  after_send c (some s) = again (record c { conn = s })

  -- The response of a task that is done
  unfoldable pub respond : Conn → Task → Turn
  respond c k =
      after_send c (
        if ltb 0 k.resp_len then send_response net (take k.resp_len k.resp) c.conn else some c.conn)

  abbrev pub after_task : Conn → Option (Task × srv.World) → Turn
  after_task c none = overrun
  after_task c (some (k, w)) = respond (record c { world = w }) k

  abbrev pub after_request : Gahak → Conn → Option (Option Request × net.State) → Turn
  after_request g c none = unfinished
  after_request g c (some (none, s)) =
      after_send (record c { conn = s }) (send_message net (codes "INVALID COMMAND" ++ 0 ∷ []) s)
  after_request g c (some (some q, s)) =
      after_task (record c { conn = s })
        (client_of g >>= λ cl. execute_task srv (task_for cl q) c.world)

  abbrev pub after_line : Gahak → Conn → Line → Turn
  after_line g c closed = ended c
  after_line g c endless = overrun
  after_line g c (text l) = after_request g c (handle_cmd net malloc l c.conn)

  -- One round of the loop
  unfoldable pub turn : Gahak → Conn → Turn
  turn g c =
      let (l, size', s) = read_line c.size c.conn in
      after_line g (record c { size = size'; conn = s }) l

  abbrev pub next_round : (Conn → Turn) → Turn → Turn
  next_round f (ended c) = ended c
  next_round f (again c) = f c
  next_round f overrun = overrun
  next_round f unfinished = unfinished

  unfoldable pub serve_loop : (fuel : ℕ) → Gahak → Conn → Turn
  serve_loop zero g c = unfinished
  serve_loop (suc fuel) g c = next_round (serve_loop fuel g) (turn g c)

  -- `signup_login` in the world that all threads share
  abbrev pub stored :
      srv.World
      → Option ((Bool × Gahak) × World db dirs log10)
      → Option ((Bool × Gahak) × srv.World)
  stored w none = none
  stored w (some (r, d)) = some (r, store d w)

  unfoldable pub sign_in : Text → Gahak → srv.World → Option ((Bool × Gahak) × srv.World)
  sign_in line g w = stored w (signup_login db dirs log10 line g (look w))

  abbrev pub after_auth : (fuel : ℕ) → Bool → Gahak → Conn → Option net.State → Turn
  after_auth fuel ok g c none = unfinished
  after_auth fuel ok g c (some s) =
      let c' = record c { conn = s } in
      let served = serve_loop fuel g c' in if ok then served else ended c'

  abbrev pub after_sign_in : (fuel : ℕ) → Conn → Option ((Bool × Gahak) × srv.World) → Turn
  after_sign_in fuel c none = overrun
  after_sign_in fuel c (some ((ok, g), w)) =
      after_auth fuel ok g (record c { world = w }) (send_message net (auth_resp ok) c.conn)

  abbrev pub after_first : (fuel : ℕ) → Gahak → Conn → Line → Turn
  after_first fuel g c closed = ended c
  after_first fuel g c endless = overrun
  after_first fuel g c (text l) = after_sign_in fuel c (sign_in l g c.world)

  -- A connection that was taken from the queue, with what the stack holds at `Gahak` and `CmdSize`
  unfoldable pub serve : (fuel : ℕ) → Gahak → Conn → Turn
  serve fuel g c =
      let (l, size', s) = read_line c.size c.conn in
      after_first fuel g (record c { size = size'; conn = s }) l
