-- ===== src/Session/Serve/Ends.antt =====
-- A connection ends: each command takes at least one byte of what the client will ever send.
use client_worker_thread_poo.Base.{
  ℕ, zero, suc, ◌≤◌, ◌<◌, ◌≡◌, refl, ap, Bool, true, false, Option, none, some, [], ◌∷◌, ◌++◌,
  arith, Text, codes, length, take, ltb, Bool-cases, inl, inr, if◌then◌else◌,
}
use client_worker_thread_poo.Utility.Transfer.{Received, failed, got, IsStream, IsDuplex}
use client_worker_thread_poo.Task.Defs.{Task}
use client_worker_thread_poo.Session.Defs.{Gahak, Request, little_endian}
use client_worker_thread_poo.Session.Serve.Defs.{
  Host, bytes_of, overlay, as_size, terminated, Line, closed, endless, text, line_of, auth_resp,
  Conn, Turn, ended, again, overrun, unfinished, read_line, after_send, respond, after_task,
  after_request, after_line, turn, next_round, serve_loop, sign_in, after_auth, after_sign_in,
  after_first, serve,
}
use client_worker_thread_poo.Session.Serve.Quiet.{
  NoMore, send_message-result, send_response-result, handle_cmd-NoMore, recv_spent,
}

module _ (host : Host) (law : IsStream host.net) (duplex : IsDuplex host.net law) where
  open host use {srv, net, malloc, block}

  abbrev left : net.State → ℕ
  left s = length (law.pending s)

  -- A line has taken a byte.
  abbrev Spent : net.State → Line × Text × net.State → Type 0
  Spent s (closed, size, u) = Unit {0}
  Spent s (endless, size, u) = Unit {0}
  Spent s (text l, size, u) = length (law.pending u) < length (law.pending s)

  by_tests :
      (c d e : Bool) (o : Option Text) (size size' : Text) (s s₁ s₂ : net.State)
      → (c ≡ true → left s₂ < left s)
      → Spent s (
          if c
          then if d
            then if e then (line_of o, size', s₂) else (closed, size', s₂)
            else (closed, size', s₁)
          else (closed, size, s₁))
  by_tests false d e o size size' s s₁ s₂ h = tt
  by_tests true false e o size size' s s₁ s₂ h = tt
  by_tests true true false o size size' s s₁ s₂ h = tt
  by_tests true true true none size size' s s₁ s₂ h = tt
  by_tests true true true (some l) size size' s s₁ s₂ h = h refl

  took_some :
      (s u : net.State) (r : Received)
      → net.recv 4 s ≡ (r, u)
      → ltb 0 (length (bytes_of r)) ≡ true
      → left u < left s
  took_some s u (failed k) e h = absurd (ground arith)
  took_some s u (got b) e h = recv_spent net malloc law duplex 4 s u (got b) b (omega arith) e refl

  read_line-Spent : (size : Text) (s : net.State) → Spent s (read_line host size s)
  unfolding read_line
  read_line-Spent size s =
      let (r, s₁) = net.recv 4 s in
      let size' = overlay (bytes_of r) size in
      let n = as_size (little_endian size') in
      let (r', s₂) = net.recv n s₁ in
      by_tests (ltb 0 (length (bytes_of r))) (malloc n) (ltb 0 (length (bytes_of r')))
        (terminated (overlay (bytes_of r') (take n (block n)))) size size' s s₁ s₂
        (λ h.
          let first = took_some s s₁ r refl h in let second = duplex.recv_less n s₁ in omega arith)

  -- A round that goes on leaves fewer than `k` bytes.
  abbrev Progress : ℕ → Turn host → Type 0
  Progress k (ended c) = Unit {0}
  Progress k (again c) = length (law.pending c.conn) < k
  Progress k overrun = Unit {0}
  Progress k unfinished = ⊥

  after_send-Progress :
      (k : ℕ) (c : Conn host) (o : Option net.State) (s' : net.State)
      → o ≡ some s'
      → left s' < k
      → Progress k (after_send host c o)
  after_send-Progress k c o s' e h = rw e h

  respond-Progress :
      (k : ℕ) (c : Conn host) (t : Task) → left c.conn < k → Progress k (respond host c t)
  unfolding respond
  respond-Progress k c t h = elim (Bool-cases (ltb 0 t.resp_len)) [
    | inl some_bytes ↦
        let (s', e, q) =
          send_response-result net malloc law duplex (take t.resp_len t.resp) c.conn in
        let less : left s' < k = omega (arith, ap length q) in rw (some_bytes, e) less
    | inr no_bytes ↦ rw no_bytes h
  ]

  after_task-Progress :
      (k : ℕ) (c : Conn host) (o : Option (Task × srv.World))
      → left c.conn < k
      → Progress k (after_task host c o)
  after_task-Progress k c none h = tt
  after_task-Progress k c (some (t, w)) h = respond-Progress k (record c { world = w }) t h

  after_request-Progress :
      (k : ℕ) (g : Gahak) (c : Conn host) (s : net.State) (o : Option (Option Request × net.State))
      → left s < k
      → NoMore net malloc law duplex s o
      → Progress k (after_request host g c o)
  after_request-Progress k g c s none h less = less
  after_request-Progress k g c s (some (none, u)) h less =
      let (s', e, q) =
        send_message-result net malloc law duplex (codes "INVALID COMMAND" ++ 0 ∷ []) u in
      after_send-Progress k (record c { conn = u }) _ s' e (omega (arith, ap length q))
  after_request-Progress k g c s (some (some q, u)) h less =
      after_task-Progress k (record c { conn = u }) _ (omega arith)

  after_line-Progress :
      (g : Gahak) (c : Conn host) (s : net.State) (l : Line)
      → Spent s (l, c.size, c.conn)
      → Progress (left s) (after_line host g c l)
  after_line-Progress g c s closed h = tt
  after_line-Progress g c s endless h = tt
  after_line-Progress g c s (text l) h =
      after_request-Progress (left s) g c c.conn _ h
        (handle_cmd-NoMore net malloc law duplex l c.conn)

  turn-Progress : (g : Gahak) (c : Conn host) → Progress (left c.conn) (turn host g c)
  unfolding turn
  turn-Progress g c =
      let (l, size', s) = read_line host c.size c.conn in
      after_line-Progress g (record c { size = size'; conn = s }) c.conn l
        (read_line-Spent c.size c.conn)

  -- The connection is closed, or C leaves open what happens.
  abbrev pub Stops : Turn host → Type 0
  Stops (ended c) = Unit {0}
  Stops (again c) = ⊥
  Stops overrun = Unit {0}
  Stops unfinished = ⊥

  next_round-Stops :
      (k : ℕ) (f : Conn host → Turn host) (t : Turn host)
      → Progress k t
      → ((c : Conn host) → left c.conn < k → Stops (f c))
      → Stops (next_round host f t)
  next_round-Stops k f (ended c) p h = tt
  next_round-Stops k f (again c) p h = h c p
  next_round-Stops k f overrun p h = tt
  next_round-Stops k f unfinished p h = p

  serve_loop-Stops :
      (fuel : ℕ) (g : Gahak) (c : Conn host) → left c.conn < fuel → Stops (serve_loop host fuel g c)
  unfolding serve_loop
  serve_loop-Stops zero g c h = absurd (omega arith)
  serve_loop-Stops (suc fuel) g c h =
      next_round-Stops (left c.conn) (serve_loop host fuel g) (turn host g c) (turn-Progress g c)
        (λ d less. serve_loop-Stops fuel g d (omega arith))

  after_auth-Stops :
      (fuel : ℕ) (ok : Bool) (g : Gahak) (c : Conn host) (o : Option net.State) (s' : net.State)
      → o ≡ some s'
      → left s' < fuel
      → Stops (after_auth host fuel ok g c o)
  after_auth-Stops fuel true g c o s' e h =
      rw e (serve_loop-Stops fuel g (record c { conn = s' }) h)
  after_auth-Stops fuel false g c o s' e h = rw e tt

  after_sign_in-Stops :
      (fuel : ℕ) (c : Conn host) (o : Option ((Bool × Gahak) × srv.World))
      → left c.conn < fuel
      → Stops (after_sign_in host fuel c o)
  after_sign_in-Stops fuel c none h = tt
  after_sign_in-Stops fuel c (some ((ok, g), w)) h =
      let (s', e, q) = send_message-result net malloc law duplex (auth_resp ok) c.conn in
      after_auth-Stops fuel ok g (record c { world = w }) _ s' e (omega (arith, ap length q))

  after_first-Stops :
      (fuel : ℕ) (g : Gahak) (c : Conn host) (s : net.State) (l : Line)
      → left s ≤ fuel
      → Spent s (l, c.size, c.conn)
      → Stops (after_first host fuel g c l)
  after_first-Stops fuel g c s closed h less = tt
  after_first-Stops fuel g c s endless h less = tt
  after_first-Stops fuel g c s (text l) h less =
      after_sign_in-Stops fuel c (sign_in host l g c.world) (omega arith)

  -- A connection ends, whatever bytes the client sends, however they are cut, and whatever the
  -- workers make of its tasks. Over a stream on which sending does not touch what is still to come,
  -- with as many rounds as there are bytes to come: `handle_client` gets to the point where it closes
  -- the connection, or C leaves open what it does.
  pub serve-Stops :
      (fuel : ℕ) (g : Gahak) (c : Conn host)
      → length (law.pending c.conn) ≤ fuel
      → Stops (serve host fuel g c)
  unfolding serve
  serve-Stops fuel g c h =
      let (l, size', s) = read_line host c.size c.conn in
      after_first-Stops fuel g (record c { size = size'; conn = s }) c.conn l h
        (read_line-Spent c.size c.conn)
