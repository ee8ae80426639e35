-- ===== src/Session/Commands.antt =====
-- What `handleCmd` reads of the connection.
use client_worker_thread_poo.Base.{
  ℕ, zero, suc, ◌≤◌, ◌<◌, ◌≡◌, ◌≢◌, refl, sym, ap, ◌∙◌, Bool, true, false, Option, none, some, [],
  ◌++◌, arith, Text, codes, length, str_eq, str_eq_refl, Bool-cases, inl, inr, if◌then◌else◌,
}
use client_worker_thread_poo.Base.Int.{ℤ, pos}
use client_worker_thread_poo.Utility.Words.{first_word}
use client_worker_thread_poo.Utility.Transfer.{
  Socket, Received, failed, got, IsStream, minus, recv_loop, recv_all, RecvAll, broken, filled,
  recv_all-RecvAll,
}
use client_worker_thread_poo.Task.Defs.{upload, download, delete, list}
use client_worker_thread_poo.Session.Defs.{
  Request, little_endian, is_positive, after_payload, after_length, upload_cmd, plain, handle_cmd,
}

minus_not_positive : (k : ℕ) → is_positive (minus k) ≡ false
minus_not_positive zero = refl
minus_not_positive (suc k) = ground arith

either : {A : Type 0} (c : Bool) (x : A) → (if c then x else x) ≡ x
either true x = refl
either false x = refl

module _ (net : Socket) (malloc : ℕ → Bool) (law : IsStream net) where
  open net use {State, recv}
  open law use {pending}

  -- The bytes of the length, and then the payload, are the next ones of the stream.
  abbrev pub Frame : State → Request → State → Type 0
  Frame s q s' =
      (b : Text) × (length b ≤ 8)
      × (q.payload_len ≡ little_endian b)
      × (0 < q.payload_len)
      × (length q.payload ≡ q.payload_len)
      × (pending s ≡ b ++ (q.payload ++ pending s'))

  abbrev Fits : State → Request → State → Type 0
  Fits s q s' = (q.cmd ≡ upload → Frame s q s') × (q.cmd ≢ upload → s' ≡ s)

  -- There is a result; an UPLOAD has read its frame, and another request has read nothing.
  abbrev pub Framed : State → Option (Option Request × State) → Type 0
  Framed s none = ⊥
  Framed s (some (none, s')) = Unit {0}
  Framed s (some (some q, s')) = (q.cmd ≡ upload → Frame s q s') × (q.cmd ≢ upload → s' ≡ s)

  if_positive :
      (c : Bool) (s s' : State) (q : Request)
      → (c ≡ true → Fits s q s')
      → Framed s (some ((if c then some q else none), s'))
  if_positive true s s' q f = f refl
  if_positive false s s' q f = tt

  after_payload-Framed :
      (filename b : Text) (s u : State) (o : Option (ℤ × Text × State))
      → length b ≤ 8
      → pending s ≡ b ++ pending u
      → RecvAll net law (little_endian b) [] u o
      → Framed s (after_payload net malloc filename (little_endian b) o)
  after_payload-Framed filename b s u o short first (broken k j buf more t s' eb lt ep e) =
      rw (minus_not_positive k) tt
  after_payload-Framed filename b s u o short first (filled buf more s' eb el ep) =
      if_positive (is_positive (pos (little_endian b))) s s' _ (λ some_bytes. (
        λ _. (
          b,
          short,
          refl,
          (ground arith),
          el,
          first ∙ ap (◌++◌ b) (ep ∙ ap (λ x. x ++ pending s') (sym eb)),
        ),
        λ other. absurd (other refl),
      ))

  after_length-Framed :
      (filename : Text) (s u : State) (r : Received)
      → recv 8 s ≡ (r, u)
      → Framed s (after_length net malloc filename r u)
  unfolding after_length
  after_length-Framed filename s u (failed k) e = tt
  after_length-Framed filename s u (got b) e =
      let (some_bytes, short, first) = law.recv_some 8 s u b (omega arith) e in
      elim (Bool-cases (malloc (little_endian b))) [
        | inr no_room ↦ rw no_room tt
        | inl room ↦ rw room (
            after_payload-Framed filename b s u _ short first
              (recv_all-RecvAll net law (little_endian b) u))
      ]

  chosen :
      (c d e f : Bool) (filename : Text) (s : State)
      → Framed s (
          if c
          then upload_cmd net malloc filename s
          else if d
          then some (some (plain net malloc download filename), s)
          else if e
          then some (some (plain net malloc delete filename), s)
          else if f
          then some (some (plain net malloc list []), s)
          else some (none, s))
  unfolding upload_cmd
  chosen true d e f filename s = after_length-Framed filename s (recv 8 s).1 (recv 8 s).0 refl
  chosen false true e f filename s = ((λ h. cc), (λ _. refl))
  chosen false false true f filename s = ((λ h. cc), (λ _. refl))
  chosen false false false true filename s = ((λ h. cc), (λ _. refl))
  chosen false false false false filename s = tt

  -- Over a stream, `handleCmd` ends, on every line. Where it accepts an UPLOAD, the next bytes of the
  -- stream were at most 8 bytes, whose number is the length of the payload, then the payload, which
  -- has exactly that length and is not empty; nothing more was read. Where it accepts another
  -- command, nothing was read.
  pub handle_cmd-Framed : (line : Text) (s : State) → Framed s (handle_cmd net malloc line s)
  unfolding handle_cmd
  handle_cmd-Framed line s =
      let (what2do, rest) = first_word line in
      chosen (str_eq what2do (codes "UPLOAD")) (str_eq what2do (codes "DOWNLOAD"))
        (str_eq what2do (codes "DELETE")) (str_eq what2do (codes "LIST")) (first_word rest).0 s

  no_payload :
      (filename b : Text) (s u : State)
      → recv 8 s ≡ (got b, u)
      → little_endian b ≡ 0
      → upload_cmd net malloc filename s ≡ some (none, u)
  unfolding upload_cmd after_length recv_all recv_loop
  no_payload filename b s u e zero_bytes =
      rw (e, after_length, zero_bytes) (either (malloc 0) (some (none, u)))

  -- An UPLOAD whose announced length is 0 is refused as an invalid command, whatever `malloc(0)`
  -- returns: an empty file cannot be stored.
  pub handle_cmd-empty :
      (line b : Text) (s u : State)
      → (first_word line).0 ≡ codes "UPLOAD"
      → recv 8 s ≡ (got b, u)
      → little_endian b ≡ 0
      → handle_cmd net malloc line s ≡ some (none, u)
  unfolding handle_cmd
  handle_cmd-empty line b s u word e zero_bytes =
      rw (word, str_eq_refl (codes "UPLOAD"))
        (no_payload (first_word (first_word line).1).0 b s u e zero_bytes)
