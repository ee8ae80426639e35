-- ===== src/Session/Serve/Quiet.antt =====
-- What sending and reading make of the bytes that are still to come.
use client_worker_thread_poo.Base.{
  ℕ, zero, suc, ◌+◌, ◌≤◌, ◌<◌, ◌≡◌, refl, ap, subst, ◌∙◌, Bool, true, false, Option, none, some, [],
  arith, Text, codes, length, length-append, drop, str_eq, ltb, Bool-cases, inl, inr, if◌then◌else◌,
}
use client_worker_thread_poo.Base.Int.{ℤ, pos}
use client_worker_thread_poo.Utility.Words.{first_word}
use client_worker_thread_poo.Utility.Transfer.{
  Socket, Received, failed, got, Sent, refused, took, IsStream, IsDuplex, minus, send_loop,
  send_all, RecvAll, broken, filled, SendAll, stopped, sent, recv_all-RecvAll, send_all-SendAll,
}
use client_worker_thread_poo.Task.Defs.{download, delete, list}
use client_worker_thread_poo.Session.Defs.{
  little_endian, is_positive, after_payload, after_length, upload_cmd, plain, handle_cmd,
}
use client_worker_thread_poo.Session.Wire.{bytes, send_message, send_response}

module _ (net : Socket) (malloc : ℕ → Bool) (law : IsStream net) (duplex : IsDuplex net law) where
  open net use {State, recv, send}

  left : State → ℕ
  left s = length (law.pending s)

  abbrev Quiet : State → Option (ℤ × State) → Type 0
  Quiet s none = Unit {0}
  Quiet s (some (r, s')) = law.pending s' ≡ law.pending s

  Quiet-trans :
      (s u : State) (o : Option (ℤ × State)) → law.pending u ≡ law.pending s → Quiet u o → Quiet s o
  Quiet-trans s u none e q = tt
  Quiet-trans s u (some (r, s')) e q = q ∙ e

  Quiet-step :
      (s u : State) (r : Sent) (f : ℕ → Option (ℤ × State))
      → law.pending u ≡ law.pending s
      → ((k : ℕ) → Quiet u (f k))
      → Quiet s (elim r [ refused k ↦ some (minus k, u) | took k ↦ f k ])
  Quiet-step s u (refused k) f e q = e
  Quiet-step s u (took k) f e q = Quiet-trans s u (f k) e (q k)

  send_loop-Quiet :
      (fuel total : ℕ) (rest : Text) (s : State) → Quiet s (send_loop net fuel total rest s)
  unfolding send_loop
  send_loop-Quiet zero total rest s = tt
  send_loop-Quiet (suc fuel) total rest s = elim (Bool-cases (ltb 0 (length rest))) [
    | inr done ↦ rw done refl
    | inl more ↦
        let (r, u) = send rest s in
        rw more (
          Quiet-step s u r (λ k. send_loop net fuel (total + k) (drop k rest) u)
            (duplex.send_quiet rest s) (λ k. send_loop-Quiet fuel (total + k) (drop k rest) u))
  ]

  -- The whole buffer or a failure: there is a result.
  send_all-result :
      (b : Text) (s : State)
      → (r : ℤ) × ((s' : State) × (send_all net b s ≡ some (r, s'))
          × (law.pending s' ≡ law.pending s))
  unfolding send_all
  send_all-result b s =
      given _ (send_all-SendAll net law b s) (send_loop-Quiet (suc (length b)) 0 b s)
    where
      given :
          (o : Option (ℤ × State))
          → SendAll net law 0 b s o
          → Quiet s o
          → (r : ℤ) × ((s' : State) × (o ≡ some (r, s')) × (law.pending s' ≡ law.pending s))
      given _ (stopped k rest t s' p f) q = (minus k, (s', refl, q))
      given _ (sent n s' en ew) q = (pos n, (s', refl, q))

  pub send_message-result :
      (msg : Text) (s : State)
      → (s' : State) × (send_message net msg s ≡ some s') × (law.pending s' ≡ law.pending s)
  unfolding send_message
  send_message-result msg s =
      let (r₁, (s₁, e₁, q₁)) = send_all-result (bytes 8 (length msg)) s in
      let (r₂, (s₂, e₂, q₂)) = send_all-result msg s₁ in (s₂, rw (e₁, e₂) refl, q₂ ∙ q₁)

  pub send_response-result :
      (msg : Text) (s : State)
      → (s' : State) × (send_response net msg s ≡ some s') × (law.pending s' ≡ law.pending s)
  unfolding send_response
  send_response-result msg s =
      let (r₁, (s₁, e₁, q₁)) = send_all-result (bytes 8 (length msg)) s in
      let (r₂, (s₂, e₂, q₂)) = send_all-result msg s₁ in
      elim (Bool-cases (is_positive r₁)) [
        | inl ok ↦ (s₂, rw (e₁, e₂, ok) refl, q₂ ∙ q₁)
        | inr bad ↦ (s₁, rw (e₁, e₂, bad) refl, q₁)
      ]

  -- There is a result, and no byte has come back.
  abbrev pub NoMore : {A : Type 0} → State → Option (A × State) → Type 0
  NoMore s none = ⊥
  NoMore s (some (a, s')) = length (law.pending s') ≤ length (law.pending s)

  after_payload-NoMore :
      (filename : Text) (n : ℕ) (s u : State) (o : Option (ℤ × Text × State))
      → length (law.pending u) ≤ length (law.pending s)
      → RecvAll net law n [] u o
      → NoMore s (after_payload net malloc filename n o)
  after_payload-NoMore filename n s u _ h (broken k j buf more t s' eb lt ep f) =
      let less : length (law.pending s') ≤ length (law.pending t) =
        subst (λ (x : Received × State). length (law.pending x.1) ≤ length (law.pending t)) f
          (duplex.recv_less j t) in
      omega (arith, ap length ep, length-append {0} more (law.pending t))
  after_payload-NoMore filename n s u _ h (filled buf more s' eb el ep) =
      omega (arith, ap length ep, length-append {0} more (law.pending s'))

  after_length-NoMore :
      (filename : Text) (s u : State) (r : Received)
      → length (law.pending u) ≤ length (law.pending s)
      → NoMore s (after_length net malloc filename r u)
  unfolding after_length
  after_length-NoMore filename s u (failed k) h = h
  after_length-NoMore filename s u (got b) h = elim (Bool-cases (malloc (little_endian b))) [
    | inl room ↦ rw room (
        after_payload-NoMore filename (little_endian b) s u _ h
          (recv_all-RecvAll net law (little_endian b) u))
    | inr no_room ↦ rw no_room h
  ]

  chosen :
      (c d e f : Bool) (filename : Text) (s : State)
      → NoMore s (
          if c
          then upload_cmd net malloc filename s
          else if d
          then some (some (plain net malloc download filename), s)
          else if e
          then some (some (plain net malloc delete filename), s)
          else if f
          then some (some (plain net malloc list []), s)
          else some (none, s))
  unfolding upload_cmd
  chosen true d e f filename s =
      after_length-NoMore filename s (recv 8 s).1 (recv 8 s).0 (duplex.recv_less 8 s)
  chosen false true e f filename s = omega arith
  chosen false false true f filename s = omega arith
  chosen false false false true filename s = omega arith
  chosen false false false false filename s = omega arith

  pub handle_cmd-NoMore : (line : Text) (s : State) → NoMore s (handle_cmd net malloc line s)
  unfolding handle_cmd
  handle_cmd-NoMore line s =
      let (what2do, rest) = first_word line in
      chosen (str_eq what2do (codes "UPLOAD")) (str_eq what2do (codes "DOWNLOAD"))
        (str_eq what2do (codes "DELETE")) (str_eq what2do (codes "LIST")) (first_word rest).0 s

  -- A byte that was read is gone.
  pub recv_spent :
      (k : ℕ) (s u : State) (r : Received) (b : Text)
      → 0 < k
      → recv k s ≡ (r, u)
      → r ≡ got b
      → length (law.pending u) < length (law.pending s)
  recv_spent k s u r b pk e g =
      let (some_bytes, few, next) = law.recv_some k s u b pk (e ∙ ap (λ x. (x, u)) g) in
      omega (arith, ap length next, length-append {0} b (law.pending u))
