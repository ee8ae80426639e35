-- ===== src/Utility/Transfer.antt =====
-- `send_all` and `recv_all` of utility.c. The socket is a parameter: what `recv` and `send` return,
-- and what they leave, is up to the operating system.
use client_worker_thread_poo.Base.{
  ℕ, zero, suc, ◌+◌, ◌-◌, ◌≤◌, ◌<◌, ◌≡◌, ◌≢◌, refl, sym, ap, ◌∙◌, Option, none, some, [], ◌∷◌, ◌++◌,
  arith, Text, length, length-append, length-drop, take, drop, take-append-drop, ltb, Bool-cases,
  ◌⊎◌, inl, inr, if◌then◌else◌,
}
use client_worker_thread_poo.Base.Int.{ℤ, pos, sub_ℕ}
use mathlib.Core.List.{append_assoc, append-nil}

-- `failed k` stands for the result -k (0: the peer has closed the connection), `moved` for the
-- number of bytes, and the bytes themselves, that were received.
pub data Received : Type 0 where
  failed : ℕ → Received
  got : Text → Received

pub data Sent : Type 0 where
  refused : ℕ → Sent
  took : ℕ → Sent

pub record Socket : Type 1 where
  pub State : Type 0
  pub recv : ℕ → State → Received × State
  pub send : Text → State → Sent × State

-- What the two calls promise of a stream: `recv` gives at least one byte and at most as many as were
-- asked for, the next ones that are to come; `send` takes at least one byte, and at most all.
pub record IsStream (net : Socket) : Type 0 where
  pub pending : net.State → Text
  pub written : net.State → Text
  pub recv_some :
      (k : ℕ) (s s' : net.State) (b : Text)
      → 0 < k
      → net.recv k s ≡ (got b, s')
      → (0 < length b) × (length b ≤ k) × (pending s ≡ b ++ pending s')
  pub send_some :
      (b : Text) (s s' : net.State) (k : ℕ)
      → 0 < length b
      → net.send b s ≡ (took k, s')
      → (0 < k) × (k ≤ length b) × (written s' ≡ written s ++ take k b)

-- `recv` fails only when nothing more is to come; `send` does not fail.
pub record IsOpen (net : Socket) (law : IsStream net) : Type 0 where
  pub recv_open : (k j : ℕ) (s s' : net.State) → net.recv k s ≡ (failed j, s') → law.pending s ≡ []
  pub send_open :
      (k : ℕ) (b : Text) (s s' : net.State) → 0 < length b → net.send b s ≢ (refused k, s')

-- `recv` gives all that it asks for, or all that is there.
pub record IsWhole (net : Socket) (law : IsStream net) : Type 0 where
  pub recv_whole :
      (k : ℕ) (s : net.State)
      → 0 < length (law.pending s)
      → (net.recv k s).0 ≡ got (take k (law.pending s))

-- `pending` is all that is still to come: `recv` takes from it, `send` leaves it alone.
pub record IsDuplex (net : Socket) (law : IsStream net) : Type 0 where
  pub recv_less :
      (k : ℕ) (s : net.State) → length (law.pending (net.recv k s).1) ≤ length (law.pending s)
  pub send_quiet : (b : Text) (s : net.State) → law.pending (net.send b s).1 ≡ law.pending s

-- minus `k`
abbrev pub minus : ℕ → ℤ
minus k = sub_ℕ 0 k

module _ (net : Socket) where
  open net use {State, recv, send}

  -- The result of `recv_all`, the bytes in the buffer, and the socket; `none` is out of fuel.
  unfoldable pub recv_loop : (fuel len : ℕ) → Text → State → Option (ℤ × Text × State)
  recv_loop zero len buf s = none
  recv_loop (suc fuel) len buf s =
      let (r, s') = recv (len - length buf) s in
      let step : Option (ℤ × Text × State) = elim r [
        | failed k ↦ some (minus k, buf, s')
        | got b ↦ recv_loop fuel len (buf ++ b) s'
      ] in
      if ltb (length buf) len then step else some (pos (length buf), buf, s)

  unfoldable pub recv_all : ℕ → State → Option (ℤ × Text × State)
  recv_all len s = recv_loop (suc len) len [] s

  unfoldable pub send_loop : (fuel total : ℕ) → Text → State → Option (ℤ × State)
  send_loop zero total rest s = none
  send_loop (suc fuel) total rest s =
      let (r, s') = send rest s in
      let step : Option (ℤ × State) = elim r [
        | refused k ↦ some (minus k, s')
        | took k ↦ send_loop fuel (total + k) (drop k rest) s'
      ] in
      if ltb 0 (length rest) then step else some (pos total, s)

  unfoldable pub send_all : Text → State → Option (ℤ × State)
  send_all buf s = send_loop (suc (length buf)) 0 buf s

nil_of_length : (xs : Text) → length xs ≡ 0 → xs ≡ []
nil_of_length [] h = refl
nil_of_length (x ∷ xs) h = absurd (omega arith)

Received-cases : (r : Received) → ((k : ℕ) × (r ≡ failed k)) ⊎ ((b : Text) × (r ≡ got b))
Received-cases (failed k) = inl (k, refl)
Received-cases (got b) = inr (b, refl)

Sent-cases : (r : Sent) → ((k : ℕ) × (r ≡ refused k)) ⊎ ((k : ℕ) × (r ≡ took k))
Sent-cases (refused k) = inl (k, refl)
Sent-cases (took k) = inr (k, refl)

module _ (net : Socket) (law : IsStream net) where
  open net use {State, recv, send}
  open law use {pending, written, recv_some, send_some}

  -- `recv_all` fails with the result of a `recv`, or fills the buffer with the next bytes.
  pub data RecvAll (len : ℕ) (buf : Text) (s : State) : Option (ℤ × Text × State) → Type 0 where
    broken :
        (k j : ℕ) (buf' more : Text) (t s' : State)
        → buf' ≡ buf ++ more
        → length buf' < len
        → pending s ≡ more ++ pending t
        → recv j t ≡ (failed k, s')
        → RecvAll len buf s (some (minus k, buf', s'))
    filled :
        (buf' more : Text) (s' : State)
        → buf' ≡ buf ++ more
        → length buf' ≡ len
        → pending s ≡ more ++ pending s'
        → RecvAll len buf s (some (pos len, buf', s'))

  RecvAll-step :
      (len : ℕ) (buf b : Text) (s s' : State) (o : Option (ℤ × Text × State))
      → pending s ≡ b ++ pending s'
      → RecvAll len (buf ++ b) s' o
      → RecvAll len buf s o
  RecvAll-step len buf b s s' _ e (broken k j buf' more t u eb lt ep f) =
      broken k j buf' (b ++ more) t u (eb ∙ append_assoc buf b more) lt
        (e ∙ ap (◌++◌ b) ep ∙ sym (append_assoc b more (pending t))) f
  RecvAll-step len buf b s s' _ e (filled buf' more u eb el ep) =
      filled buf' (b ++ more) u (eb ∙ append_assoc buf b more) el
        (e ∙ ap (◌++◌ b) ep ∙ sym (append_assoc b more (pending u)))

  recv_loop-RecvAll :
      (fuel len : ℕ) (buf : Text) (s : State)
      → length buf ≤ len
      → len - length buf < fuel
      → RecvAll len buf s (recv_loop net fuel len buf s)
  unfolding recv_loop
  recv_loop-RecvAll zero len buf s h lt = absurd (omega arith)
  recv_loop-RecvAll (suc fuel) len buf s h lt = elim (Bool-cases (ltb (length buf) len)) [
    | inl more ↦ elim (Received-cases (recv (len - length buf) s).0) [
      | inl (k, e) ↦
          rw (more, e, recv_loop)
            (broken k (len - length buf) buf [] s _ (sym (append-nil buf)) (ground arith) refl
              (λ i. (e i, (recv (len - length buf) s).1)))
      | inr (b, e) ↦
          let s' = (recv (len - length buf) s).1 in
          let (some_bytes, not_more, next) =
            recv_some (len - length buf) s s' b (ground arith) (λ i. (e i, s')) in
          let longer : length (buf ++ b) ≡ length buf + length b = length-append buf b in
          let ih = recv_loop-RecvAll fuel len (buf ++ b) s' (ground arith) (ground arith) in
          rw (more, e, recv_loop) (RecvAll-step len buf b s s' _ next ih)
    ]
    | inr done ↦
        let full : length buf ≡ len = ground arith in
        rw (done, full) (filled buf [] s (sym (append-nil buf)) full refl)
  ]

  -- Over a stream, `recv_all` ends. Either a `recv` failed, when fewer bytes than asked for, the
  -- next ones of the stream, had come, and it returns that result; or it returns `len`, and the buffer holds exactly the next `len` bytes of the stream, however the
  -- stream was cut into pieces.
  pub recv_all-RecvAll : (len : ℕ) (s : State) → RecvAll len [] s (recv_all net len s)
  unfolding recv_all
  recv_all-RecvAll len s = recv_loop-RecvAll (suc len) len [] s (omega arith) (omega arith)

  -- `send_all` fails with the result of a `send`, or writes all that is left.
  pub data SendAll (total : ℕ) (rest : Text) (s : State) : Option (ℤ × State) → Type 0 where
    stopped :
        (k : ℕ) (left : Text) (t s' : State)
        → 0 < length left
        → send left t ≡ (refused k, s')
        → SendAll total rest s (some (minus k, s'))
    sent :
        (n : ℕ) (s' : State)
        → n ≡ total + length rest
        → written s' ≡ written s ++ rest
        → SendAll total rest s (some (pos n, s'))

  SendAll-step :
      (total k : ℕ) (rest : Text) (s s' : State) (o : Option (ℤ × State))
      → k ≤ length rest
      → written s' ≡ written s ++ take k rest
      → SendAll (total + k) (drop k rest) s' o
      → SendAll total rest s o
  SendAll-step total k rest s s' _ h e (stopped m left t u p f) = stopped m left t u p f
  SendAll-step total k rest s s' _ h e (sent n u en ew) =
      sent n u (omega (arith, en, length-drop k rest)) (
        ew
        ∙ ap (λ w. w ++ drop k rest) e
        ∙ append_assoc (written s) (take k rest) (drop k rest)
        ∙ ap (◌++◌ (written s)) (take-append-drop k rest))

  send_loop-SendAll :
      (fuel total : ℕ) (rest : Text) (s : State)
      → length rest < fuel
      → SendAll total rest s (send_loop net fuel total rest s)
  unfolding send_loop
  send_loop-SendAll zero total rest s lt = absurd (omega arith)
  send_loop-SendAll (suc fuel) total rest s lt = elim (Bool-cases (ltb 0 (length rest))) [
    | inl more ↦ elim (Sent-cases (send rest s).0) [
      | inl (k, e) ↦
          rw (more, e, send_loop) (stopped k rest s _ (ground arith) (λ i. (e i, (send rest s).1)))
      | inr (k, e) ↦
          let s' = (send rest s).1 in
          let (some_bytes, not_more, next) =
            send_some rest s s' k (ground arith) (λ i. (e i, s')) in
          let ih =
            send_loop-SendAll fuel (total + k) (drop k rest) s'
              (omega (arith, length-drop k rest)) in
          rw (more, e, send_loop) (SendAll-step total k rest s s' _ not_more next ih)
    ]
    | inr done ↦
        let empty : rest ≡ [] = nil_of_length rest (ground arith) in
        rw (done, send_loop) (sent total s (ground arith) (rw empty (sym (append-nil (written s)))))
  ]

  -- Over a stream, `send_all` ends. Either a `send` of bytes that were left failed and it returns that result; or it returns
  -- the length of the buffer, and the whole buffer was written, once and in order.
  pub send_all-SendAll : (buf : Text) (s : State) → SendAll 0 buf s (send_all net buf s)
  unfolding send_all
  send_all-SendAll buf s = send_loop-SendAll (suc (length buf)) 0 buf s (omega arith)
