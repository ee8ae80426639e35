-- ===== src/Session/Wire.antt =====
-- How the server and the client of test_client.c put a message on the connection: its length as the
-- 8 bytes of a `size_t`, and then its bytes.
use native.Mathlib.Nat.{pow-suc}
use client_worker_thread_poo.Base.{
  ℕ, zero, suc, ◌/◌, ◌%◌, ◌^◌, ◌<◌, ◌≡◌, refl, sym, ap, subst, ◌∙◌, Bool, true, Option, none, some,
  [], ◌∷◌, ◌++◌, arith, Text, length, length-append, ltb, ◌>>=◌, if◌then◌else◌,
}
use client_worker_thread_poo.Base.Int.{ℤ, pos}
use client_worker_thread_poo.Utility.Transfer.{
  Socket, IsStream, IsOpen, recv_all, send_all, RecvAll, broken, filled, SendAll, stopped, sent,
  recv_all-RecvAll, send_all-SendAll,
}
use client_worker_thread_poo.Session.Defs.{little_endian, is_positive}
use mathlib.Core.List.{append_assoc, tail-eq_of_cons-eq}

-- The `k` bytes of a number in memory, the lowest first.
unfoldable pub bytes : (k n : ℕ) → Text
bytes zero n = []
bytes (suc k) n = n % 256 ∷ bytes k (n / 256)

module _ (net : Socket) where
  open net use {State}

  -- `send_all` of the length and of the text; what they return is not read.
  unfoldable pub send_message : Text → State → Option State
  send_message msg s = do
    (_, s₁) ← send_all net (bytes 8 (length msg)) s
    (_, s₂) ← send_all net msg s₁
    some s₂

  -- A response: the text is sent if the length went out.
  unfoldable pub send_response : Text → State → Option State
  send_response resp s = do
    (r, s₁) ← send_all net (bytes 8 (length resp)) s
    (_, s₂) ← send_all net resp s₁
    some (if is_positive r then s₂ else s₁)

  -- The client: the message, or `none` inside if one of its calls failed
  unfoldable pub recv_message : (malloc : ℕ → Bool) → State → Option (Option Text × State)
  recv_message malloc s = do
    (r, b, s₁) ← recv_all net 8 s
    (r', msg, s₂) ← recv_all net (little_endian b) s₁
    some (
        if is_positive r
        then if malloc (little_endian b)
          then ((if is_positive r' then some msg else none), s₂)
          else (none, s₁)
        else (none, s₁))

-- The bytes of a number give it back.
pub length-bytes : (k n : ℕ) → length (bytes k n) ≡ k
unfolding bytes
length-bytes zero n = refl
length-bytes (suc k) n = ap suc (length-bytes k (n / 256))

pub little_endian-bytes : (k n : ℕ) → n < 256 ^ k → little_endian (bytes k n) ≡ n
unfolding bytes little_endian
little_endian-bytes zero n h = omega arith
little_endian-bytes (suc k) n h =
    let later : n / 256 < 256 ^ k = omega (arith, pow-suc 256 k) in
    rw (little_endian-bytes k (n / 256) later) (omega arith)

-- Two cuts of one text at the same place.
pub same_cut : (a b c d : Text) → length a ≡ length c → a ++ b ≡ c ++ d → (a ≡ c) × (b ≡ d)
same_cut [] b [] d l e = (refl, e)
same_cut [] b (z ∷ c) d l e = absurd (omega arith)
same_cut (x ∷ a) b [] d l e = absurd (omega arith)
same_cut (x ∷ a) b (z ∷ c) d l e =
    let (u, v) = same_cut a b c d (omega arith) (tail-eq_of_cons-eq e) in (cc, v)

module _ (net : Socket) (law : IsStream net) where
  open net use {State, recv, send}
  open law use {pending, written}

  module _ (open_yet : IsOpen net law) where
    pub received :
        (msg rest : Text) (s : State) (o : Option (ℤ × Text × State))
        → pending s ≡ msg ++ rest
        → RecvAll net law (length msg) [] s o
        → (s' : State) × (o ≡ some (pos (length msg), msg, s')) × (pending s' ≡ rest)
    received msg rest s o e (broken k j buf more t s' eb lt ep f) =
        let done : pending t ≡ [] = open_yet.recv_open j k t s' f in
        absurd (
          omega (
            arith,
            length-append {0} msg rest,
            length-append {0} more [],
            ap length eb,
            ap length (sym e ∙ ep ∙ ap (◌++◌ more) done),
          ))
    received msg rest s o e (filled buf more s' eb el ep) =
        let (whole, left) =
          same_cut more (pending s') msg rest (sym (ap length eb) ∙ el) (sym ep ∙ e) in
        (s', ap (λ x. some (pos (length msg), x, s')) (eb ∙ whole), left)

    pub sent_off :
        (msg : Text) (s : State) (o : Option (ℤ × State))
        → SendAll net law 0 msg s o
        → (s' : State) × (o ≡ some (pos (length msg), s')) × (written s' ≡ written s ++ msg)
    sent_off msg s o (stopped k left t s' p f) = absurd (open_yet.send_open k left t s' p f)
    sent_off msg s o (sent n s' en ew) =
        let whole : n ≡ length msg = omega (arith, en) in (s', ap (λ x. some (pos x, s')) whole, ew)

    -- What goes over the connection for a message.
    abbrev frame : Text → Text
    frame msg = bytes 8 (length msg) ++ msg

    both_sent :
        (msg : Text) (s : State)
        → (s₁ s₂ : State) × (send_all net (bytes 8 (length msg)) s ≡ some (pos 8, s₁))
          × (send_all net msg s₁ ≡ some (pos (length msg), s₂))
          × (written s₂ ≡ written s ++ frame msg)
    both_sent msg s =
        let head = bytes 8 (length msg) in
        let (s₁, e₁, w₁) = sent_off head s _ (send_all-SendAll net law head s) in
        let (s₂, e₂, w₂) = sent_off msg s₁ _ (send_all-SendAll net law msg s₁) in
        (
          s₁,
          s₂,
          e₁ ∙ ap (λ n. some (pos n, s₁)) (length-bytes 8 (length msg)),
          e₂,
          w₂ ∙ ap (λ x. x ++ msg) w₁ ∙ append_assoc (written s) head msg,
        )

    pub send_message-frame :
        (msg : Text) (s : State)
        → (s' : State) × (send_message net msg s ≡ some s') × (written s' ≡ written s ++ frame msg)
    unfolding send_message
    send_message-frame msg s =
        let (s₁, s₂, e₁, e₂, w) = both_sent msg s in (s₂, rw (e₁, e₂) refl, w)

    pub send_response-frame :
        (msg : Text) (s : State)
        → (s' : State) × (send_response net msg s ≡ some s') × (written s' ≡ written s ++ frame msg)
    unfolding send_response
    send_response-frame msg s =
        let (s₁, s₂, e₁, e₂, w) = both_sent msg s in (s₂, rw (e₁, e₂) refl, w)

    pub recv_message-frame :
        (malloc : ℕ → Bool) (msg rest : Text) (s : State)
        → 0 < length msg
        → length msg < 2 ^ 64
        → malloc (length msg) ≡ true
        → pending s ≡ frame msg ++ rest
        → (s' : State) × (recv_message net malloc s ≡ some (some msg, s')) × (pending s' ≡ rest)
    unfolding recv_message
    recv_message-frame malloc msg rest s some_bytes fits room e =
        let head = bytes 8 (length msg) in
        let eight = length-bytes 8 (length msg) in
        let (s₁, e₁, p₁) =
          received head (msg ++ rest) s _ (e ∙ append_assoc head msg rest)
            (recv_all-RecvAll net law (length head) s) in
        let (s₂, e₂, p₂) = received msg rest s₁ _ p₁ (recv_all-RecvAll net law (length msg) s₁) in
        let first : recv_all net 8 s ≡ some (pos 8, head, s₁) =
          subst (λ n. recv_all net n s ≡ some (pos n, head, s₁)) eight e₁ in
        let number = little_endian-bytes 8 (length msg) (omega arith) in
        let positive : ltb 0 (length msg) ≡ true = ground arith in
        (s₂, rw (first, number, e₂, room, positive) refl, p₂)

-- The response of a task reaches the client: over two streams that do not fail, of which the client
-- still has to read what the server wrote, for every response of 1 to 2 ^ 64 - 1 bytes for which the
-- client gets memory, `send_response` writes something from which the client reads the response back, byte
-- by byte, and leaves what comes after it.
pub recv_message-send_response :
    (server client : Socket) (law : IsStream server) (law' : IsStream client)
    → IsOpen server law
    → IsOpen client law'
    → (malloc : ℕ → Bool) (resp : Text) (s : server.State) → 0 < length resp
    → length resp < 2 ^ 64
    → malloc (length resp) ≡ true
    → (s' : server.State) × (send_response server resp s ≡ some s')
      × ((wire : Text) × (law.written s' ≡ law.written s ++ wire)
          × ((c : client.State) (rest : Text)
              → law'.pending c ≡ wire ++ rest
              → (c' : client.State) × (recv_message client malloc c ≡ some (some resp, c'))
                × (law'.pending c' ≡ rest)))
recv_message-send_response server client law law' o o' malloc resp s some_bytes fits room =
    let (s', e, w) = send_response-frame server law o resp s in
    (
      s',
      e,
      (
        _,
        w,
        λ c rest p. recv_message-frame client law' o' malloc resp rest c some_bytes fits room p,
      ),
    )
