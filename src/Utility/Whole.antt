-- ===== src/Utility/Whole.antt =====
-- A connection on which every `recv` gets all that it asks for and that is there, and every `send`
-- takes all.
use client_worker_thread_poo.Base.{
  ℕ, ◌≤◌, ◌<◌, ◌≡◌, refl, sym, ap, ◌∙◌, [], ◌∷◌, ◌++◌, arith, Text, length, length-take,
  length-drop, take, drop, take-append-drop, take_of_length_le,
}
use client_worker_thread_poo.Utility.Transfer.{
  Received, failed, got, Sent, took, Socket, IsStream, IsOpen, IsDuplex, IsWhole,
}

abbrev pub whole_recv : ℕ → Text × Text → Received × (Text × Text)
whole_recv k ([], w) = (failed 0, ([], w))
whole_recv k (b ∷ p, w) = (got (take k (b ∷ p)), (drop k (b ∷ p), w))

abbrev pub whole : Socket
whole = record {
  State = Text × Text;
  recv = whole_recv;
  send = λ b (p, w). (took (length b), (p, w ++ b));
}

whole_recv_some :
    (k : ℕ) (s s' : Text × Text) (b : Text)
    → 0 < k
    → whole_recv k s ≡ (got b, s')
    → (0 < length b) × (length b ≤ k) × (s.0 ≡ b ++ s'.0)
whole_recv_some k ([], w) s' b h e = cc
whole_recv_some k (c ∷ p, w) s' b h e =
    let same : take k (c ∷ p) ≡ b = cc in
    let left : drop k (c ∷ p) ≡ s'.0 = ap (λ (x : Received × (Text × Text)). x.1.0) e in
    let n = length-take k (c ∷ p) in
    rw (← same, ← left) (omega (arith, n), omega (arith, n), sym (take-append-drop k (c ∷ p)))

whole_send_some :
    (b : Text) (s s' : Text × Text) (k : ℕ)
    → 0 < length b
    → whole.send b s ≡ (took k, s')
    → (0 < k) × (k ≤ length b) × (s'.1 ≡ s.1 ++ take k b)
whole_send_some b (p, w) s' k h e =
    let all : length b ≡ k = cc in
    let grown : w ++ b ≡ s'.1 = ap (λ (x : Sent × (Text × Text)). x.1.1) e in
    (
      omega (arith, all),
      omega (arith, all),
      sym grown ∙ ap (◌++◌ w) (sym (take_of_length_le k b (omega (arith, all)))),
    )

pub whole-IsStream : IsStream whole
whole-IsStream = record {
  pending = λ s. s.0;
  written = λ s. s.1;
  recv_some = whole_recv_some;
  send_some = whole_send_some;
}

whole_recv_open : (k j : ℕ) (s s' : Text × Text) → whole_recv k s ≡ (failed j, s') → s.0 ≡ []
whole_recv_open k j ([], w) s' e = refl
whole_recv_open k j (b ∷ p, w) s' e = cc

pub whole-IsOpen : IsOpen whole whole-IsStream
unfolding whole-IsStream
whole-IsOpen = record { recv_open = whole_recv_open; send_open = λ k b s s' h e. cc }

whole_recv_less : (k : ℕ) (s : Text × Text) → length (whole_recv k s).1.0 ≤ length s.0
whole_recv_less k ([], w) = omega arith
whole_recv_less k (b ∷ p, w) = omega (arith, length-drop k (b ∷ p))

pub whole-IsDuplex : IsDuplex whole whole-IsStream
unfolding whole-IsStream
whole-IsDuplex = record { recv_less = whole_recv_less; send_quiet = λ b s. refl }

pub whole_pending : (s : Text × Text) → whole-IsStream.pending s ≡ s.0
unfolding whole-IsStream
whole_pending s = refl

whole_recv_whole :
    (k : ℕ) (s : Text × Text) → 0 < length s.0 → (whole_recv k s).0 ≡ got (take k s.0)
whole_recv_whole k ([], w) h = absurd (omega arith)
whole_recv_whole k (b ∷ p, w) h = refl

pub whole-IsWhole : IsWhole whole whole-IsStream
unfolding whole-IsStream
whole-IsWhole = record { recv_whole = whole_recv_whole }
