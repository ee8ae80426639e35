-- ===== src/Utility/Drip.antt =====
-- Instances of what utility.c calls: a logarithm, and a connection that moves one byte at a time.
use native.Mathlib.Nat.{pow-suc}
use client_worker_thread_poo.Base.{
  ℕ, suc, ◌≤◌, ◌<◌, ◌^◌, ◌≡◌, ◌≢◌, refl, [], ◌∷◌, ◌++◌, arith, Text, length, take, ltb,
  if◌then◌else◌, zero, ◌/◌, Bool-cases, inl, inr,
}
use client_worker_thread_poo.Utility.Decimal.{IsLog10}
use client_worker_thread_poo.Utility.Transfer.{
  Received, failed, got, Sent, refused, took, Socket, IsStream, IsOpen, IsDuplex,
}

-- The logarithm, counted.
log_loop : ℕ → ℕ → ℕ
log_loop zero n = 0
log_loop (suc f) n = let r = suc (log_loop f (n / 10)) in if ltb n 10 then 0 else r

log_loop-bounds :
    (f n : ℕ) → n < f → 0 < n → (10 ^ log_loop f n ≤ n) × (n < 10 ^ suc (log_loop f n))
unfolding log_loop
log_loop-bounds zero n h p = absurd (omega arith)
log_loop-bounds (suc f) n h p = elim (Bool-cases (ltb n 10)) [
  | inl small ↦ rw small (ground arith, ground arith)
  | inr big ↦
      let ten : 10 ≤ n = ground arith in
      let (lo, hi) = log_loop-bounds f (n / 10) (omega arith) (omega arith) in
      let r = log_loop f (n / 10) in
      rw big (omega (arith, pow-suc 10 r), omega (arith, pow-suc 10 r, pow-suc 10 (suc r)))
]

pub counted_log10 : ℕ → ℕ
counted_log10 n = log_loop (suc n) n

pub counted_log10-IsLog10 : IsLog10 counted_log10
unfolding counted_log10
counted_log10-IsLog10 = record {
  below = λ n p. (log_loop-bounds (suc n) n (omega arith) p).0;
  above = λ n p. (log_loop-bounds (suc n) n (omega arith) p).1;
}

-- The connection: what is still to come, and what was written.
unfoldable pub drip_recv : ℕ → Text × Text → Received × (Text × Text)
drip_recv k ([], w) = (failed 0, ([], w))
drip_recv k (b ∷ p, w) = (got (b ∷ []), (p, w))

unfoldable pub drip_send : Text → Text × Text → Sent × (Text × Text)
drip_send [] (p, w) = (refused 0, (p, w))
drip_send (b ∷ rest) (p, w) = (took 1, (p, w ++ b ∷ []))

abbrev pub drip : Socket
drip = record { State = Text × Text; recv = drip_recv; send = drip_send }

drip_recv_some :
    (k : ℕ) (s s' : Text × Text) (b : Text)
    → 0 < k
    → drip_recv k s ≡ (got b, s')
    → (0 < length b) × (length b ≤ k) × (s.0 ≡ b ++ s'.0)
unfolding drip_recv
drip_recv_some k ([], w) s' b h e = cc
drip_recv_some k (c ∷ p, w) s' b h e = ground arith

drip_send_some :
    (b : Text) (s s' : Text × Text) (k : ℕ)
    → 0 < length b
    → drip_send b s ≡ (took k, s')
    → (0 < k) × (k ≤ length b) × (s'.1 ≡ s.1 ++ take k b)
unfolding drip_send
drip_send_some [] (p, w) s' k h e = cc
drip_send_some (c ∷ rest) (p, w) s' k h e =
    let one : 1 ≡ k = ground arith in rw (← one) (omega arith, omega arith, ground arith)

pub drip-IsStream : IsStream drip
drip-IsStream = record {
  pending = λ s. s.0;
  written = λ s. s.1;
  recv_some = drip_recv_some;
  send_some = drip_send_some;
}

drip_recv_open : (k j : ℕ) (s s' : Text × Text) → drip_recv k s ≡ (failed j, s') → s.0 ≡ []
unfolding drip_recv
drip_recv_open k j ([], w) s' e = refl
drip_recv_open k j (b ∷ p, w) s' e = cc

drip_send_open :
    (k : ℕ) (b : Text) (s s' : Text × Text) → 0 < length b → drip_send b s ≢ (refused k, s')
unfolding drip_send
drip_send_open k [] s s' h e = absurd (omega arith)
drip_send_open k (b ∷ rest) (p, w) s' h e = cc

pub drip-IsOpen : IsOpen drip drip-IsStream
unfolding drip-IsStream
drip-IsOpen = record { recv_open = drip_recv_open; send_open = drip_send_open }

drip_recv_less : (k : ℕ) (s : Text × Text) → length (drip_recv k s).1.0 ≤ length s.0
unfolding drip_recv
drip_recv_less k ([], w) = omega arith
drip_recv_less k (b ∷ p, w) = omega arith

drip_send_quiet : (b : Text) (s : Text × Text) → (drip_send b s).1.0 ≡ s.0
unfolding drip_send
drip_send_quiet [] (p, w) = refl
drip_send_quiet (b ∷ rest) (p, w) = refl

pub drip-IsDuplex : IsDuplex drip drip-IsStream
unfolding drip-IsStream
drip-IsDuplex = record { recv_less = drip_recv_less; send_quiet = drip_send_quiet }

pub drip_pending : (s : Text × Text) → drip-IsStream.pending s ≡ s.0
unfolding drip-IsStream
drip_pending s = refl
