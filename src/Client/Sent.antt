-- ===== src/Client/Sent.antt =====
-- What the client puts on the connection.
use client_worker_thread_poo.Base.{
  ℕ, ◌+◌, ◌<◌, ◌≡◌, refl, ap, ◌∙◌, Bool, true, some, [], ◌∷◌, ◌++◌, arith, Text, length,
  length-append, ltb, ◌==◌,
}
use client_worker_thread_poo.Base.Int.{pos}
use client_worker_thread_poo.Utility.Transfer.{Socket, IsStream, IsOpen, send_all, send_all-SendAll}
use client_worker_thread_poo.Session.Wire.{bytes, length-bytes, sent_off}
use client_worker_thread_poo.Client.Defs.{send_line, send_file}
use mathlib.Core.List.{append_assoc}

-- Two calls of `send_all` in a row
module _ (net : Socket) (law : IsStream net) (open_yet : IsOpen net law) where
  both :
      (a b : Text) (s : net.State)
      → (s₁ s₂ : net.State) × (send_all net a s ≡ some (pos (length a), s₁))
        × (send_all net b s₁ ≡ some (pos (length b), s₂))
        × (law.written s₂ ≡ law.written s ++ (a ++ b))
  both a b s =
      let (s₁, e₁, w₁) = sent_off net law open_yet a s _ (send_all-SendAll net law a s) in
      let (s₂, e₂, w₂) = sent_off net law open_yet b s₁ _ (send_all-SendAll net law b s₁) in
      (s₁, s₂, e₁, e₂, w₂ ∙ ap (λ x. x ++ b) w₁ ∙ append_assoc (law.written s) a b)

  pub send_line-frame :
      (l : Text) (s : net.State)
      → (s' : net.State) × (send_line net l s ≡ some (true, s'))
        × (law.written s' ≡ law.written s ++ (bytes 4 (length l + 1) ++ (l ++ 0 ∷ [])))
  unfolding send_line
  send_line-frame l s =
      let head = bytes 4 (length l + 1) in
      let (s₁, s₂, e₁, e₂, w) = both head (l ++ 0 ∷ []) s in
      let p₁ : ltb 0 (length head) ≡ true = ground (arith, length-bytes 4 (length l + 1)) in
      let p₂ : ltb 0 (length (l ++ 0 ∷ [])) ≡ true = ground (arith, length-append {0} l (0 ∷ [])) in
      (s₂, rw (e₁, e₂, p₁, p₂) refl, w)

  pub send_file-frame :
      (malloc : ℕ → Bool) (content : Text) (s : net.State)
      → 0 < length content
      → malloc (length content) ≡ true
      → (s' : net.State) × (send_file net malloc (length content) content s ≡ some (true, s'))
        × (law.written s' ≡ law.written s ++ (bytes 8 (length content) ++ content))
  unfolding send_file
  send_file-frame malloc content s some_bytes room =
      let head = bytes 8 (length content) in
      let (s₁, s₂, e₁, e₂, w) = both head content s in
      let p₁ : ltb 0 (length head) ≡ true = ground (arith, length-bytes 8 (length content)) in
      let p₂ : ltb 0 (length content) ≡ true = ground arith in
      let same : (length content == length content) ≡ true = ground arith in
      (s₂, rw (e₁, e₂, p₁, p₂, room, same) refl, w)
