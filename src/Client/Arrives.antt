-- ===== src/Client/Arrives.antt =====
-- What the client sends is what the server reads.
use client_worker_thread_poo.Base.{
  ℕ, ◌+◌, ◌<◌, ◌^◌, ◌≡◌, refl, sym, ap, subst, ◌∙◌, Bool, true, false, some, [], ◌∷◌, ◌++◌, arith,
  Text, codes, length, length-append, take, drop, ltb, ◌==◌, str_eq_refl,
}
use client_worker_thread_poo.Utility.Words.{
  space, first_word, IsWord, first_word-space, first_word-last,
}
use client_worker_thread_poo.Utility.Transfer.{
  Socket, got, IsStream, IsOpen, IsWhole, recv_all-RecvAll,
}
use client_worker_thread_poo.Task.Defs.{upload}
use client_worker_thread_poo.Session.Defs.{little_endian, after_length, upload_cmd, handle_cmd}
use client_worker_thread_poo.Session.Buffer.{NoZero}
use client_worker_thread_poo.Session.Wire.{
  bytes, length-bytes, little_endian-bytes, same_cut, received,
}
use client_worker_thread_poo.Session.Serve.Defs.{
  Host, overlay, as_size, terminated, text, read_line,
}
use mathlib.Core.List.{append_assoc, append-nil}

-- A string ends at its zero, whatever comes behind.
terminated-zero : (l rest : Text) → NoZero l → terminated (l ++ 0 ∷ rest) ≡ some l
unfolding terminated
terminated-zero [] rest h = refl
terminated-zero (b ∷ l) rest h =
    let later : (b == 0) ≡ false = let ne = h.0 in ground arith in
    rw (later, terminated-zero l rest h.1) refl

take_first : (a rest : Text) → take (length a) (a ++ rest) ≡ a
take_first [] rest = refl
take_first (b ∷ a) rest = ap (◌∷◌ b) (take_first a rest)

drop_all : (k : ℕ) (a : Text) → length a ≡ k → drop k a ≡ []
drop_all k [] e = rw (← e) refl
drop_all k (b ∷ a) e = rw (← e) (drop_all (length a) a refl)

-- One `recv` gets just the bytes that it asks for.
recv_exact :
    (net : Socket) (law : IsStream net) (w : IsWhole net law) (a rest : Text) (s : net.State)
    → 0 < length a
    → law.pending s ≡ a ++ rest
    → (s' : net.State) × (net.recv (length a) s ≡ (got a, s')) × (law.pending s' ≡ rest)
recv_exact net law w a rest s h e =
    let there : 0 < length (law.pending s) = omega (arith, ap length e, length-append {0} a rest) in
    let b : (net.recv (length a) s).0 ≡ got a =
      w.recv_whole (length a) s there
      ∙ ap (λ x. got (take (length a) x)) e
      ∙ ap got (take_first a rest) in
    let s' = (net.recv (length a) s).1 in
    let (_, _, next) = law.recv_some (length a) s s' a h (λ i. (b i, s')) in
    (s', (λ i. (b i, s')), (same_cut a (law.pending s') a rest refl (sym next ∙ e)).1)

module _ (host : Host) (law : IsStream host.net) (whole : IsWhole host.net law) where
  open host use {net, malloc, block}

  pub read_line-frame :
      (l size rest : Text) (s : net.State)
      → NoZero l
      → length size ≡ 4
      → length l + 1 < 2 ^ 31
      → malloc (length l + 1) ≡ true
      → law.pending s ≡ bytes 4 (length l + 1) ++ ((l ++ 0 ∷ []) ++ rest)
      → (s' : net.State) × (read_line host size s ≡ (text l, bytes 4 (length l + 1), s'))
        × (law.pending s' ≡ rest)
  unfolding read_line
  read_line-frame l size rest s ok four fits room e =
      let n = length l + 1 in
      let head = bytes 4 n in
      let body = l ++ 0 ∷ [] in
      let len : length head ≡ 4 = length-bytes 4 n in
      let len' : length body ≡ n = length-append {0} l (0 ∷ []) in
      let (s₁, e₁, p₁) = recv_exact net law whole head (body ++ rest) s (omega (arith, len)) e in
      let (s₂, e₂, p₂) = recv_exact net law whole body rest s₁ (omega (arith, len')) p₁ in
      let first : net.recv 4 s ≡ (got head, s₁) =
        subst (λ k. net.recv k s ≡ (got head, s₁)) len e₁ in
      let second : net.recv n s₁ ≡ (got body, s₂) =
        subst (λ k. net.recv k s₁ ≡ (got body, s₂)) len' e₂ in
      let memory : overlay head size ≡ head =
        ap (◌++◌ head) (drop_all (length head) size (four ∙ sym len)) ∙ append-nil head in
      let number : little_endian head ≡ n = little_endian-bytes 4 n (omega arith) in
      let asked : as_size n ≡ n =
        let small : ltb n (2 ^ 31) ≡ true = ground arith in rw small refl in
      let ended : terminated (overlay body (take n (block n))) ≡ some l =
        ap terminated (append_assoc l (0 ∷ []) _) ∙ terminated-zero l _ ok in
      let some_head : ltb 0 (length head) ≡ true = ground (arith, len) in
      let some_body : ltb 0 (length body) ≡ true = ground (arith, len') in
      (s₂, rw (first, memory, number, asked, second, some_head, room, some_body, ended) refl, p₂)

  module _ (open_yet : IsOpen host.net law) where
    pub upload_cmd-frame :
        (name content rest : Text) (s : net.State)
        → 0 < length content
        → length content < 2 ^ 64
        → malloc (length content) ≡ true
        → law.pending s ≡ bytes 8 (length content) ++ (content ++ rest)
        → (s' : net.State) × (upload_cmd net malloc name s
            ≡ some (
              some (record {
                cmd = upload;
                filename = name;
                payload = content;
                payload_len = length content;
              }),
              s',
            ))
          × (law.pending s' ≡ rest)
    unfolding upload_cmd after_length
    upload_cmd-frame name content rest s some_bytes fits room e =
        let n = length content in
        let head = bytes 8 n in
        let len : length head ≡ 8 = length-bytes 8 n in
        let (s₁, e₁, p₁) =
          recv_exact net law whole head (content ++ rest) s (omega (arith, len)) e in
        let (s₂, e₂, p₂) =
          received net law open_yet content rest s₁ _ p₁ (recv_all-RecvAll net law n s₁) in
        let first : net.recv 8 s ≡ (got head, s₁) =
          subst (λ k. net.recv k s ≡ (got head, s₁)) len e₁ in
        let number = little_endian-bytes 8 n (omega arith) in
        let positive : ltb 0 n ≡ true = ground arith in
        (s₂, rw (first, number, room, e₂, positive) refl, p₂)

abbrev pub upload_line : Text → Text
upload_line name = codes "UPLOAD" ++ space ∷ name

pub upload_line_words :
    (name : Text)
    → IsWord name
    → (first_word (upload_line name) ≡ (codes "UPLOAD", name)) × ((first_word name).0 ≡ name)
upload_line_words name h = (
  first_word-space (codes "UPLOAD") name (omega arith),
  ap (λ (x : Text × Text). x.0) (first_word-last name h),
)

pub upload_line-NoZero : (name : Text) → NoZero name → NoZero (upload_line name)
upload_line-NoZero name h = (
  omega arith,
  (omega arith, (omega arith, (omega arith, (omega arith, (omega arith, (omega arith, h)))))),
)

pub handle_cmd-upload_line :
    (net : Socket) (malloc : ℕ → Bool) (name : Text) (s : net.State)
    → IsWord name
    → handle_cmd net malloc (upload_line name) s ≡ upload_cmd net malloc name s
unfolding handle_cmd
handle_cmd-upload_line net malloc name s h =
    let (words, last) = upload_line_words name h in
    rw (words, last, str_eq_refl (codes "UPLOAD")) refl
