-- ===== src/Client/Upload.antt =====
-- An UPLOAD from the client's line to the server's request.
use client_worker_thread_poo.Base.{
  ℕ, ◌+◌, ◌<◌, ◌^◌, ◌≡◌, ap, ◌∙◌, Bool, true, some, [], ◌∷◌, ◌++◌, Text, length,
}
use client_worker_thread_poo.Utility.Words.{IsWord}
use client_worker_thread_poo.Utility.Transfer.{Socket, IsStream, IsOpen, IsWhole}
use client_worker_thread_poo.Task.Defs.{upload}
use client_worker_thread_poo.Session.Defs.{handle_cmd}
use client_worker_thread_poo.Session.Buffer.{NoZero}
use client_worker_thread_poo.Session.Wire.{bytes}
use client_worker_thread_poo.Session.Serve.Defs.{Host, text, read_line}
use client_worker_thread_poo.Client.Defs.{send_line, send_file}
use mathlib.Core.List.{append_assoc}
use client_worker_thread_poo.Client.Sent.{send_line-frame, send_file-frame}
use client_worker_thread_poo.Client.Arrives.{
  read_line-frame, upload_cmd-frame, upload_line, upload_line-NoZero, handle_cmd-upload_line,
}

-- The server has got the line and the file: from a state with memory `size` for `CmdSize`, it reads
-- the line, and `handleCmd` makes of it the request with this name and these bytes, and what comes
-- after them is left.
pub record Arrived (host : Host) (law : IsStream host.net) (name content rest : Text) (size : Text)
    (s : host.net.State) : Type 0 where
  pub size' : Text
  pub between : host.net.State
  pub after : host.net.State
  pub line_read : read_line host size s ≡ (text (upload_line name), size', between)
  pub request :
      handle_cmd host.net host.malloc (upload_line name) between
      ≡ some (
        some (record {
          cmd = upload;
          filename = name;
          payload = content;
          payload_len = length content;
        }),
        after,
      )
  pub left : law.pending after ≡ rest

-- An UPLOAD arrives. Over streams that do not fail, where each `recv` of the server gets all that it
-- asks for: for a name without a space and a zero, a file of 1 to 2 ^ 64 - 1 bytes, and memory
-- enough on both sides, the client sends the line and the file; and from what it has sent the server
-- reads the same line, the same name and the same bytes, and leaves what comes after them.
pub handle_cmd-send_file :
    (host : Host) (law : IsStream host.net) (client : Socket) (law' : IsStream client)
    → IsWhole host.net law
    → IsOpen host.net law
    → IsOpen client law'
    → (malloc : ℕ → Bool) (name content size : Text) → IsWord name
    → NoZero name
    → length (upload_line name) + 1 < 2 ^ 31
    → 0 < length content
    → length content < 2 ^ 64
    → host.malloc (length (upload_line name) + 1) ≡ true
    → host.malloc (length content) ≡ true
    → malloc (length content) ≡ true
    → length size ≡ 4
    → (c : client.State)
    → (c' c'' : client.State) × (send_line client (upload_line name) c ≡ some (true, c'))
      × (send_file client malloc (length content) content c' ≡ some (true, c''))
      × ((wire : Text) × (law'.written c'' ≡ law'.written c ++ wire)
          × ((s : host.net.State) (rest : Text)
              → law.pending s ≡ wire ++ rest
              → Arrived host law name content rest size s))
handle_cmd-send_file host law client law' whole o o' malloc name content size word no_zero short
      some_bytes fits room₁ room₂ room four c =
    let l = upload_line name in
    let line = bytes 4 (length l + 1) ++ (l ++ 0 ∷ []) in
    let file = bytes 8 (length content) ++ content in
    let (c', e, w) = send_line-frame client law' o' l c in
    let (c'', e', w') = send_file-frame client law' o' malloc content c' some_bytes room in
    (
      c',
      c'',
      e,
      e',
      (
        line ++ file,
        w' ∙ ap (λ x. x ++ file) w ∙ append_assoc (law'.written c) line file,
        λ s rest p.
            let cut : law.pending s ≡ bytes 4 (length l + 1) ++ ((l ++ 0 ∷ []) ++ (file ++ rest)) =
              p
              ∙ append_assoc line file rest
              ∙ append_assoc (bytes 4 (length l + 1)) (l ++ 0 ∷ []) (file ++ rest) in
            let (s₁, e₁, p₁) =
              read_line-frame host law whole l size (file ++ rest) s
                (upload_line-NoZero name no_zero) four short room₁ cut in
            let (s₂, e₂, p₂) =
              upload_cmd-frame host law whole o name content rest s₁ some_bytes fits room₂
                (p₁ ∙ append_assoc (bytes 8 (length content)) content rest) in
            record {
              size' = bytes 4 (length l + 1);
              between = s₁;
              after = s₂;
              line_read = e₁;
              request = handle_cmd-upload_line host.net host.malloc name s₁ word ∙ e₂;
              left = p₂;
            },
      ),
    )
