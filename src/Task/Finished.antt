-- ===== src/Task/Finished.antt =====
-- The commands on one file give back the lock that they took, and leave a complete answer.
use client_worker_thread_poo.Base.{
  ℕ, ◌<◌, subst, ◌≡◌, refl, sym, ◌⊎◌, inl, inr, Option, none, some, [], ◌∷◌, arith, Text, codes,
  length, length-append, ◌==◌, Bool-cases, if◌then◌else◌,
}
use client_worker_thread_poo.Base.Int.{pos, negsuc, neg, ◌-ℤ◌}
use client_worker_thread_poo.FileLocks.Defs.{filepath_max}
use client_worker_thread_poo.Task.Services.{Services, IsServices}
use client_worker_thread_poo.Task.Defs.{
  Task, long_of, reply, fail, filepath, or_zero, is_some, payload_bytes, upload_write,
  upload_locked, quota_exceeded, execute_upload, download_locked, execute_download, delete_locked,
  execute_delete,
}

-- The status is 0 or -1, and the length is that of the response.
abbrev pub IsReply : Task → Type 0
IsReply k = (k.resp_len ≡ length k.resp) × ((k.status ≡ pos 0) ⊎ (k.status ≡ negsuc 0))

pub fail-IsReply : (msg : Text) (k : Task) → IsReply (fail msg k)
fail-IsReply msg k = (sym (length-append msg (0 ∷ [])), inr refl)

pub reply-IsReply : (msg : Text) (k : Task) → IsReply (reply (pos 0) msg k)
reply-IsReply msg k = (sym (length-append msg (0 ∷ [])), inl refl)

module _ (srv : Services) (law : IsServices srv) where
  open srv use {World}
  open law use {Held}

  -- No lock is held, and there is an answer.
  abbrev pub Finished : Task × World → Type 0
  Finished (k, w) = (Held none w) × IsReply k

  upload_write-Finished :
      (path : Text) (old : Option ℕ) (k : Task) (w : World)
      → Held (some path) w
      → Finished (upload_write srv path old k w)
  unfolding upload_write
  upload_write-Finished path old k w h =
      let bytes = payload_bytes k.payload in
      let w₁ = (srv.write path bytes w).1 in
      let w₂ = (srv.close_write path w₁).1 in
      let h₂ : Held (some path) w₂ = law.close_write_held path w₁ (law.write_held path bytes w h) in
      elim (Bool-cases ((srv.write path bytes w).0 == k.payload_len)) [
        | inl all ↦ rw all (
          law.released path _ (law.update_used_space_held _ _ w₂ h₂),
          reply-IsReply (codes "UPLOAD SUCCESS") k,
        )
        | inr part ↦
            rw part
              (law.released path w₂ h₂, fail-IsReply (codes "UPLOAD FAILED: Incomplete write") k)
      ]

  upload_locked-Finished :
      (path : Text) (k : Task) (w : World)
      → Held (some path) w
      → Finished (upload_locked srv path k w)
  unfolding upload_locked
  upload_locked-Finished path k w h =
      let w₁ = (srv.stat path w).1 in
      let w₂ = (srv.open_write path w₁).1 in
      let h₂ : Held (some path) w₂ = law.open_write_held path w₁ (law.stat_held path w h) in
      elim (Bool-cases (srv.open_write path w₁).0) [
        | inl opened ↦ rw opened (upload_write-Finished path (srv.stat path w).0 k w₂ h₂)
        | inr not_opened ↦
            rw not_opened
              (law.released path w₂ h₂, fail-IsReply (codes "UPLOAD FAILED: Cannot create file") k)
      ]

  -- A function that takes the lock of `path` first
  taken :
      (path msg : Text) (k : Task) (w : World) (locked : World → Task × World)
      → length path < filepath_max
      → ((u : World) → Held (some path) u → Finished (locked u))
      → Held none w
      → Finished (
          if (srv.acquire_file_lock path w).0
          then locked (srv.acquire_file_lock path w).1
          else (fail msg k, (srv.acquire_file_lock path w).1))
  taken path msg k w locked short f h = elim (Bool-cases (srv.acquire_file_lock path w).0) [
    | inl got ↦
        let own : Held (some path) (srv.acquire_file_lock path w).1 =
          subst (λ b. Held (if b then some path else none) (srv.acquire_file_lock path w).1) got
            (law.acquired path w short h) in
        rw got (f (srv.acquire_file_lock path w).1 own)
    | inr full ↦
        let not_own : Held none (srv.acquire_file_lock path w).1 =
          subst (λ b. Held (if b then some path else none) (srv.acquire_file_lock path w).1) full
            (law.acquired path w short h) in
        rw full (not_own, fail-IsReply msg k)
  ]

  pub execute_upload-Finished :
      (k : Task) (w : World)
      → length (filepath k) < filepath_max
      → Held none w
      → Finished (execute_upload srv k w)
  unfolding execute_upload
  execute_upload-Finished k w short h =
      let i = pos k.gahak.user_id in
      let (ok, w₁) = srv.check_quota i (long_of k.payload_len) w in
      let h₁ : Held none w₁ = law.check_quota_held i (long_of k.payload_len) w h in
      let (quota, w₂) = srv.get_user_quota i w₁ in
      let (used, w₃) = srv.get_used_space i w₂ in
      elim (Bool-cases (srv.check_quota i (long_of k.payload_len) w).0) [
        | inl allowed ↦ rw allowed (
            taken (filepath k) (codes "UPLOAD FAILED: Could not acquire lock") k w₁
              (upload_locked srv (filepath k) k) short (upload_locked-Finished (filepath k) k) h₁)
        | inr too_big ↦ rw too_big (
          law.get_used_space_held i w₂ (law.get_user_quota_held i w₁ h₁),
          fail-IsReply (quota_exceeded (quota -ℤ used) k.payload_len) k,
        )
      ]

  download_locked-Finished :
      (path : Text) (k : Task) (w : World)
      → Held (some path) w
      → Finished (download_locked srv path k w)
  unfolding download_locked
  download_locked-Finished path k w h =
      let w₁ = (srv.open_read path w).1 in
      let (n, w₂) = srv.size path w₁ in
      let w₃ = (srv.malloc n w₂).1 in
      let (bytes, w₄) = srv.read path n w₃ in
      let h₁ : Held (some path) w₁ = law.open_read_held path w h in
      let h₃ : Held (some path) w₃ = law.malloc_held n w₂ (law.size_held path w₁ h₁) in
      let h₄ : Held (some path) w₄ = law.read_held path n w₃ h₃ in
      elim (Bool-cases (srv.open_read path w).0) [
        | inr no_file ↦
            rw no_file
              (law.released path w₁ h₁, fail-IsReply (codes "DOWNLOAD FAILED: File not found") k)
        | inl opened ↦ elim (Bool-cases (srv.malloc n w₂).0) [
          | inr no_room ↦
              rw (opened, no_room)
                (
                  law.released path _ (law.close_held path w₃ h₃),
                  fail-IsReply (codes "DOWNLOAD FAILED: Memory allocation error") k,
                )
          | inl room ↦ elim (Bool-cases (length bytes == n)) [
            | inl all ↦ rw (opened, room, all) (law.released path w₄ h₄, (ground arith, inl refl))
            | inr part ↦
                rw (opened, room, part)
                  (law.released path w₄ h₄, fail-IsReply (codes "DOWNLOAD FAILED: Read error") k)
          ]
        ]
      ]

  delete_locked-Finished :
      (path : Text) (k : Task) (w : World)
      → Held (some path) w
      → Finished (delete_locked srv path k w)
  unfolding delete_locked
  delete_locked-Finished path k w h =
      let (old, w₁) = srv.stat path w in
      let w₂ = (srv.unlink path w₁).1 in
      let h₂ : Held (some path) w₂ = law.unlink_held path w₁ (law.stat_held path w h) in
      let (b, w₃) = srv.update_used_space (pos k.gahak.user_id) (neg (pos (or_zero old))) w₂ in
      let h₃ : Held (some path) w₃ = law.update_used_space_held _ _ w₂ h₂ in
      elim (Bool-cases (srv.unlink path w₁).0) [
        | inr no_file ↦ rw no_file (
          law.released path w₂ h₂,
          fail-IsReply (codes "DELETE FAILED: File not found or permission denied") k,
        )
        | inl gone ↦ elim (Bool-cases (is_some old)) [
          | inl known ↦
              rw (gone, known) (law.released path w₃ h₃, reply-IsReply (codes "DELETE SUCCESS") k)
          | inr unknown_size ↦
              rw (gone, unknown_size)
                (law.released path w₂ h₂, reply-IsReply (codes "DELETE SUCCESS") k)
        ]
      ]

  pub execute_download-Finished :
      (k : Task) (w : World)
      → length (filepath k) < filepath_max
      → Held none w
      → Finished (execute_download srv k w)
  unfolding execute_download
  execute_download-Finished k w short h =
      taken (filepath k) (codes "UPLOAD FAILED: Could not acquire lock") k w
        (download_locked srv (filepath k) k) short (download_locked-Finished (filepath k) k) h

  pub execute_delete-Finished :
      (k : Task) (w : World)
      → length (filepath k) < filepath_max
      → Held none w
      → Finished (execute_delete srv k w)
  unfolding execute_delete
  execute_delete-Finished k w short h =
      taken (filepath k) (codes "DELETE FAILED: Could not acquire lock") k w
        (delete_locked srv (filepath k) k) short (delete_locked-Finished (filepath k) k) h
