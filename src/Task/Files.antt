-- ===== src/Task/Files.antt =====
-- What UPLOAD, DOWNLOAD and DELETE do to the file, and what they count, when they report success.
use client_worker_thread_poo.Base.{
  ℕ, ◌<◌, ◌≡◌, refl, sym, ap, subst, ◌∙◌, Bool, true, false, not, none, some, arith, Text, length,
  take, take_of_length_le, length-take, ◌==◌, Bool-cases, inl, inr, if◌then◌else◌,
}
use client_worker_thread_poo.Base.Int.{pos, negsuc, neg, ◌-ℤ◌}
use client_worker_thread_poo.FileLocks.Defs.{filepath_max}
use client_worker_thread_poo.Task.Services.{Services, IsServices, IsExclusive, size_of}
use client_worker_thread_poo.Task.Defs.{
  Task, long_of, filepath, or_zero, is_some, payload_bytes, upload_write, upload_locked,
  execute_upload, download_locked, execute_download, delete_locked, execute_delete,
}

-- A prefix of the full length is the whole.
whole :
    (j : ℕ) (b bytes : Text) (n : ℕ)
    → bytes ≡ take j b
    → length bytes ≡ n
    → n ≡ length b
    → bytes ≡ b
whole j b bytes n e en el =
    let same : length bytes ≡ length (take j b) = ap length e in
    e ∙ take_of_length_le j b (omega (arith, length-take j b, same, en, el))

module _ (srv : Services) (law : IsServices srv) (own : IsExclusive srv law) where
  open srv use {World}
  open law use {Held}
  open own use {file}

  -- A success after a test is one of the branch that does not fail.
  success_else :
      (c : Bool) (x y : Task × World) (P : Task × World → Type 0)
      → x.0.status ≡ negsuc 0
      → (c ≡ false → y.0.status ≡ pos 0 → P y)
      → (if c then x else y).0.status ≡ pos 0
      → P (if c then x else y)
  success_else true x y P bad f ok = absurd (cc)
  success_else false x y P bad f ok = f refl ok

  success_then :
      (c : Bool) (y x : Task × World) (P : Task × World → Type 0)
      → x.0.status ≡ negsuc 0
      → (c ≡ true → y.0.status ≡ pos 0 → P y)
      → (if c then y else x).0.status ≡ pos 0
      → P (if c then y else x)
  success_then true y x P bad f ok = f refl ok
  success_then false y x P bad f ok = absurd (cc)

  acquired_here :
      (p : Text) (w : World)
      → length p < filepath_max
      → Held none w
      → (srv.acquire_file_lock p w).0 ≡ true
      → Held (some p) (srv.acquire_file_lock p w).1
  acquired_here p w short h got =
      subst (λ b. Held (if b then some p else none) (srv.acquire_file_lock p w).1) got
        (law.acquired p w short h)

  -- The file holds `b`, and the last call before the release of the lock charges the user for its
  -- size less that of the file in `locked`, where the lock was taken.
  pub record Stored (k : Task) (b : Text) (locked : World) (r : Task × World) : Type 0 where
    pub contents : file r.1 (filepath k) ≡ some b
    pub after : World
    pub after_held : Held (some (filepath k)) after
    pub after_file : file after (filepath k) ≡ some b
    pub charged :
        r.1
        ≡ srv.release_file_lock
            (filepath k)
            (srv.update_used_space
              (pos k.gahak.user_id)
              (long_of (length b) -ℤ pos (or_zero (size_of (file locked (filepath k)))))
              after).1

  -- the world in which `execute_upload` has taken the lock
  abbrev pub upload_begins : Task → World → World
  upload_begins k w =
      (srv.acquire_file_lock (filepath k)
        (srv.check_quota (pos k.gahak.user_id) (long_of k.payload_len) w).1).1

  -- No `fclose` of the file fails.
  abbrev pub Flushes : Text → Type 0
  Flushes path = (u : World) → (srv.close_write path u).0 ≡ true

  upload_write-Stored :
      (k : Task) (b : Text) (v w : World)
      → k.payload ≡ some b
      → k.payload_len ≡ length b
      → Flushes (filepath k)
      → Held (some (filepath k)) w
      → (upload_write srv (filepath k) (size_of (file v (filepath k))) k w).0.status ≡ pos 0
      → Stored k b v (upload_write srv (filepath k) (size_of (file v (filepath k))) k w)
  unfolding upload_write
  upload_write-Stored k b v w payload len flushes hw =
      let path = filepath k in
      let bytes = payload_bytes k.payload in
      let same : bytes ≡ b = rw payload refl in
      let old = or_zero (size_of (file v path)) in
      let n = (srv.write path bytes w).0 in
      let w₁ = (srv.write path bytes w).1 in
      let w₂ = (srv.close_write path w₁).1 in
      let h₂ : Held (some path) w₂ =
        law.close_write_held path w₁ (law.write_held path bytes w hw) in
      let i = pos k.gahak.user_id in
      let w₃ = (srv.update_used_space i (long_of k.payload_len -ℤ pos old) w₂).1 in
      let h₃ : Held (some path) w₃ = law.update_used_space_held _ _ w₂ h₂ in
      success_else (not (n == k.payload_len)) _ _ (Stored k b v) refl (λ all ok.
        let full : take n bytes ≡ b =
          take_of_length_le n bytes (let e = ap length same in ground arith) ∙ same in
        let there : file w₂ path ≡ some b =
          own.write_file path bytes w hw (flushes w₁) ∙ ap some full in
        record {
          contents =
              own.release_file path w₃ h₃ ∙ own.update_used_space_file path _ _ w₂ h₂ ∙ there;
          after = w₂;
          after_held = h₂;
          after_file = there;
          charged =
              ap
                (λ (m : ℕ).
                  srv.release_file_lock path (srv.update_used_space i (long_of m -ℤ pos old) w₂).1)
                len;
        })

  upload_locked-Stored :
      (k : Task) (b : Text) (w : World)
      → k.payload ≡ some b
      → k.payload_len ≡ length b
      → Flushes (filepath k)
      → Held (some (filepath k)) w
      → (upload_locked srv (filepath k) k w).0.status ≡ pos 0
      → Stored k b w (upload_locked srv (filepath k) k w)
  unfolding upload_locked
  upload_locked-Stored k b w payload len flushes h =
      let path = filepath k in
      let w₁ = (srv.stat path w).1 in
      let w₂ = (srv.open_write path w₁).1 in
      let h₂ : Held (some path) w₂ = law.open_write_held path w₁ (law.stat_held path w h) in
      let seen : (srv.stat path w).0 ≡ size_of (file w path) = (own.stat_file path w h).1 in
      success_then (srv.open_write path w₁).0 _ _ (Stored k b w) refl (λ opened.
        subst
          (λ o.
            (upload_write srv path o k w₂).0.status ≡ pos 0
            → Stored k b w (upload_write srv path o k w₂))
          (sym seen) (upload_write-Stored k b w w₂ payload len flushes h₂))

  -- Where an UPLOAD of `b` to a path of less than 512 bytes, by a worker that holds no lock, reports
  -- success, no `fclose` of the file fails and no other thread changes the file while the worker
  -- holds the lock of its path: the file holds exactly `b` when the worker is done, and its last call
  -- before the release of the lock adds to the used space the size of `b` less the size of the file
  -- at the moment when the lock was taken (0 if there was none), both as C longs.
  pub execute_upload-Stored :
      (k : Task) (b : Text) (w : World)
      → k.payload ≡ some b
      → k.payload_len ≡ length b
      → length (filepath k) < filepath_max
      → Flushes (filepath k)
      → Held none w
      → (execute_upload srv k w).0.status ≡ pos 0
      → Stored k b (upload_begins k w) (execute_upload srv k w)
  unfolding execute_upload
  execute_upload-Stored k b w payload len short flushes h =
      let i = pos k.gahak.user_id in
      let w₁ = (srv.check_quota i (long_of k.payload_len) w).1 in
      let h₁ : Held none w₁ = law.check_quota_held i (long_of k.payload_len) w h in
      let v = upload_begins k w in
      success_else (not (srv.check_quota i (long_of k.payload_len) w).0) _ _ (Stored k b v) refl
        (λ allowed.
          success_then (srv.acquire_file_lock (filepath k) w₁).0 _ _ (Stored k b v) refl (λ got.
            upload_locked-Stored k b _ payload len flushes
              (acquired_here (filepath k) w₁ short h₁ got)))

  Sent : Text → Task × World → Type 0
  Sent path r = file r.1 path ≡ some r.0.resp

  download_locked-Sent :
      (path : Text) (k : Task) (w : World)
      → Held (some path) w
      → (download_locked srv path k w).0.status ≡ pos 0
      → Sent path (download_locked srv path k w)
  unfolding download_locked Sent
  download_locked-Sent path k w h =
      let w₁ = (srv.open_read path w).1 in
      let n = (srv.size path w₁).0 in
      let w₂ = (srv.size path w₁).1 in
      let w₃ = (srv.malloc n w₂).1 in
      let bytes = (srv.read path n w₃).0 in
      let w₄ = (srv.read path n w₃).1 in
      let h₁ : Held (some path) w₁ = law.open_read_held path w h in
      let h₂ : Held (some path) w₂ = law.size_held path w₁ h₁ in
      let h₃ : Held (some path) w₃ = law.malloc_held n w₂ h₂ in
      let h₄ : Held (some path) w₄ = law.read_held path n w₃ h₃ in
      success_then (srv.open_read path w).0 _ _ (Sent path) refl (λ opened.
        success_then (srv.malloc n w₂).0 _ _ (Sent path) refl (λ room.
          success_then (length bytes == n) _ _ (Sent path) refl (λ all ok.
            let (b, was, at₁) = own.open_read_file path w h opened in
            let (size_is, at₂) = own.size_file path b w₁ h₁ at₁ in
            let at₃ = own.malloc_file path n w₂ h₂ ∙ at₂ in
            let ((j, first), at₄) = own.read_file path b n w₃ h₃ at₃ in
            own.release_file path w₄ h₄
            ∙ at₄
            ∙ ap some (sym (whole j b bytes n first (ground arith) size_is)))))

  -- Where a DOWNLOAD of a path of less than 512 bytes, by a worker that holds no lock, reports
  -- success, and no other thread changes the file while the worker holds the lock of its path, the
  -- response is the whole contents of the file, which exists, as they are when the worker is done.
  pub execute_download-file :
      (k : Task) (w : World)
      → length (filepath k) < filepath_max
      → Held none w
      → (execute_download srv k w).0.status ≡ pos 0
      → file (execute_download srv k w).1 (filepath k) ≡ some (execute_download srv k w).0.resp
  unfolding execute_download Sent
  execute_download-file k w short h =
      success_then (srv.acquire_file_lock (filepath k) w).0 _ _ (Sent (filepath k)) refl
        (λ got. download_locked-Sent (filepath k) k _ (acquired_here (filepath k) w short h got))

  Gone : Text → Task × World → Type 0
  Gone path r = file r.1 path ≡ none

  delete_locked-Gone :
      (path : Text) (k : Task) (w : World)
      → Held (some path) w
      → (delete_locked srv path k w).0.status ≡ pos 0
      → Gone path (delete_locked srv path k w)
  unfolding delete_locked Gone
  delete_locked-Gone path k w h =
      let old = (srv.stat path w).0 in
      let w₁ = (srv.stat path w).1 in
      let w₂ = (srv.unlink path w₁).1 in
      let h₁ : Held (some path) w₁ = law.stat_held path w h in
      let h₂ : Held (some path) w₂ = law.unlink_held path w₁ h₁ in
      let i = pos k.gahak.user_id in
      let z = neg (pos (or_zero old)) in
      let w₃ = (srv.update_used_space i z w₂).1 in
      let h₃ : Held (some path) w₃ = law.update_used_space_held i z w₂ h₂ in
      success_then (srv.unlink path w₁).0 _ _ (Gone path) refl (λ gone ok.
        let none₂ : file w₂ path ≡ none = own.unlink_file path w₁ h₁ gone in
        elim (Bool-cases (is_some old)) [
          | inl known ↦
              rw known
                (own.release_file path w₃ h₃ ∙ own.update_used_space_file path i z w₂ h₂ ∙ none₂)
          | inr unknown ↦ rw unknown (own.release_file path w₂ h₂ ∙ none₂)
        ])

  -- Where a DELETE of a path of less than 512 bytes, by a worker that holds no lock, reports success,
  -- and no other thread changes the file while the worker holds the lock of its path, there is no
  -- such file when the worker is done.
  pub execute_delete-file :
      (k : Task) (w : World)
      → length (filepath k) < filepath_max
      → Held none w
      → (execute_delete srv k w).0.status ≡ pos 0
      → file (execute_delete srv k w).1 (filepath k) ≡ none
  unfolding execute_delete Gone
  execute_delete-file k w short h =
      success_then (srv.acquire_file_lock (filepath k) w).0 _ _ (Gone (filepath k)) refl
        (λ got. delete_locked-Gone (filepath k) k _ (acquired_here (filepath k) w short h got))
