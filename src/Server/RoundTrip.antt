-- ===== src/Server/RoundTrip.antt =====
-- What is uploaded can be downloaded.
use client_worker_thread_poo.Base.{
  arith, ◌<◌, ◌≡◌, refl, sym, ap, subst, ◌∙◌, true, some, Text, length, ==_iff, ◌==◌,
}
use client_worker_thread_poo.Base.Int.{pos, ◌≤ℤ◌}
use client_worker_thread_poo.FileLocks.Defs.{filepath_max}
use client_worker_thread_poo.Storage.Sqlite.{Sqlite, IsSqlite}
use client_worker_thread_poo.Storage.Quotas.{quota_in, used_in}
use client_worker_thread_poo.Storage.Defs.{check_quota}
use client_worker_thread_poo.Storage.Works.{Works, check_quota-true}
use client_worker_thread_poo.Task.Defs.{
  Task, long_of, long_of_le, filepath, payload_bytes, upload_locked, upload_write, execute_upload,
  download_locked, execute_download,
}
use client_worker_thread_poo.Task.Files.{execute_upload-Stored}
use client_worker_thread_poo.Task.Finished.{execute_upload-Finished}
use client_worker_thread_poo.Server.Os.{Os, IsOs, OsWorks, Files}
use client_worker_thread_poo.Server.Defs.{Shared, services}
use client_worker_thread_poo.Server.Lawful.{
  Free, acquire_file_lock-true, services-IsServices, services-IsExclusive, free-Held, held-Free,
  services_file,
}
use client_worker_thread_poo.Server.Changed.{tables_of, Fits, acquire_file_lock-same}

module _ (db : Sqlite) (law : IsSqlite db) (works : Works db) (os : Os) (law' : IsOs os)
    (works' : OsWorks os law') where
  open law' use {resolve, files}

  upload_locked-success :
      (path : Text) (k : Task) (w : Shared db os)
      → k.payload_len ≡ length (payload_bytes k.payload)
      → (upload_locked (services db os) path k w).0.status ≡ pos 0
  unfolding upload_locked upload_write
  upload_locked-success path k w len =
      let s₁ = (os.stat path w.disk).1 in
      let s₂ = (os.open_write path s₁).1 in
      let all =
        (==_iff (os.write path (payload_bytes k.payload) s₂).0 k.payload_len).1
          (works'.writes path (payload_bytes k.payload) s₂ ∙ sym len) in
      rw (works'.opens_write path s₁, all) refl

  execute_upload-success :
      (k : Task) (w : Shared db os)
      → k.payload_len ≡ length (payload_bytes k.payload)
      → pos 0 ≤ℤ quota_in ((tables_of db law os law' w).quotas (pos k.gahak.user_id))
      → pos 0 ≤ℤ used_in ((tables_of db law os law' w).quotas (pos k.gahak.user_id))
      → Fits k.payload_len (pos k.gahak.user_id) (tables_of db law os law' w)
      → Free db os w
      → (execute_upload (services db os) k w).0.status ≡ pos 0
  unfolding execute_upload
  execute_upload-success k w len quota used fits free =
      let i = pos k.gahak.user_id in
      let z = long_of k.payload_len in
      let w₁ = record w { accounts = (check_quota db i z w.accounts).1 } in
      rw
        (
          check_quota-true db law works i z w.accounts quota used
              (omega (arith, long_of_le k.payload_len, fits)),
          acquire_file_lock-true db os (filepath k) w₁ free,
        )
        (upload_locked-success (filepath k) k _ len)

  download_locked-reads :
      (path b : Text) (k : Task) (w : Shared db os)
      → files w.disk (resolve path) ≡ some b
      → ((download_locked (services db os) path k w).0.status ≡ pos 0)
        × ((download_locked (services db os) path k w).0.resp ≡ b)
  unfolding download_locked
  download_locked-reads path b k w there =
      let s₁ = (os.open_read path w.disk).1 in
      let there₁ : files s₁ (resolve path) ≡ some b =
        ap (λ a. a (resolve path)) (law'.open_read_same path w.disk) ∙ there in
      let (n, s₂) = os.size path s₁ in
      let s₃ = (os.malloc n s₂).1 in
      let whole : n ≡ length b = law'.size_length path b s₁ there₁ in
      let same₃ = law'.malloc_same n s₂ ∙ law'.size_same path s₁ in
      let there₃ : files s₃ (resolve path) ≡ some b =
        ap (λ (a : Files). a (resolve path)) same₃ ∙ there₁ in
      let bytes : (os.read path n s₃).0 ≡ b =
        ap (λ x. (os.read path x s₃).0) whole ∙ works'.reads path b s₃ there₃ in
      let all : (length (os.read path n s₃).0 == n) ≡ true =
        (==_iff (length (os.read path n s₃).0) n).1 (ap length bytes ∙ sym whole) in
      rw (works'.opens_read path b w.disk there, works'.room n s₂, all) (refl, bytes)

  execute_download-reads :
      (k : Task) (b : Text) (w : Shared db os)
      → files w.disk (resolve (filepath k)) ≡ some b
      → Free db os w
      → ((execute_download (services db os) k w).0.status ≡ pos 0)
        × ((execute_download (services db os) k w).0.resp ≡ b)
  unfolding execute_download
  execute_download-reads k b w there free =
      let (_, same) = acquire_file_lock-same db law os law' (filepath k) w in
      rw (acquire_file_lock-true db os (filepath k) w free) (
        download_locked-reads (filepath k) b k _
          (ap (λ s. files s (resolve (filepath k))) same ∙ there))

  -- What is uploaded can be downloaded. Over the real functions of storage.c and file_locks.c, while
  -- no other thread is at work, no lock is in use and no call of SQLite, the files or `malloc` fails:
  -- an UPLOAD of `b`, with its length, that fits what the user's quota leaves (neither the quota nor
  -- the used space below 0), to a path of less than 512 bytes, is answered by success; and a DOWNLOAD
  -- of the same path after it is answered by success and exactly `b`.
  pub upload-download :
      (up down : Task) (b : Text) (w : Shared db os)
      → up.payload ≡ some b
      → up.payload_len ≡ length b
      → filepath down ≡ filepath up
      → length (filepath up) < filepath_max
      → pos 0 ≤ℤ quota_in ((tables_of db law os law' w).quotas (pos up.gahak.user_id))
      → pos 0 ≤ℤ used_in ((tables_of db law os law' w).quotas (pos up.gahak.user_id))
      → Fits (length b) (pos up.gahak.user_id) (tables_of db law os law' w)
      → Free db os w
      → ((execute_upload (services db os) up w).0.status ≡ pos 0)
        × (let after = (execute_upload (services db os) up w).1 in
            ((execute_download (services db os) down after).0.status ≡ pos 0)
            × ((execute_download (services db os) down after).0.resp ≡ b))
  upload-download up down b w payload len path short quota used fits free =
      let laws = services-IsServices db os law' in
      let held = free-Held db os law' w free in
      let bytes : payload_bytes up.payload ≡ b = ap payload_bytes payload in
      let ok =
        execute_upload-success up w (len ∙ sym (ap length bytes)) quota used
          (subst (λ n. Fits n (pos up.gahak.user_id) (tables_of db law os law' w)) (sym len) fits)
          free in
      let after = (execute_upload (services db os) up w).1 in
      let stored =
        execute_upload-Stored (services db os) laws (services-IsExclusive db os law') up b w payload
          len short (λ u. works'.flushes (filepath up) u.disk) held ok in
      let there : files after.disk (resolve (filepath down)) ≡ some b =
        ap (λ p. files after.disk (resolve p)) path
        ∙ sym (services_file db os law' after (filepath up))
        ∙ stored.contents in
      let free' =
        held-Free db os law' after
          (execute_upload-Finished (services db os) laws up w short held).0 in
      (ok, execute_download-reads down b after there free')
