-- ===== src/Server/Lawful.antt =====
-- The real parts keep what `execute_task` relies on, for one worker at a time.
use client_worker_thread_poo.Base.{
  true, ℕ, ◌<◌, ◌≡◌, refl, sym, ap, subst, some_inj, ◌∙◌, false, Option, none, some, Text, length,
  str_eq_refl, if◌then◌else◌,
}
use client_worker_thread_poo.FileLocks.Defs.{FileLockTable, filepath_max, acquire_slot, lock_slot}
use client_worker_thread_poo.FileLocks.Alone.{
  AllFree, OnlyLocked, Alone, acquire_slot-Alone, acquire_slot-some, release_file_lock-AllFree,
}
use client_worker_thread_poo.Storage.Sqlite.{Sqlite}
use client_worker_thread_poo.Task.Services.{IsServices, IsExclusive}
use client_worker_thread_poo.Server.Os.{Os, IsOs, Files, put, put_if}
use client_worker_thread_poo.Server.Defs.{
  Shared, lock_or_wait, lock_found, acquire_file_lock, services,
}

-- The locks of the table while the worker holds none, or that of a path.
abbrev pub Locked : Option Text → FileLockTable → Type 0
Locked none t = AllFree t
Locked (some p) t = OnlyLocked p t

pub put_same : (f : Text) (o : Option Text) (files : Files) → put f o files f ≡ o
put_same f o files = rw (str_eq_refl f) refl

module _ (db : Sqlite) (os : Os) where
  abbrev pub Free : Shared db os → Type 0
  Free w = (w.waiting ≡ false) × AllFree w.table

  abbrev Holding : Option Text → Shared db os → Type 0
  Holding o w = (w.waiting ≡ false) × Locked o w.table

  lock_found-Holding :
      (p : Text) (r : Option ℕ × FileLockTable) (w : Shared db os)
      → Alone p r
      → w.waiting ≡ false
      → Holding (if (lock_found db os r w).0 then some p else none) (lock_found db os r w).1
  unfolding lock_found lock_or_wait
  lock_found-Holding p (none, t) w a go = (go, a)
  lock_found-Holding p (some i, t) w (u, e, only) go = locked (lock_slot t i) e
    where
      locked :
          (o : Option FileLockTable)
          → o ≡ some u
          → Holding
              (if (lock_or_wait db os o (record w { table = t })).0 then some p else none)
              (lock_or_wait db os o (record w { table = t })).1
      locked none h = cc
      locked (some v) h = (go, subst (OnlyLocked p) (sym (some_inj h)) only)

  acquire_file_lock-Holding :
      (p : Text) (w : Shared db os)
      → length p < filepath_max
      → Free w
      → Holding
          (if (acquire_file_lock db os p w).0 then some p else none)
          (acquire_file_lock db os p w).1
  unfolding acquire_file_lock
  acquire_file_lock-Holding p w short (go, free) =
      lock_found-Holding p (acquire_slot w.table p) w (acquire_slot-Alone w.table p short free) go

  lock_found-true :
      (r : Option ℕ × FileLockTable) (w : Shared db os) (i : ℕ)
      → r.0 ≡ some i
      → (lock_found db os r w).0 ≡ true
  unfolding lock_found lock_or_wait
  lock_found-true (none, t) w i e = cc
  lock_found-true (some j, t) w i e = either (lock_slot t j)
    where
      either : (o : Option FileLockTable) → (lock_or_wait db os o (record w { table = t })).0 ≡ true
      either none = refl
      either (some u) = refl

  -- A worker that is alone gets its lock.
  pub acquire_file_lock-true :
      (p : Text) (w : Shared db os) → Free w → (acquire_file_lock db os p w).0 ≡ true
  unfolding acquire_file_lock
  acquire_file_lock-true p w (go, free) =
      let (i, e) = acquire_slot-some w.table p free in lock_found-true _ w i e

  module _ (law : IsOs os) where
    open law use {resolve, files}

    abbrev content : Shared db os → Text → Option Text
    content w p = files w.disk (resolve p)

    at_path : {a b : Files} → a ≡ b → (p : Text) → a (resolve p) ≡ b (resolve p)
    at_path e p = ap (λ (f : Files). f (resolve p)) e

    pub services-IsServices : IsServices (services db os)
    services-IsServices = record {
      Held = Holding;
      check_quota_held = λ i z w h. h;
      get_user_quota_held = λ i w h. h;
      get_used_space_held = λ i w h. h;
      update_used_space_held = λ i z w h. h;
      stat_held = λ p w h. h;
      open_write_held = λ p w h. h;
      write_held = λ p b w h. h;
      close_write_held = λ p w h. h;
      open_read_held = λ p w h. h;
      size_held = λ p w h. h;
      read_held = λ p n w h. h;
      close_held = λ p w h. h;
      malloc_held = λ n w h. h;
      unlink_held = λ p w h. h;
      list_dir_held = λ p w h. h;
      acquired = λ p w short h. acquire_file_lock-Holding p w short h;
      released = λ p w h. (h.0, release_file_lock-AllFree w.table p h.1);
    }

    pub services-IsExclusive : IsExclusive (services db os) services-IsServices
    services-IsExclusive = record {
      file = content;
      stat_file = λ p w h. (at_path (law.stat_same p w.disk) p, law.stat_size p w.disk);
      write_file = λ p b w h ok.
          at_path (law.write_files p b w.disk ok) p ∙ put_same (resolve p) _ (files w.disk);
      update_used_space_file = λ p i z w h. refl;
      open_read_file = λ p w h e.
          let (b, there) = law.open_read_there p w.disk e in
          (b, there, at_path (law.open_read_same p w.disk) p ∙ there);
      size_file =
          λ p b w h e. (law.size_length p b w.disk e, at_path (law.size_same p w.disk) p ∙ e);
      malloc_file = λ p n w h. at_path (law.malloc_same n w.disk) p;
      read_file =
          λ p b n w h e. (law.read_part p b n w.disk e, at_path (law.read_same p n w.disk) p ∙ e);
      unlink_file = λ p w h e.
          at_path (law.unlink_files p w.disk) p
          ∙ ap (λ x. put_if x (resolve p) none (files w.disk) (resolve p)) e
          ∙ put_same (resolve p) none (files w.disk);
      release_file = λ p w h. refl;
    }

    pub free-Held : (w : Shared db os) → Free w → services-IsServices.Held none w
    unfolding services-IsServices
    free-Held w h = h

    pub held-Free : (w : Shared db os) → services-IsServices.Held none w → Free w
    unfolding services-IsServices
    held-Free w h = h

    pub services_file :
        (w : Shared db os) (p : Text) → services-IsExclusive.file w p ≡ files w.disk (resolve p)
    unfolding services-IsExclusive
    services_file w p = refl
