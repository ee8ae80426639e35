-- ===== src/Server/Reading.antt =====
-- DOWNLOAD and LIST change neither the accounts nor the files.
use client_worker_thread_poo.Base.{
  ℕ, ◌+◌, ◌≡◌, ap, ◌∙◌, inl, inr, ◌||◌, Option, none, some, List, [], ◌∷◌, ◌++◌, Text, codes,
  length, take, ltb, str_eq, ◌==◌, Bool-cases, if◌then◌else◌, ◌>>=◌,
}
use client_worker_thread_poo.Base.Int.{pos}
use client_worker_thread_poo.Storage.Sqlite.{Sqlite, IsSqlite}
use client_worker_thread_poo.Storage.Defs.{get_user_quota}
use client_worker_thread_poo.Storage.Works.{get_user_quota-same, get_used_space-same}
use client_worker_thread_poo.Task.Defs.{
  Task, filepath, user_dir, file_info, or_zero, reply, download_locked, execute_download, list_loop,
  list_entries, list_locked, execute_list,
}
use client_worker_thread_poo.Server.Os.{Os, IsOs}
use client_worker_thread_poo.Server.Defs.{Shared, services, acquire_file_lock}
use client_worker_thread_poo.Server.Changed.{tables_of, files_of, acquire_file_lock-same}

module _ (db : Sqlite) (law : IsSqlite db) (os : Os) (law' : IsOs os) where
  open law use {tables}
  open law' use {files}

  -- The accounts and the files of `w` are those of `v`.
  abbrev pub Same : Shared db os → Shared db os → Type 0
  Same v w =
      (tables_of db law os law' w ≡ tables_of db law os law' v)
      × (files_of db law os law' w ≡ files_of db law os law' v)

  locked-Same : (p : Text) (w : Shared db os) → Same w (acquire_file_lock db os p w).1
  locked-Same p w =
      let (a, d) = acquire_file_lock-same db law os law' p w in (ap tables a, ap files d)

  download_locked-Same :
      (path : Text) (k : Task) (v w : Shared db os)
      → Same v w
      → Same v (download_locked (services db os) path k w).1
  unfolding download_locked
  download_locked-Same path k v w (a, e) =
      let s₁ = (os.open_read path w.disk).1 in
      let (n, s₂) = os.size path s₁ in
      let s₃ = (os.malloc n s₂).1 in
      let (bytes, s₄) = os.read path n s₃ in
      let e₁ = law'.open_read_same path w.disk ∙ e in
      let e₃ = law'.malloc_same n s₂ ∙ law'.size_same path s₁ ∙ e₁ in
      let e₄ = law'.read_same path n s₃ ∙ e₃ in
      elim (Bool-cases (os.open_read path w.disk).0) [
        | inr no_file ↦ rw no_file (a, e₁)
        | inl opened ↦ elim (Bool-cases (os.malloc n s₂).0) [
          | inr no_room ↦ rw (opened, no_room) (a, law'.close_same path s₃ ∙ e₃)
          | inl room ↦ elim (Bool-cases (length bytes == n)) [
            | inl all ↦ rw (opened, room, all) (a, e₄)
            | inr part ↦ rw (opened, room, part) (a, e₄)
          ]
        ]
      ]

  pub execute_download-Same :
      (k : Task) (w : Shared db os) → Same w (execute_download (services db os) k w).1
  unfolding execute_download
  execute_download-Same k w = elim (Bool-cases (acquire_file_lock db os (filepath k) w).0) [
    | inl locked ↦ rw locked (download_locked-Same (filepath k) k w _ (locked-Same (filepath k) w))
    | inr full_table ↦ rw full_table (locked-Same (filepath k) w)
  ]

  Listed : Shared db os → Option (Text × ℕ × Shared db os) → Type 0
  Listed v none = Unit {0}
  Listed v (some (t, n, w)) = Same v w

  abbrev pub SameIn : Shared db os → Option (Task × Shared db os) → Type 0
  SameIn v none = Unit {0}
  SameIn v (some r) = Same v r.1

  list_loop-Listed :
      (dir : Text) (names : List Text) (t : Text) (n : ℕ) (v w : Shared db os)
      → Same v w
      → Listed v (list_loop (services db os) dir names t n w)
  unfolding list_loop Listed
  list_loop-Listed dir [] t n v w h = h
  list_loop-Listed dir (name ∷ names) t n v w (a, e) =
      let path = take 1023 (dir ++ name) in
      let (found, s₁) = os.stat path w.disk in
      let longer = t ++ file_info name (or_zero found) in
      elim (Bool-cases (str_eq name (codes ".") || str_eq name (codes ".."))) [
        | inl skip ↦ rw skip (list_loop-Listed dir names t n v w (a, e))
        | inr file ↦ elim (Bool-cases (ltb (length longer) 4096)) [
          | inl fits ↦
              rw (file, fits)
                (list_loop-Listed dir names longer (n + 1) v _ (a, law'.stat_same path w.disk ∙ e))
          | inr overrun ↦ rw (file, overrun) tt
        ]
      ]

  answer-SameIn :
      (dir : Text) (k : Task) (v : Shared db os) (o : Option (Text × ℕ × Shared db os))
      → Listed v o
      → SameIn v (
          o >>= λ r.
          let (file_list, n, u) = r in
          some (
            reply (pos 0) (if n == 0 then codes "No files found" else file_list) k,
            (services db os).release_file_lock dir u,
          ))
  unfolding Listed
  answer-SameIn dir k v none h = tt
  answer-SameIn dir k v (some (t, n, w)) h = h

  list_entries-SameIn :
      (dir : Text) (k : Task) (v w w' : Shared db os) (o : Option (List Text))
      → Same v w
      → Same v w'
      → SameIn v (list_entries (services db os) dir k w w' o)
  unfolding list_entries
  list_entries-SameIn dir k v w w' none h h' = h
  list_entries-SameIn dir k v w w' (some names) h h' =
      answer-SameIn dir k v _ (list_loop-Listed dir names (codes "FILES:" ++ 10 ∷ []) 0 v w' h')

  list_locked-SameIn :
      (dir : Text) (k : Task) (v w : Shared db os)
      → Same v w
      → SameIn v (list_locked (services db os) dir k w)
  unfolding list_locked
  list_locked-SameIn dir k v w (a, e) =
      let i = pos k.gahak.user_id in
      let e₁ = law'.list_dir_same dir w.disk ∙ e in
      let a₃ =
        get_used_space-same db law i (get_user_quota db i w.accounts).1
        ∙ get_user_quota-same db law i w.accounts
        ∙ a in
      list_entries-SameIn dir k v _ _ (os.list_dir dir w.disk).0 (a, e₁) (a₃, e₁)

  pub execute_list-SameIn :
      (k : Task) (w : Shared db os) → SameIn w (execute_list (services db os) k w)
  unfolding execute_list
  execute_list-SameIn k w =
      let dir = user_dir k.gahak in
      elim (Bool-cases (acquire_file_lock db os dir w).0) [
        | inl locked ↦ rw locked (list_locked-SameIn dir k w _ (locked-Same dir w))
        | inr full_table ↦ rw full_table (locked-Same dir w)
      ]
