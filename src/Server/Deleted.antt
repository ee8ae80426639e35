-- ===== src/Server/Deleted.antt =====
-- What a DELETE does to the files and to the used space.
use client_worker_thread_poo.Base.{
  ◌≡◌, refl, sym, ap, ◌∙◌, inl, inr, Bool, true, false, none, some, Text, length, str_eq,
  Bool-cases, Option-cases, str_eq_sound,
}
use client_worker_thread_poo.Base.Int.{pos, sub_ℕ, neg}
use client_worker_thread_poo.Storage.Sqlite.{Sqlite, IsSqlite, Tables}
use client_worker_thread_poo.Storage.Defs.{update_used_space}
use client_worker_thread_poo.Storage.Works.{Works}
use client_worker_thread_poo.Task.Defs.{Task, filepath, delete_locked, execute_delete}
use client_worker_thread_poo.Task.Services.{size_of}
use client_worker_thread_poo.Server.Os.{Os, IsOs, TakesAll, Files, put, put_if}
use client_worker_thread_poo.Server.Defs.{Shared, services, acquire_file_lock}
use client_worker_thread_poo.Server.Sizes.{bytes_in}
use client_worker_thread_poo.Server.Changed.{
  Changed, unchanged, changed, tables_of, files_of, acquire_file_lock-same, charged_from,
}

module _ (db : Sqlite) (law : IsSqlite db) (os : Os) (law' : IsOs os) where
  open law use {tables}
  open law' use {resolve, files}

  module _ (works : Works db) (full : TakesAll os) where
    unlinked_as :
        (path : Text) (s : os.State) (fs : Files) (b : Bool)
        → (os.unlink path s).0 ≡ b
        → files s ≡ fs
        → (g : Text) → files (os.unlink path s).1 g ≡ put_if b (resolve path) none fs g
    unlinked_as path s fs b h e g =
        ap (λ (a : Files). a g) (law'.unlink_files path s)
        ∙ ap (λ x. put_if x (resolve path) none (files s) g) h
        ∙ ap (λ a. put_if b (resolve path) none a g) e

    remove_nothing : (f : Text) (fs : Files) (g : Text) → fs f ≡ none → put f none fs g ≡ fs g
    remove_nothing f fs g e = elim (Bool-cases (str_eq f g)) [
      | inl same ↦ rw same (sym e ∙ ap fs (str_eq_sound f g same))
      | inr other ↦ rw other refl
    ]

    delete_locked-Changed :
        (path : Text) (k : Task) (w : Shared db os) (t : Tables) (fs : Files)
        → tables_of db law os law' w ≡ t
        → files_of db law os law' w ≡ fs
        → Changed db law os law' t fs
            (resolve path)
            (pos k.gahak.user_id)
            (delete_locked (services db os) path k w).1
    unfolding delete_locked neg
    delete_locked-Changed path k w t fs same e =
        let i = pos k.gahak.user_id in
        let f = resolve path in
        let s₁ = (os.stat path w.disk).1 in
        let old : (os.stat path w.disk).0 ≡ size_of (fs f) =
          law'.stat_size path w.disk ∙ ap (λ (a : Files). size_of (a f)) e in
        elim (Bool-cases (os.unlink path s₁).0) [
          | inr kept ↦
              rw kept (
                unchanged same (unlinked_as path s₁ fs false kept (law'.stat_same path w.disk ∙ e)))
          | inl gone ↦
              let file = unlinked_as path s₁ fs true gone (law'.stat_same path w.disk ∙ e) in
              elim (Option-cases (fs f)) [
                | inl nothing ↦
                    let unknown : (os.stat path w.disk).0 ≡ none = old ∙ ap size_of nothing in
                    rw (gone, unknown)
                      (unchanged same (λ g. file g ∙ remove_nothing f fs g nothing))
                | inr (b, there) ↦
                    let known : (os.stat path w.disk).0 ≡ some (length b) =
                      old ∙ ap size_of there in
                    let d : neg (pos (length b)) ≡ sub_ℕ 0 (bytes_in (fs f)) = rw there refl in
                    rw (gone, known)
                      (changed none file
                        (λ range.
                          ap (λ z. tables (update_used_space db i z w.accounts).1) d
                          ∙ charged_from db law os law' works full i _ w.accounts t same range)
                        (inl refl))
              ]
        ]

    pub execute_delete-Changed :
        (k : Task) (w : Shared db os)
        → Changed db law os law'
            (tables_of db law os law' w)
            (files_of db law os law' w)
            (resolve (filepath k))
            (pos k.gahak.user_id)
            (execute_delete (services db os) k w).1
    unfolding execute_delete
    execute_delete-Changed k w =
        let (locks_a, locks_d) = acquire_file_lock-same db law os law' (filepath k) w in
        elim (Bool-cases (acquire_file_lock db os (filepath k) w).0) [
          | inl locked ↦ rw locked (
              delete_locked-Changed (filepath k) k _ (tables_of db law os law' w)
                (files_of db law os law' w) (ap tables locks_a) (ap files locks_d))
          | inr full_table ↦
              rw full_table (unchanged (ap tables locks_a) (λ g. ap (λ s. files s g) locks_d))
        ]
