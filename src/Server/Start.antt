-- ===== src/Server/Start.antt =====
-- main.c: `main` from its first line to the listening socket.
mod Tests
use mathlib.Core.Bool.{false≢true}
use client_worker_thread_poo.Base.{
  arith, ℕ, ◌<◌, ◌≡◌, ◌≢◌, refl, sym, ap, subst, ◌∙◌, ◌⊎◌, inl, inr, Bool, true, false, not, Option,
  none, some, Text, codes, Bool-cases, if◌then◌else◌, ◌>>=◌,
}
use client_worker_thread_poo.Base.Int.{ℤ, pos, negsuc, ltb_ℤ, ◌≤ℤ◌}
use client_worker_thread_poo.Storage.Sqlite.{int_eq}
use client_worker_thread_poo.Storage.Creation.{
  Creator, IsCreator, init_db, db_path, all_succeed, Created, init_db-Created,
}
use client_worker_thread_poo.FileLocks.Defs.{
  FileLock, FileLockTable, free_lock, file_lock_table_init, max_file_locks,
}
use client_worker_thread_poo.FileLocks.Lifetime.{
  Held, nothing, init_table, nothing_lem, Ready, Gone, Lifetime, init_table-Lifetime,
}

-- The calls that make the listening socket, with the ints that they return
pub record Net : Type 1 where
  pub State : Type 0
  pub socket : State → ℤ × State
  pub setsockopt : ℤ → State → ℤ × State
  pub bind : ℤ → State → ℤ × State
  pub listen : ℤ → State → ℤ × State

-- What POSIX documents of them: a result below 0 is a failure; a descriptor below 0 is none.
pub record IsNet (net : Net) : Type 1 where
  pub IsOpen : ℤ → net.State → Type 0
  pub IsBound : ℤ → net.State → Type 0
  pub IsListening : ℤ → net.State → Type 0
  pub socket_open :
      (s : net.State) → pos 0 ≤ℤ (net.socket s).0 → IsOpen (net.socket s).0 (net.socket s).1
  pub setsockopt_bad :
      (n : ℕ) (s : net.State) → ltb_ℤ (net.setsockopt (negsuc n) s).0 (pos 0) ≡ true
  pub setsockopt_open : (fd : ℤ) (s : net.State) → IsOpen fd s → IsOpen fd (net.setsockopt fd s).1
  pub bind_bound :
      (fd : ℤ) (s : net.State)
      → IsOpen fd s
      → ltb_ℤ (net.bind fd s).0 (pos 0) ≡ false
      → IsBound fd (net.bind fd s).1
  pub listen_listening :
      (fd : ℤ) (s : net.State)
      → IsBound fd s
      → ltb_ℤ (net.listen fd s).0 (pos 0) ≡ false
      → IsListening fd (net.listen fd s).1

-- How it ends: with the status of the process, or with a socket and the table of the locks.
pub data Started : Type 0 where
  exited : ℕ → Started
  listening : (server_fd : ℤ) → FileLockTable → Started

module _ (net : Net) where
  -- from `socket` on
  unfoldable pub open_socket : FileLockTable → net.State → Started × net.State
  open_socket t s =
      let (fd, s₁) = net.socket s in
      let (opt, s₂) = net.setsockopt fd s₁ in
      let (bound, s₃) = net.bind fd s₂ in
      let (heard, s₄) = net.listen fd s₃ in
      if int_eq fd (pos 0)
      then (exited 0, s₁)
      else if ltb_ℤ opt (pos 0)
      then (exited 0, s₂)
      else if ltb_ℤ bound (pos 0)
      then (exited 0, s₃)
      else if ltb_ℤ heard (pos 0)
      then (exited 0, s₄)
      else (listening fd t, s₄)

  -- What became of the start, with what the mutexes and the memory of the table are.
  abbrev pub Boot : Type 0
  Boot = Started × Held × net.State

  unfoldable pub with_table : Option FileLockTable × Held → net.State → Boot
  with_table (none, h) s = (exited 1, h, s)
  with_table (some t, h) s = let (r, s') = open_socket t s in (r, h, s')

  -- `none` is an error of memory.
  unfoldable pub main_start :
      (db : Creator) (g : Text) (memory : ℕ → FileLock) (malloc table_ok : Bool) (ok : ℕ → Bool)
      → db.State
      → net.State
      → Option Boot × db.State
  main_start db g memory malloc table_ok ok d s =
      let ((r, g'), d') = init_db db (some (codes "DB/users.db")) g d in
      if not (int_eq r (pos 0))
      then (some (exited 0, nothing, s), d')
      else (init_table memory malloc table_ok ok nothing >>= λ made. some (with_table made s), d')

-- Why there is no socket: `socket` gave 0, or one of the calls that follow it failed, with the
-- descriptor that `socket` gave and in the state that the calls before it left.
module _ (net : Net) (s : net.State) where
  -- the states after `socket`, `setsockopt` and `bind`
  abbrev pub after_socket : net.State
  after_socket = (net.socket s).1

  abbrev pub after_option : net.State
  after_option = (net.setsockopt (net.socket s).0 after_socket).1

  abbrev pub after_bind : net.State
  after_bind = (net.bind (net.socket s).0 after_option).1

  pub data Failed : Type 0 where
    zero_socket : (net.socket s).0 ≡ pos 0 → Failed
    no_option : ltb_ℤ (net.setsockopt (net.socket s).0 after_socket).0 (pos 0) ≡ true → Failed
    no_address : ltb_ℤ (net.bind (net.socket s).0 after_option).0 (pos 0) ≡ true → Failed
    no_backlog : ltb_ℤ (net.listen (net.socket s).0 after_bind).0 (pos 0) ≡ true → Failed

int_eq_zero : (z : ℤ) → int_eq z (pos 0) ≡ true → z ≡ pos 0
int_eq_zero (pos n) h = ap pos (ground arith)
int_eq_zero (negsuc n) h = cc

-- A descriptor that is not 0 and with which `setsockopt` does not fail is above 0.
above_zero :
    (net : Net) (law : IsNet net) (fd : ℤ) (u : net.State)
    → int_eq fd (pos 0) ≡ false
    → ltb_ℤ (net.setsockopt fd u).0 (pos 0) ≡ false
    → (n : ℕ) × (fd ≡ pos n) × (0 < n)
above_zero net law (pos n) u ne ok = (n, refl, ground arith)
above_zero net law (negsuc n) u ne ok = absurd (false≢true (sym ok ∙ law.setsockopt_bad n u))

module _ (net : Net) (law : IsNet net) where
  -- The process ends with 0 and there is a reason; or the socket listens, on a descriptor above 0.
  abbrev pub Opened : FileLockTable → net.State → Started × net.State → Type 0
  Opened t s (exited c, s') = (c ≡ 0) × Failed net s
  Opened t s (listening fd u, s') =
      ((n : ℕ) × (fd ≡ pos n) × (0 < n)) × law.IsListening fd s' × (u ≡ t)

  open_socket-Opened : (t : FileLockTable) (s : net.State) → Opened t s (open_socket net t s)
  unfolding open_socket
  open_socket-Opened t s =
      let (fd, s₁) = net.socket s in
      let s₂ = (net.setsockopt fd s₁).1 in
      let s₃ = (net.bind fd s₂).1 in
      elim (Bool-cases (int_eq fd (pos 0))) [
        | inl zero ↦ rw zero (refl, zero_socket (int_eq_zero fd zero))
        | inr not_zero ↦ elim (Bool-cases (ltb_ℤ (net.setsockopt fd s₁).0 (pos 0))) [
          | inl bad ↦ rw (not_zero, bad) (refl, no_option bad)
          | inr set ↦ elim (Bool-cases (ltb_ℤ (net.bind fd s₂).0 (pos 0))) [
            | inl bad ↦ rw (not_zero, set, bad) (refl, no_address bad)
            | inr bound ↦ elim (Bool-cases (ltb_ℤ (net.listen fd s₃).0 (pos 0))) [
              | inl bad ↦ rw (not_zero, set, bound, bad) (refl, no_backlog bad)
              | inr heard ↦
                  let (n, e, above) = above_zero net law fd s₁ not_zero set in
                  let there : law.IsOpen fd s₁ = law.socket_open s (rw e (omega arith)) in
                  rw (not_zero, set, bound, heard)
                    (
                      (n, e, above),
                      law.listen_listening fd s₃
                          (law.bind_bound fd s₂ (law.setsockopt_open fd s₁ there) bound) heard,
                      refl,
                    )
            ]
          ]
        ]
      ]

  module _ (db : Creator) (law' : IsCreator db) (g : Text) (d : db.State) where
    abbrev pub users_db : Text
    users_db = db_path (some (codes "DB/users.db")) g

    abbrev pub HasTables : db.State → Type 0
    HasTables d' = law'.HasUsers users_db d' × law'.HasQuotas users_db d'

    -- from the state `s` of the network
    abbrev pub BootOf : net.State → db.State → Boot net → Type 0
    BootOf s d' (exited c, h, s') =
        ((c ≡ 0) × (all_succeed db law' users_db d ≡ false) × Gone h)
        ⊎ (((c ≡ 1) × HasTables d' × Gone h)
            ⊎ ((c ≡ 0) × HasTables d' × Ready max_file_locks h × Failed net s))
    BootOf s d' (listening fd t, h, s') =
        ((n : ℕ) × (fd ≡ pos n) × (0 < n))
        × law.IsListening fd s'
        × HasTables d'
        × (t ≡ file_lock_table_init)
        × Ready max_file_locks h

    -- with the table, or without
    Opened-BootOf :
        (d' : db.State) (t : FileLockTable) (h : Held) (s : net.State) (r : Started × net.State)
        → HasTables d'
        → t ≡ file_lock_table_init
        → Ready max_file_locks h
        → Opened t s r
        → BootOf s d' (r.0, h, r.1)
    Opened-BootOf d' t h s (exited c, s') tables e ready (z, why) =
        inr (inr (z, tables, ready, why))
    Opened-BootOf d' t h s (listening fd u, s') tables e ready (n, heard, same) =
        (n, heard, tables, same ∙ e, ready)

    table-BootOf :
        (d' : db.State) (s : net.State) (memory : ℕ → FileLock) (malloc table_ok : Bool)
        (ok : ℕ → Bool)
        → HasTables d'
        → Lifetime (init_table memory malloc table_ok ok nothing)
        → (b : Boot net) × ((init_table memory malloc table_ok ok nothing >>= λ made.
              some (with_table net made s))
            ≡ some b)
          × BootOf s d' b
    unfolding with_table
    table-BootOf d' s memory malloc table_ok ok tables life = (
      with_table net (life.table, life.made) s,
      ap (λ o. o >>= λ made. some (with_table net made s)) life.created,
      elim life.whole [
        | inl (e, ready) ↦
            subst (λ x. BootOf s d' (with_table net (x, life.made) s)) (sym e)
              (Opened-BootOf d' file_lock_table_init life.made s _ tables refl ready
                (open_socket-Opened file_lock_table_init s))
        | inr (e, gone) ↦
            subst (λ x. BootOf s d' (with_table net (x, life.made) s)) (sym e)
              (inr (inl (refl, tables, gone)))
      ],
    )

    -- How `main` starts, whatever fails. It never misuses memory or a mutex. Where it goes on to
    -- accept clients, a socket listens on a descriptor above 0, the database has both tables, and
    -- the table of the locks is there, all of its slots free and all of its mutexes made. Else the
    -- process ends: with 0 because a call of SQLite failed, before anything else was made; with 1
    -- because the table of the locks could not be made, of which nothing is left; or with 0, the
    -- table of the locks still there, because in this start `socket` gave 0 or `setsockopt`, `bind` or
    -- `listen` failed.
    pub main_start-BootOf :
        (memory : ℕ → FileLock) (malloc table_ok : Bool) (ok : ℕ → Bool) (s : net.State)
        → (b : Boot net) × ((main_start net db g memory malloc table_ok ok d s).0 ≡ some b)
          × BootOf s (main_start net db g memory malloc table_ok ok d s).1 b
    unfolding main_start
    main_start-BootOf memory malloc table_ok ok s =
        let (_, result) = init_db-Created db law' (some (codes "DB/users.db")) g d in
        elim result [
          | inr (bad, r) ↦ rw r ((exited 0, nothing, s), refl, inl (refl, bad, nothing_lem))
          | inl (all, r, users, quotas) ↦ rw r (
              table-BootOf _ s memory malloc table_ok ok (users, quotas)
                (init_table-Lifetime memory malloc table_ok ok))
        ]
