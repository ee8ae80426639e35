-- ===== src/Session/Serve/Admitted.antt =====
-- Whose tasks a connection runs.
use client_worker_thread_poo.Base.{
  ℕ, zero, suc, ◌≡◌, refl, sym, ap, subst, ◌∙◌, Bool, true, false, Option, none, some, some_inj,
  Option-cases, inl, inr, Text, ◌>>=◌,
}
use client_worker_thread_poo.Utility.Words.{three_words}
use client_worker_thread_poo.Storage.Sqlite.{IsSqlite}
use client_worker_thread_poo.Task.Defs.{Client, Task, execute_task}
use client_worker_thread_poo.Session.Defs.{Gahak, World, Request, signup_login, handle_cmd}
use client_worker_thread_poo.Session.Auth.{HasAccount, signup_login-HasAccount}
use client_worker_thread_poo.Session.Serve.Defs.{
  Host, Line, closed, endless, text, client_of, task_for, Conn, Turn, ended, again, overrun,
  unfinished, read_line, after_send, stored, respond, after_task, after_request, after_line, turn,
  next_round, serve_loop, sign_in, after_auth, after_sign_in, after_first, serve,
}

module _ (host : Host) (law : IsSqlite host.db) where
  open host use {srv, db, dirs, log10, net, malloc, look, store}

  -- `sign_in` has let this client in, and then there was an account of the second word of the line
  -- whose password is the third word.
  abbrev pub LetIn : Gahak → Type 0
  LetIn g =
      (line : Text) × ((g₀ : Gahak) × ((w w' : srv.World) × (sign_in host line g₀ w
            ≡ some ((true, g), w'))
          × HasAccount db law dirs log10 (three_words line).1 (three_words line).2
              (law.tables (look w').0)))

  -- The part of the world that sign-in works on is the one that it has stored.
  abbrev pub Stored : Type 0
  Stored = (d : World db dirs log10) (w : srv.World) → look (store d w) ≡ d

  module _ (law' : Stored) where
    let_in :
        (line : Text) (g₀ g : Gahak) (w w' : srv.World)
        → sign_in host line g₀ w ≡ some ((true, g), w')
        → LetIn g
    unfolding sign_in
    let_in line g₀ g w w' e =
        (line, (g₀, (w, w', e, (given (signup_login db dirs log10 line g₀ (look w)) refl e))))
      where
        given :
            (o : Option ((Bool × Gahak) × World db dirs log10))
            → signup_login db dirs log10 line g₀ (look w) ≡ o
            → stored host w o ≡ some ((true, g), w')
            → HasAccount db law dirs log10
                (three_words line).1
                (three_words line).2
                (law.tables (look w').0)
        given none h e = cc
        given (some (r, d)) h e =
            let same = some_inj e in
            let world : store d w ≡ w' = ap (λ (x : (Bool × Gahak) × srv.World). x.1) same in
            let kept : look w' ≡ d = ap look (sym world) ∙ law' d w in
            let ok : r.0 ≡ true = ap (λ (x : (Bool × Gahak) × srv.World). x.0.0) same in
            subst
              (λ (x : World db dirs log10).
                HasAccount db law dirs log10 (three_words line).1 (three_words line).2
                  (law.tables x.0))
              (sym kept) (signup_login-HasAccount db law dirs log10 line g₀ (look w) (r, d) h ok)

    module _ (P : srv.World → Type 0)
        (signing : (line : Text) (g : Gahak) (w : srv.World) (r : (Bool × Gahak) × srv.World)
          → P w
          → sign_in host line g w ≡ some r
          → P r.1)
        (tasks : (g : Gahak) (cl : Client) (q : Request) (v : srv.World) (r : Task × srv.World)
          → LetIn g
          → client_of g ≡ some cl
          → P v
          → execute_task srv (task_for cl q) v ≡ some r
          → P r.1) where
      -- It holds in the world at the end, if there is an end.
      abbrev pub Kept : Turn host → Type 0
      Kept (ended c) = P c.world
      Kept (again c) = P c.world
      Kept overrun = Unit {0}
      Kept unfinished = Unit {0}

      after_send-Kept :
          (c : Conn host) (o : Option net.State) → P c.world → Kept (after_send host c o)
      after_send-Kept c none p = tt
      after_send-Kept c (some s) p = p

      after_task-Kept :
          (c : Conn host) (o : Option (Task × srv.World))
          → ((r : Task × srv.World) → o ≡ some r → P r.1)
          → Kept (after_task host c o)
      unfolding respond
      after_task-Kept c none h = tt
      after_task-Kept c (some (k, w)) h = after_send-Kept (record c { world = w }) _ (h (k, w) refl)

      run-Kept :
          (g : Gahak) (q : Request) (v : srv.World)
          → LetIn g
          → P v
          → (r : Task × srv.World)
          → (client_of g >>= λ cl. execute_task srv (task_for cl q) v) ≡ some r
          → P r.1
      run-Kept g q v ok p r e = elim (Option-cases (client_of g)) [
        | inl h ↦
            let h' : none ≡ some r =
              subst
                (λ (o : Option Client). (o >>= λ cl. execute_task srv (task_for cl q) v) ≡ some r) h
                e in
            cc
        | inr (cl, h) ↦ tasks g cl q v r ok h p (
            subst (λ (o : Option Client). (o >>= λ cl. execute_task srv (task_for cl q) v) ≡ some r)
              h e)
      ]

      after_line-Kept :
          (g : Gahak) (c : Conn host) (l : Line)
          → LetIn g
          → P c.world
          → Kept (after_line host g c l)
      after_line-Kept g c closed ok p = p
      after_line-Kept g c endless ok p = tt
      after_line-Kept g c (text l) ok p = requested (handle_cmd net malloc l c.conn)
        where
          requested : (o : Option (Option Request × net.State)) → Kept (after_request host g c o)
          requested none = tt
          requested (some (none, s)) = after_send-Kept (record c { conn = s }) _ p
          requested (some (some q, s)) =
              after_task-Kept (record c { conn = s }) _ (run-Kept g q c.world ok p)

      next_round-Kept :
          (f : Conn host → Turn host) (t : Turn host)
          → Kept t
          → ((c : Conn host) → P c.world → Kept (f c))
          → Kept (next_round host f t)
      next_round-Kept f (ended c) p h = p
      next_round-Kept f (again c) p h = h c p
      next_round-Kept f overrun p h = tt
      next_round-Kept f unfinished p h = tt

      serve_loop-Kept :
          (fuel : ℕ) (g : Gahak) (c : Conn host)
          → LetIn g
          → P c.world
          → Kept (serve_loop host fuel g c)
      unfolding serve_loop turn
      serve_loop-Kept zero g c ok p = tt
      serve_loop-Kept (suc fuel) g c ok p =
          let (l, size', s) = read_line host c.size c.conn in
          next_round-Kept (serve_loop host fuel g) (turn host g c)
            (after_line-Kept g (record c { size = size'; conn = s }) l ok p)
            (λ d q. serve_loop-Kept fuel g d ok q)

      after_auth-Kept :
          (fuel : ℕ) (ok : Bool) (g : Gahak) (c : Conn host) (o : Option net.State)
          → (ok ≡ true → LetIn g)
          → P c.world
          → Kept (after_auth host fuel ok g c o)
      after_auth-Kept fuel ok g c none l p = tt
      after_auth-Kept fuel true g c (some s) l p =
          serve_loop-Kept fuel g (record c { conn = s }) (l refl) p
      after_auth-Kept fuel false g c (some s) l p = p

      after_first-Kept :
          (fuel : ℕ) (g : Gahak) (c : Conn host) (l : Line)
          → P c.world
          → Kept (after_first host fuel g c l)
      after_first-Kept fuel g c closed p = p
      after_first-Kept fuel g c endless p = tt
      after_first-Kept fuel g c (text l) p = signed (sign_in host l g c.world) refl
        where
          signed :
              (o : Option ((Bool × Gahak) × srv.World))
              → sign_in host l g c.world ≡ o
              → Kept (after_sign_in host fuel c o)
          signed none e = tt
          signed (some ((ok, g'), w)) e =
              after_auth-Kept fuel ok g' (record c { world = w }) _
                (λ yes. let_in l g g' c.world w (e ∙ ap (λ b. some ((b, g'), w)) yes))
                (signing l g c.world ((ok, g'), w) p e)

      -- Let `P` be a property of the world that sign-up and login keep, and that `execute_task`
      -- keeps for the tasks of every client whom `signup_login` has let in, with an account of the name
      -- and the password of the line. Then a connection keeps it, for any number of rounds: if `P`
      -- holds when the connection is taken from the queue, it holds when it is closed, whatever the
      -- client sends before, during and without a sign-in.
      pub serve-Kept :
          (fuel : ℕ) (g : Gahak) (c : Conn host) → P c.world → Kept (serve host fuel g c)
      unfolding serve
      serve-Kept fuel g c p =
          let (l, size', s) = read_line host c.size c.conn in
          after_first-Kept fuel g (record c { size = size'; conn = s }) l p
